-- ===== src/Auth.antt =====
-- The analytics accounts and sessions of src/analytics_service/auth.py.
pub mod Types
pub mod Passwords
pub mod Login
pub mod Sessions
pub mod Accounts
pub mod Rows
pub mod Accepted
pub mod Locks
pub mod Lockout
pub mod Validity
pub mod LoginValidity
pub mod Resolved
pub mod Kept
pub mod KeptAccounts
pub mod Reach
pub mod LoggedIn
pub mod RoundTrip
pub mod Revocation
pub mod Pruning
pub mod Tenancy
pub mod Tests
pub mod AccountTests
