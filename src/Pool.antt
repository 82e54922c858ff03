-- ===== src/Pool.antt =====
-- The tenants' search services and their generations (src/api/tenants.py).
pub mod Services
pub mod Swaps
pub mod Active
pub mod Entries
pub mod Checks
pub mod Coherence
pub mod Kept
pub mod Steps
pub mod Activation
pub mod Tests
