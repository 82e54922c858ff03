-- ===== src/Analytics.antt =====
-- The search analytics: events, their MySQL tables and the local spool
-- (src/storage/search_analytics.py, src/storage/search_analytics_spool.py).
pub mod Events
pub mod Destination
pub mod Spool
pub mod Ordering
pub mod Batches
pub mod Writes
pub mod Rounds
pub mod Progress
pub mod Quiet
pub mod Arrivals
pub mod Delivery
pub mod Kept
pub mod Lossless
pub mod Redelivery
pub mod Resume
pub mod Worker
pub mod Saves
pub mod Runs
pub mod Accounting
pub mod Attempts
pub mod Tests
