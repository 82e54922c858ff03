-- ===== src/Usage.antt =====
-- The monthly usage ledger (src/storage/usage.py).
pub mod Ledger
pub mod Totals
pub mod Tests
