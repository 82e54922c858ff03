-- ===== src/Generations.antt =====
-- The index generations of a tenant (src/storage/index_generations.py).
pub mod Manifest
pub mod Operations
pub mod Slots
pub mod Invariant
pub mod Writes
pub mod Reach
pub mod Promotions
pub mod Rollback
pub mod Candidates
pub mod Tests
