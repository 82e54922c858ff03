-- ===== src/Limits.antt =====
-- The limiters of src/core/request_limit.py and src/core/rate_limit.py.
pub mod Window
pub mod Bucket
pub mod Tests
