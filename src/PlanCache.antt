-- ===== src/PlanCache.antt =====
-- The cache of query plans (src/search/engine_support.py).
pub mod Cache
pub mod Recency
pub mod Answers
pub mod Recent
pub mod Tests
