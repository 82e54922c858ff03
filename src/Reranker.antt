-- ===== src/Reranker.antt =====
-- The hosted rerankers and their fallback chain (src/search/reranker.py).
pub mod Hosted
pub mod Scores
pub mod Cooldown
pub mod Fallback
pub mod Ranking
pub mod Bands
pub mod Diversity
pub mod Reranked
pub mod Rank
pub mod RankingTests
pub mod Tests
