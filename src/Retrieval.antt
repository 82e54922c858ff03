-- ===== src/Retrieval.antt =====
-- The candidates of a search (src/search/retrieval.py).
pub mod Products
pub mod Filtering
pub mod Tail
pub mod TailPaging
pub mod TailSound
pub mod Filters
pub mod Fusion
pub mod VectorSearch
pub mod VectorLoop
pub mod VectorExact
pub mod PgFilter
pub mod WhereFilter
pub mod SearchTests
pub mod FusionScores
pub mod FusionExact
pub mod Tests
