-- ===== src/AdminLogs.antt =====
-- The log feed of the administrators (src/observability/admin_logs.py).
pub mod Buffer
pub mod Retention
pub mod Paging
pub mod Tests
