-- ===== src/Query.antt =====
-- query: the query client.
pub mod Lines
