-- ===== src/Catalog.antt =====
-- The authoritative Gold catalog: application/gold_catalog.py and
-- ingestion/gold_catalog_repository.py. Rows, their resolution by a consumer, and the repository
-- that validates what is stored.
pub mod Rows
pub mod Resolution
pub mod Repository
pub mod Validity
