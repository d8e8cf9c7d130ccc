-- ===== src/Ingestion.antt =====
-- The intake of documents: src/mei/application/services/source_ingestion.py, the repositories of sources
-- and documents, src/mei/infrastructure/collection/dedup.py and apps/worker/tasks/collect.py.
pub mod Models
pub mod Repository
pub mod Service
pub mod Entry
pub mod Contents
pub mod Sorted
pub mod Archive
pub mod Submit
pub mod Again
pub mod Collect
pub mod History
pub mod Unlettered
pub mod Tests
pub mod Dedup
