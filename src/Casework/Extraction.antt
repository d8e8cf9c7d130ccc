-- ===== src/Casework/Extraction.antt =====
-- src/mei/application/services/extraction.py: what a language model reads in a document becomes events,
-- claims and evidence.
pub mod Models
pub mod Clusters
pub mod Columns
pub mod Persist
pub mod Extends
pub mod Covers
pub mod Linking
pub mod Total
pub mod Tests
