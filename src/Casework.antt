-- ===== src/Casework.antt =====
-- Events, claims, their evidence, and the queue of reviews that analysts decide: the services of
-- src/mei/application/services/events.py, claims.py, review.py and entity_resolution.py over one set of
-- tables, and extraction.py, which fills them.
pub mod Models
pub mod Repository
pub mod Events
pub mod Claims
pub mod Review
pub mod Resolution
pub mod Extraction
pub mod History
mod Tests
