-- ===== src/Relationships.antt =====
-- Relationships between actors: src/mei/application/services/relationships.py over
-- src/mei/infrastructure/repositories/relationships.py.
pub mod Service
pub mod Pairs
mod Tests
