-- ===== src/Investigations.antt =====
-- Investigations: src/mei/application/services/investigations.py and
-- src/mei/infrastructure/repositories/investigations.py.
pub mod Keywords
pub mod Models
pub mod Narratives
pub mod Service
pub mod Settles
mod Tests
