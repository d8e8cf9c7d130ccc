-- ===== src/Reports.antt =====
-- Reports: src/mei/application/services/report_generator.py and
-- src/mei/infrastructure/repositories/reports.py, over the tables of the other parts.
pub mod Models
pub mod Generator
pub mod Lifecycle
pub mod Cited
pub mod Shelf
pub mod History
mod Tests
