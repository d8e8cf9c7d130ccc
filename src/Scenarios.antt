-- ===== src/Scenarios.antt =====
-- The scenario register and its updates: src/mei/application/services/scenario_engine.py over the
-- tables of src/mei/infrastructure/repositories/scenarios.py.
pub mod Models
pub mod Repository
pub mod Consistency
pub mod Engine
pub mod History
mod Tests
