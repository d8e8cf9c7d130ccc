-- ===== src/Pipeline.antt =====
-- The jobs of src/mei/application/services/pipeline_jobs.py, which run the services of the other parts over
-- everything that is registered.
pub mod Jobs
pub mod Counts
pub mod News
mod Tests
