-- ===== src/Risk.antt =====
-- The risk engine: indicators and their observations, the weights of a risk, the assessments that
-- `RiskEngine.calculate` appends, and their shadow review by a second model.
pub mod Models
pub mod Repository
pub mod Scoring
pub mod Llm
pub mod Engine
pub mod Indicators
pub mod Review
pub mod Changes
pub mod History
mod Tests
