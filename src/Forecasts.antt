-- ===== src/Forecasts.antt =====
-- Forecasts, their resolution and the calibration report: src/mei/application/services/forecast_audit.py
-- and calibration.py over src/mei/infrastructure/repositories/forecasts.py.
pub mod Repository
pub mod Audit
pub mod Calibration
mod Tests
