-- ===== src/Identity.antt =====
-- Users, API keys and the authentication of a request: src/mei/application/services/identity.py,
-- src/mei/infrastructure/repositories/identity.py and src/mei/infrastructure/auth.
pub mod Repository
pub mod Service
pub mod Access
pub mod RoundTrip
mod Tests
