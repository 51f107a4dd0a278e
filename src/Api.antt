-- ===== src/Api.antt =====
-- frontend/lib/api.ts: the client of the backend.
pub mod Errors
pub mod Url
pub mod Request
pub mod Endpoints
pub mod Client
