-- ===== src/Api.antt =====
-- frontend/src/api.ts
pub mod Request
pub mod Hex
pub mod Uri
pub mod Base64
pub mod Endpoints
pub mod Json
pub mod Live
pub mod Socket
mod Tests
