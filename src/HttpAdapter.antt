-- ===== src/HttpAdapter.antt =====
-- The adapter that follows a load generator over HTTP: frontend/src/adapters/HttpAdapter.ts.
pub mod Json
pub mod Wire
pub mod Config
pub mod Decode
pub mod Encode
pub mod Valid
pub mod View
pub mod Requests
pub mod Responses
pub mod Machine
mod Tests
