-- ===== src/Server.antt =====
-- The HTTP server (internal/server): rate limits, guards and the handlers of the API.
pub mod RateLimit
pub mod Http
pub mod Handler
pub mod SignIn
pub mod SignOut
pub mod Setup
pub mod Guards
pub mod Status
pub mod Routes
