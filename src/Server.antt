-- ===== src/Server.antt =====
-- The Node server: the middleware and the routes under server/src.
pub mod SlidingWindow
pub mod FixedWindow
pub mod Submission
pub mod Auth
pub mod Profile
pub mod Endpoints
pub mod Logging
pub mod Proxy
