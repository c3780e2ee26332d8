-- ===== src/Security.antt =====
-- crates/security: the session and access codes and the limiter of failed attempts.
pub mod RateLimit
pub mod Code
pub mod ConnectCode
