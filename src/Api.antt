-- ===== src/Api.antt =====
-- The HTTP layer (internal/api).
pub mod RateLimit
pub mod Answers
pub mod Requests
pub mod Guard
pub mod Accounts
pub mod Peers
pub mod Admins
pub mod Router
pub mod AdminPeers
