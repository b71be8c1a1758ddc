-- ===== src/Punch.antt =====
-- The punch package (internal/punch).
pub mod Stun
pub mod Sessions
pub mod Probe
