-- ===== src/Peer.antt =====
-- The peer package (internal/peer).
pub mod Ipam
pub mod Manager
