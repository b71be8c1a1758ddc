-- ===== src/Examples.antt =====
-- The theorems at concrete worlds, packets and requests.
pub mod Worlds
mod Peers
mod Users
mod Network
mod Server
mod Logins
mod Edges
mod Devices
mod Files
