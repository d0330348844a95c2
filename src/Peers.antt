-- ===== src/Peers.antt =====
-- The peers of a file and the connections that files share
-- (Peer/Torrent/PeerManager, Peer/Torrent/PeersConnectionManager).
pub mod Connections
pub mod Registry
pub mod Files
pub mod Registering
pub mod Capacity
pub mod Manager
pub mod Bound
pub mod Adding
pub mod Refresh
pub mod Sending
