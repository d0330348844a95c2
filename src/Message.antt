-- ===== src/Message.antt =====
-- The wire protocol: the frame of a message, the messages between peers, and those between a peer
-- and the server.
pub mod Frame
pub mod Torrent
pub mod Client
pub mod Server
