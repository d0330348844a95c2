-- ===== src/Progress.antt =====
-- The progress of a download (Peer/Utils/DowndloadProgress): blocks, pieces, the whole file.
pub mod Status
pub mod Block
pub mod Piece
pub mod Download
