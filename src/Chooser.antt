-- ===== src/Chooser.antt =====
-- The choice of the blocks to ask each peer for: RarityTrackerChooser
-- (Peer/Torrent/PieceManagement/RarityTrackerChooser.cpp).
pub mod Requests
pub mod Window
pub mod Rarity
pub mod Filling
pub mod Filled
pub mod Responses
