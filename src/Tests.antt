-- ===== src/Tests.antt =====
-- The theorems at concrete inputs.
mod Downloads
mod Totals
mod Messages
mod Services
mod Choices
mod Sharing
mod Handling
mod Blocks
mod Encryption
mod Hashing
mod Receiving
