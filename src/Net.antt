-- ===== src/Net.antt =====
-- src/net: the frames of messages.
pub mod Codec
pub mod Sync
mod Runs
