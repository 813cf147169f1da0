-- ===== src/Chain.antt =====
-- src/storage/BlockChain.cpp and the skip list of src/data/Block.cpp.
pub mod Index
pub mod Ancestor
pub mod Skip
pub mod Active
pub mod Tip
pub mod Fork
pub mod Locator
mod Runs
