-- ===== src/Data.antt =====
-- src/data: transactions, block headers, blocks, coins, and the encodings that Transaction.cpp,
-- Block.cpp and Coin.cpp write and read. A uint256 is a number below 2 ^ 256, an int32_t or an
-- int64_t is its bit pattern, a std::string is the list of its bytes.
pub mod Transaction
pub mod Block
pub mod Coin
mod Runs
