-- ===== src/Data/Block.antt =====
-- src/data/Block.hpp and Block.cpp: headers, blocks, the statistics of a block file, and the entries
-- of the block index with their encodings. The skip list of the index is in the module Chain.
pub mod Codec
mod Integers
pub mod RoundTrip
pub mod Status
use xbtc.Base.{
  ℕ, ◌+◌, ◌*◌, ◌^◌, ◌%◌, Bool, true, false, Option, some, none, List, [], bit_and, bit_or, ◌==◌,
  ltb, leb, ◌&&◌, if◌then◌else◌, not, ◌-◌,
}
use xbtc.Data.Transaction.{Transaction}

pub record BlockHeader : Type 0 where
  pub version : ℕ
  pub previous_block_hash : ℕ
  pub merkle_root_hash : ℕ
  pub timestamp : ℕ
  pub bits : ℕ
  pub nonce : ℕ
  pub hash : ℕ

pub record Block : Type 0 where
  pub header : BlockHeader
  pub transactions : List Transaction

-- The flags of BlockStatus. The validity levels are 0 to 5.
abbrev pub valid_header : ℕ
valid_header = 1

abbrev pub valid_tree : ℕ
valid_tree = 2

abbrev pub valid_transactions : ℕ
valid_transactions = 3

abbrev pub valid_chain : ℕ
valid_chain = 4

abbrev pub valid_scripts : ℕ
valid_scripts = 5

abbrev pub valid_mask : ℕ
valid_mask = 7

abbrev pub have_data : ℕ
have_data = 8

abbrev pub have_undo : ℕ
have_undo = 16

abbrev pub failed_mask : ℕ
failed_mask = 96

-- What the database keeps of a block index entry.
pub record BlockIndexData : Type 0 where
  pub header : BlockHeader
  pub height : ℕ
  pub status : ℕ
  pub transaction_count : ℕ
  pub file_index : ℕ
  pub data_position : ℕ
  pub undo_position : ℕ

-- `x & ~mask` on a uint32_t.
abbrev clear_bits : ℕ → ℕ → ℕ
clear_bits x mask = x - bit_and x mask

-- BlockIndex::raiseValidity, on the status; the Boolean is its result.
unfoldable pub raise_validity : ℕ → ℕ → ℕ × Bool
raise_validity up_to status =
    if not (bit_and status failed_mask == 0)
    then (status, false)
    else if ltb (bit_and status valid_mask) up_to
    then (bit_or (clear_bits status valid_mask) up_to, true)
    else (status, false)

-- BlockIndex::isValid.
unfoldable pub is_valid : ℕ → ℕ → Bool
is_valid up_to status =
    if not (bit_and status failed_mask == 0) then false else leb up_to (bit_and status valid_mask)

pub record DiskBlockPos : Type 0 where
  pub file_index : ℕ
  pub position : ℕ

-- BlockIndex::setDiskPosition; the sum is an unsigned one of 32 bits.
unfoldable pub set_disk_position : DiskBlockPos → BlockIndexData → BlockIndexData
set_disk_position pos b = record b {
  file_index = pos.file_index;
  data_position = (pos.position + 8) % 2 ^ 32;
  undo_position = 0;
}

pub record BlockFileInfo : Type 0 where
  pub file_index : ℕ
  pub blocks : ℕ
  pub size : ℕ
  pub undo_size : ℕ
  pub min_height : ℕ
  pub max_height : ℕ
  pub min_time : ℕ
  pub max_time : ℕ

-- The macros XUL_LIMIT_MAX and XUL_LIMIT_MIN of xul/macro/minmax.hpp, as the new value of their first
-- argument.
module _ (limit_max limit_min : ℕ → ℕ → ℕ) where
  -- BlockFileInfo::addBlock; `none` is a failed assertion.
  unfoldable pub add_block : ℕ → ℕ → BlockFileInfo → Option BlockFileInfo
  add_block height timestamp info =
      if info.blocks == 0
      then (if (info.min_height == 0)
            && (info.max_height == 0)
            && (info.min_time == 0)
            && (info.max_time == 0)
          then some (record info {
            blocks = (info.blocks + 1) % 2 ^ 32;
            min_height = height;
            max_height = height;
            min_time = timestamp;
            max_time = timestamp;
          })
          else none)
      else some (record info {
        blocks = (info.blocks + 1) % 2 ^ 32;
        min_height = limit_max info.min_height height;
        max_height = limit_min info.max_height height;
        min_time = limit_max info.min_time timestamp;
        max_time = limit_min info.max_time timestamp;
      })
