-- ===== src/Cache/Runs.antt =====
-- The theorems on the index of the blocks, at a genesis block and one after it that spends a coin.
use xbtc.Base.{◌==◌, ◌≡◌, refl, false, none, some, arith}
use xbtc.Base.Maps.{get}
use xbtc.Data.Block.{BlockHeader}
use xbtc.Cache.{BlockCache, Validator, deref, add_block_index}
use xbtc.Cache.Add.{Adds, add_block_index-IsIndex}
use xbtc.Cache.Rejected.{add_block_index_rejected}
use xbtc.Cache.Samples.{
  genesis_header, next_header, accepting, proof_of, one_block, two_blocks, next_run,
  one_block-IsIndex,
}

add_block_index-IsIndex_example : Adds proof_of accepting next_header (some 2) two_blocks
add_block_index-IsIndex_example =
    add_block_index-IsIndex proof_of accepting false next_header one_block two_blocks (some 2)
      one_block-IsIndex (omega arith) next_run

-- A validator that accepts block 2 only.
abbrev choosy : Validator
choosy = record accepting { validate_header = λ h. h.hash == 2 }

abbrev bad_header : BlockHeader
bad_header = record genesis_header { hash = 3 }

abbrev child_header : BlockHeader
child_header = record next_header { previous_block_hash = 3 }

add_block_index_rejected_example :
    (s' : BlockCache) × (add_block_index choosy proof_of false bad_header one_block
      ≡ some (none, s'))
    × (add_block_index choosy proof_of false child_header s' ≡ none)
unfolding deref get
add_block_index_rejected_example =
    add_block_index_rejected proof_of choosy false bad_header child_header one_block (omega arith)
      refl refl (omega arith) refl (omega arith) refl refl
