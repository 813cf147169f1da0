-- ===== src/Net/Sync.antt =====
-- NodeSyncInfo of src/net/NodeSyncInfo.hpp and BlockSynchronizer.cpp: what a node is known to have, and which blocks
-- are asked of it. A block is named by its hash, and a hash of 0 is null. `none` is a failed assertion or a null pointer
-- that is followed.
pub mod Path
pub mod Download
pub mod Requests
mod Runs
use xbtc.Base.{
  ℕ, zero, suc, ◌+◌, ◌-◌, Bool, true, false, not, ◌||◌, Option, none, some, ◌>>=◌, List, [], ◌∷◌,
  length, ltb, leb, ◌==◌, if◌then◌else◌,
}
use xbtc.Data.Block.{Block}
use xbtc.Chain.Index.{Tree, get_ancestor}
use xbtc.Chain.Active.{get_block, get_tip, get_height, find_last_common_ancestor}
use xbtc.Cache.{BlockCache, deref, tree_of, has}

pub record NodeSyncInfo : Type 0 where
  pub best_known_block : Option ℕ
  pub last_unknown_block_hash : ℕ
  pub last_common_block : Option ℕ
  pub last_download_block : Option ℕ
  pub requesting_blocks : List ℕ

abbrev pub block_download_window : ℕ
block_download_window = 1024

abbrev pub min : ℕ → ℕ → ℕ
min a b = if ltb b a then b else a

abbrev pub max : ℕ → ℕ → ℕ
max a b = if ltb a b then b else a

-- chainWork of a block that a node keeps a pointer to.
unfoldable pub work_of : BlockCache → ℕ → ℕ
unfolding deref
work_of s b = elim (deref s.blocks b) [ none ↦ 0 | some e ↦ e.chain_work ]

-- The block, if it has no less work than the best one that is known.
unfoldable pub better : BlockCache → ℕ → Option ℕ → ℕ
unfolding work_of
better s b none = b
better s b (some best) = if leb (work_of s best) (work_of s b) then b else best

-- processBlockAvailability.
unfoldable pub process_block_availability : BlockCache → NodeSyncInfo → NodeSyncInfo
unfolding better deref work_of
process_block_availability s info =
    if info.last_unknown_block_hash == 0
    then info
    else elim (deref s.blocks info.last_unknown_block_hash) [
      | none ↦ info
      | some e ↦
          if ltb 0 e.chain_work
          then record info {
            best_known_block = some (better s info.last_unknown_block_hash info.best_known_block);
            last_unknown_block_hash = 0;
          }
          else info
    ]

-- updateBlockAvailability: `block` is what addBlockIndex has returned for the hash.
unfoldable pub update_block_availability : ℕ → Option ℕ → BlockCache → NodeSyncInfo → NodeSyncInfo
unfolding process_block_availability better work_of
update_block_availability hash block s info =
    let info' = process_block_availability s info in
    elim block [
      | none ↦ record info' { last_unknown_block_hash = hash }
      | some b ↦
          if ltb 0 (work_of s b)
          then record info' { best_known_block = some (better s b info'.best_known_block) }
          else record info' { last_unknown_block_hash = hash }
    ]

-- The loop that fills the list from its end: `n` blocks up to `b`.
unfoldable pub fill_back : ℕ → Tree → ℕ → List ℕ → Option (List ℕ)
fill_back zero tree b blocks = some blocks
fill_back (suc zero) tree b blocks = some (b ∷ blocks)
fill_back (suc (suc n)) tree b blocks = elim (tree b).previous [
  | none ↦ none
  | some p ↦ fill_back (suc n) tree p (b ∷ blocks)
]

-- The last common block to begin with.
unfoldable pub guess_common : BlockCache → Option ℕ → ℕ → Option ℕ
unfolding get_block get_height tree_of
guess_common s (some c) best = some c
guess_common s none best =
    get_height s.chain >>= λ height. get_block s.chain (min (tree_of s.blocks best).height height)

-- The part of findBlocksToDownload after the last common block has been found.
unfoldable pub download_from :
    ℕ → BlockCache → ℕ → ℕ → NodeSyncInfo → Option (List ℕ × NodeSyncInfo)
unfolding fill_back get_ancestor tree_of
download_from count s best common info =
    let tree = tree_of s.blocks in
    let info' = record info { last_common_block = some common } in
    if common == best then some ([], info') else (do
      let max_height = min (tree best).height ((tree common).height + block_download_window + 1)
      let real_count = min (max_height - (tree common).height) (max count 128)
      found ← get_ancestor tree best ((tree common).height + real_count)
      block ← found
      blocks ← fill_back real_count tree block []
      some (
        blocks,
        record info' { last_download_block = some block; last_common_block = some block },
      ))

-- findBlocksToDownload; `minimum` is the least work that the configuration asks for.
unfoldable pub find_blocks_to_download :
    ℕ → ℕ → BlockCache → NodeSyncInfo → Option (List ℕ × NodeSyncInfo)
unfolding process_block_availability guess_common download_from find_last_common_ancestor tree_of
    work_of get_tip
find_blocks_to_download minimum count s info0 =
    let info = process_block_availability s info0 in
    elim info.best_known_block [
      | none ↦ some ([], info)
      | some best ↦ do
        tip ← get_tip s.chain
        t ← tip
        if ltb (work_of s best) (work_of s t) || ltb (work_of s best) minimum
            then some ([], info)
            else (do
              guess ← guess_common s info.last_common_block best
              common ← find_last_common_ancestor (tree_of s.blocks) guess best
              c ← common
              download_from count s best c info)
    ]

unfoldable pub is_requesting_block : NodeSyncInfo → Bool
is_requesting_block info = not (length info.requesting_blocks == 0)

-- recordRequestingBlocks.
unfoldable pub record_all : List ℕ → List ℕ → Option (List ℕ)
record_all [] requesting = some requesting
record_all (b ∷ blocks) requesting =
    let rest = record_all blocks (if has b requesting then requesting else b ∷ requesting) in
    if b == 0 then none else rest

unfoldable pub record_requesting_blocks : List ℕ → NodeSyncInfo → Option NodeSyncInfo
unfolding record_all
record_requesting_blocks blocks info =
    if length info.requesting_blocks == 0
    then (record_all blocks [] >>= λ requesting.
        some (record info { requesting_blocks = requesting }))
    else none

abbrev pub without : ℕ → List ℕ → List ℕ
without b [] = []
without b (x ∷ xs) = let rest = without b xs in if x == b then rest else x ∷ rest

-- removeBlockRecord.
unfoldable pub remove_block_record : ℕ → NodeSyncInfo → Option NodeSyncInfo
remove_block_record hash info =
    if hash == 0
    then none
    else if has hash info.requesting_blocks
    then some (record info { requesting_blocks = without hash info.requesting_blocks })
    else none
