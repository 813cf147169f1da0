-- ===== src/Net/Sync/Runs.antt =====
-- The theorems on the blocks to ask for, at an index of two blocks whose chain has only the first.
use xbtc.Base.{ℕ, ◌≡◌, refl, some, none, List, [], ◌∷◌, arith}
use xbtc.Base.Maps.{get}
use xbtc.Chain.Ancestor.{IsTree, self, up}
use xbtc.Chain.Active.{get_tip}
use xbtc.Chain.Fork.{IsLastCommon}
use xbtc.Cache.{BlockCache, tree_of}
use xbtc.Cache.Connect.{IsIndex-IsTree}
use xbtc.Cache.Samples.{two_blocks, two_blocks-IsIndex, proof_of}
use xbtc.Net.Sync.{
  NodeSyncInfo, is_requesting_block, record_requesting_blocks, process_block_availability,
  find_blocks_to_download, guess_common, work_of,
}
use xbtc.Net.Sync.Requests.{IsDistinct, SameBlocks, remove_all, requests_end}
use xbtc.Net.Sync.Download.{IsDownload, find_blocks_to_download-IsDownload}

abbrev behind : BlockCache
behind = record two_blocks { chain = record { size = 1; entry = λ h. some 1 } }

behind-IsTree : IsTree (tree_of behind.blocks)
behind-IsTree = IsIndex-IsTree proof_of two_blocks two_blocks-IsIndex

abbrev announced : NodeSyncInfo
announced = record {
  best_known_block = none;
  last_unknown_block_hash = 2;
  last_common_block = none;
  last_download_block = none;
  requesting_blocks = [];
}

find_blocks_to_download-IsDownload_example :
    (common : ℕ) × IsLastCommon (tree_of behind.blocks) behind-IsTree 1 2 common
    × ((blocks : List ℕ) × (info' : NodeSyncInfo) × (find_blocks_to_download 0 128 behind announced
          ≡ some (blocks, info'))
        × IsDownload behind behind-IsTree 128 2 common blocks
            (process_block_availability behind announced)
            info')
unfolding process_block_availability get_tip guess_common work_of get tree_of
find_blocks_to_download-IsDownload_example =
    find_blocks_to_download-IsDownload behind behind-IsTree 0 128 2 1 1 1 announced refl refl
      (omega arith) (omega arith) refl self (up refl self)

requests_end_example :
    (info' : NodeSyncInfo) × (record_requesting_blocks (5 ∷ 7 ∷ []) announced ≡ some info')
    × SameBlocks info'.requesting_blocks (5 ∷ 7 ∷ [])
    × (remove_all (7 ∷ 5 ∷ []) info' ≡ some announced)
unfolding is_requesting_block IsDistinct
requests_end_example =
    requests_end (5 ∷ 7 ∷ []) (7 ∷ 5 ∷ []) announced refl refl (refl, (refl, tt))
      (λ b. ground arith)
