-- ===== src/Cache.antt =====
-- BlockCacheImpl of src/storage/BlockCache.cpp: the index of the blocks, the best header, the best chain and the
-- coins. A BlockIndex is named by its hash, under which m_blocks holds it. `none` is a failed assertion or a
-- null pointer that is followed.
pub mod Index
pub mod Sums
pub mod Add
pub mod Connect
pub mod Rejected
pub mod Samples
mod Runs
use xbtc.Base.{
  ℕ, zero, suc, ◌+◌, ◌%◌, ◌^◌, Bool, true, false, not, ◌||◌, Option, none, some, ◌>>=◌, List, [],
  ◌∷◌, length, ltb, leb, ◌==◌, if◌then◌else◌, bit_or,
}
use xbtc.Base.Maps.{Map, get, put}
use xbtc.Data.Transaction.{Transaction}
use xbtc.Data.Block.{
  BlockHeader, Block, BlockIndexData, DiskBlockPos, raise_validity, set_disk_position, valid_tree,
  valid_transactions, have_data,
}
use xbtc.Chain.Index.{Node, Tree}
use xbtc.Chain.Active.{Chain, set_tip, get_height}
use xbtc.Coins.{CoinView, set_best_block_hash, transfer, flush}

-- A BlockIndex: what the database keeps, and what is computed from the blocks before it.
pub record BlockIndex : Type 0 where
  pub saved : BlockIndexData
  pub previous : Option ℕ
  pub chain_work : ℕ
  pub chain_transaction_count : ℕ
  pub max_time : ℕ

-- A null pointer may stand in m_blocks. `handed` are the lists that the storage was given to write.
pub record BlockCache : Type 0 where
  pub blocks : Map (Option BlockIndex)
  pub best_header : Option ℕ
  pub dirty : List ℕ
  pub handed : List (List ℕ)
  pub chain : Chain
  pub coins : CoinView

-- Validator, as its clients see it; the verification of the transactions uses the coins.
pub record Validator : Type 0 where
  pub validate_header : BlockHeader → Bool
  pub validate_block : Block → BlockIndex → Bool
  pub verify_transactions : Block → BlockIndex → CoinView → Option (Bool × CoinView)

-- Following a pointer to a BlockIndex.
unfoldable pub deref : Map (Option BlockIndex) → ℕ → Option BlockIndex
unfolding get
deref blocks hash = elim (get blocks hash) [ none ↦ none | some e ↦ e ]

-- The tree in which BlockIndex::getAncestor and setTip walk. Nothing sets a skip pointer.
unfoldable pub tree_of : Map (Option BlockIndex) → Tree
unfolding deref
tree_of blocks hash = elim (deref blocks hash) [
  | none ↦ record { height = 0; previous = none; skip = none }
  | some e ↦ record { height = e.saved.height; previous = e.previous; skip = none }
]

-- createBlockIndex(header).
abbrev pub create_block_index : BlockHeader → BlockIndex
create_block_index header = record {
  saved = record {
    header = header;
    height = 0;
    status = 0;
    transaction_count = 0;
    file_index = 0;
    data_position = 0;
    undo_position = 0;
  };
  previous = none;
  chain_work = 0;
  chain_transaction_count = 0;
  max_time = 0;
}

abbrev pub has : ℕ → List ℕ → Bool
has k [] = false
has k (j ∷ js) = (j == k) || has k js

-- The coins: `flush` asks the batch to be written.
unfoldable pub flush_all : BlockCache → Option BlockCache
flush_all s = do
  coins ← flush true s.coins
  some (record s { dirty = []; handed = s.dirty ∷ s.handed; coins = coins })

-- markDirtyBlock and checkFlush; `late` is whether the last flush is more than 5000 ms ago.
unfoldable pub mark_dirty_block : Bool → ℕ → BlockCache → Option BlockCache
unfolding flush_all
mark_dirty_block late hash s =
    let dirty = if has hash s.dirty then s.dirty else hash ∷ s.dirty in
    let s' = record s { dirty = dirty } in
    if leb 100000 (length dirty) || late then flush_all s' else some s'

-- validateBlockHeader is a parameter of addBlockIndex by the Validator, and `proof` is Consensus::calcBlockProof.
module _ (validator : Validator) (proof : ℕ → ℕ) where
  open validator use {validate_header, verify_transactions}

  -- The part of addBlockIndex that links a new entry to the one before it.
  unfoldable pub link_block : Map (Option BlockIndex) → BlockIndex → Option BlockIndex
  unfolding get
  link_block blocks e =
      if e.saved.header.previous_block_hash == 0
      then some e
      else elim (get blocks e.saved.header.previous_block_hash) [
        | none ↦ some e
        | some none ↦ none
        | some (some p) ↦ some (record e {
          saved = record (e.saved) { height = p.saved.height + 1 };
          previous = some e.saved.header.previous_block_hash;
        })
      ]

  -- The sums of updateBlockInfo. `none` is a previous block that is null.
  unfoldable pub with_sums : Map (Option BlockIndex) → BlockIndex → Option BlockIndex
  unfolding deref
  with_sums blocks e =
      let work = proof e.saved.header.bits in
      let time = e.saved.header.timestamp in
      let count = e.saved.transaction_count in
      elim e.previous [
        | none ↦
            some (record e { chain_work = work; chain_transaction_count = count; max_time = time })
        | some k ↦ elim (deref blocks k) [
          | none ↦ none
          | some p ↦ some (record e {
            chain_work = (work + p.chain_work) % 2 ^ 256;
            chain_transaction_count = (count + p.chain_transaction_count) % 2 ^ 32;
            max_time = if ltb time p.max_time then p.max_time else time;
          })
        ]
      ]

  -- updateBlockInfo: the sums, and whether the block becomes the best header.
  unfoldable pub update_block_info : ℕ → BlockCache → Option BlockCache
  unfolding with_sums
  update_block_info hash s = do
    e ← deref s.blocks hash
    e' ← with_sums s.blocks e
    let blocks = put hash (some e') s.blocks
    elim s.best_header [
      | none ↦ some (record s { blocks = blocks; best_header = some hash })
      | some b ↦
          (deref blocks b >>= λ best. some (record s {
            blocks = blocks;
            best_header = if ltb best.chain_work e'.chain_work then some hash else some b;
          }))
    ]

  -- addBlockIndex: the entry under the header's hash, by its name.
  unfoldable pub add_block_index : Bool → BlockHeader → BlockCache → Option (Option ℕ × BlockCache)
  unfolding link_block update_block_info mark_dirty_block deref
  add_block_index late header s =
      if header.hash == 0 then none else elim (deref s.blocks header.hash) [
        | some e ↦ some (some header.hash, s)
        | none ↦
            if not (validate_header header)
            then some (none, record s { blocks = put header.hash none s.blocks })
            else (do
              let blocks = put header.hash (some (create_block_index header)) s.blocks
              e ← link_block blocks (create_block_index header)
              let status = (raise_validity valid_tree e.saved.status).0
              let e' : BlockIndex = record e { saved = record (e.saved) { status = status } }
              s1 ←
                  update_block_info header.hash
                    (record s { blocks = put header.hash (some e') blocks })
              s2 ← mark_dirty_block late header.hash s1
              some (some header.hash, s2))
      ]

  unfoldable pub get_block_index : ℕ → BlockCache → Option ℕ
  unfolding deref
  get_block_index hash s = elim (deref s.blocks hash) [ none ↦ none | some e ↦ some hash ]

  -- The loop of updateCoins.
  unfoldable pub transfer_all : List Transaction → ℕ → CoinView → Option CoinView
  transfer_all [] height v = some v
  transfer_all (tx ∷ txs) height v = transfer tx height v >>= λ v'. transfer_all txs height v'

  -- updateCoins.
  unfoldable pub update_coins : Block → ℕ → BlockCache → Option (Bool × BlockCache)
  unfolding transfer_all tree_of
  update_coins block hash s = do
    e ← deref s.blocks hash
    (verified, v1) ← verify_transactions block e s.coins
    if not verified then some (false, record s { coins = v1 }) else (do
      chain ← set_tip (tree_of s.blocks) s.chain (some hash)
      v2 ←
          transfer_all block.transactions e.saved.height
            (set_best_block_hash hash e.saved.height v1)
      some (true, record s { chain = chain; coins = v2 }))

  -- onBlockWritten.
  unfoldable pub on_block_written : Bool → Block → ℕ → DiskBlockPos → BlockCache → Option BlockCache
  unfolding update_coins mark_dirty_block
  on_block_written late block hash pos s = do
    e ← deref s.blocks hash
    let saved = set_disk_position pos e.saved
    let status = (raise_validity valid_transactions (bit_or saved.status have_data)).0
    let e' : BlockIndex = record e { saved = record saved { status = status } }
    s1 ← mark_dirty_block late hash (record s { blocks = put hash (some e') s.blocks })
    (done, s2) ← update_coins block hash s1
    height ← get_height s2.chain
    if not done then none else if height == s2.coins.best_block_height then some s2 else none

  -- addBlock, up to the writing of the block: the entry, with the count of its transactions, or a null pointer for a
  -- block that is not valid.
  unfoldable pub add_block : Bool → Block → BlockCache → Option (Option ℕ × BlockCache)
  unfolding add_block_index
  add_block late block s = do
    (found, s1) ← add_block_index late block.header s
    hash ← found
    e ← deref s1.blocks hash
    let count = length block.transactions % 2 ^ 32
    if e.saved.height == 0
        then none
        else if not (validator.validate_block block e)
        then some (none, s1)
        else if (e.saved.transaction_count == 0)
            || (e.saved.transaction_count == length block.transactions)
        then some (
          some hash,
          record s1 {
            blocks =
                put hash
                  (some (record e { saved = record (e.saved) { transaction_count = count } }))
                  s1.blocks;
          },
        )
        else none
