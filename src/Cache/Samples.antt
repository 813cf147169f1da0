-- ===== src/Cache/Samples.antt =====
-- An index of two blocks: a genesis block and one after it that spends a coin.
use xbtc.Base.{
  ℕ, ◌≡◌, refl, true, false, Option, none, some, [], ◌∷◌, if◌then◌else◌, Bool-cases, inl, inr,
  none-ne-some, arith,
}
use xbtc.Base.Int.{◌+ℤ◌}
use xbtc.Base.Maps.{get, put}
use xbtc.Data.Transaction.{TransactionOutPoint, Transaction, is_coin_base}
use xbtc.Data.Block.{BlockHeader, Block, raise_validity}
use xbtc.Data.Coin.{Coin}
use xbtc.Chain.Active.{empty_chain}
use xbtc.Coins.{fits_int64, CoinView, set_best_block_hash}
use xbtc.Coins.Lookup.{eq_out, find}
use xbtc.Coins.Unspent.{IsSane, unspent}
use xbtc.Coins.Transfer.{Accepts, Spendable, InputsFit, OutputsFit, input_sum, output_sum}
use xbtc.Cache.{BlockIndex, BlockCache, Validator, deref, add_block_index}
use xbtc.Cache.Index.{IsIndex}
use xbtc.Cache.Add.{add_block_index-IsIndex}
use xbtc.Cache.Connect.{Ordered, AcceptsAll}

abbrev pub place : TransactionOutPoint
place = record { hash = 5; index = 0 }

abbrev pub owned : Coin
owned = record {
  output = record { value = 90; script_public_key = [] };
  height = 0;
  is_coin_base = false;
}

abbrev pub view : CoinView
view = record {
  db = λ k. if eq_out place k then some owned else none;
  added = [];
  removed = [];
  best_block_hash = 1;
  best_block_height = 0;
}

abbrev pub payment : Transaction
payment = record {
  version = 1;
  inputs =
      record { previous_output = place; signature_script = []; witness = []; sequence = 0 } ∷ [];
  outputs = record { value = 60; script_public_key = [] } ∷ [];
  lock_time = 0;
  hash = 6;
}

abbrev pub genesis_header : BlockHeader
genesis_header = record {
  version = 1;
  previous_block_hash = 0;
  merkle_root_hash = 0;
  timestamp = 10;
  bits = 7;
  nonce = 0;
  hash = 1;
}

abbrev pub next_header : BlockHeader
next_header = record {
  version = 1;
  previous_block_hash = 1;
  merkle_root_hash = 0;
  timestamp = 9;
  bits = 7;
  nonce = 0;
  hash = 2;
}

abbrev pub next_block : Block
next_block = record { header = next_header; transactions = payment ∷ [] }

abbrev pub accepting : Validator
accepting = record {
  validate_header = λ h. true;
  validate_block = λ b e. true;
  verify_transactions = λ b e v. some (true, v);
}

abbrev pub proof_of : ℕ → ℕ
proof_of bits = bits

abbrev pub empty_cache : BlockCache
empty_cache = record {
  blocks = [];
  best_header = none;
  dirty = [];
  handed = [];
  chain = empty_chain;
  coins = view;
}

pub empty_cache-IsIndex : IsIndex proof_of (deref empty_cache.blocks) empty_cache.best_header
unfolding deref get
empty_cache-IsIndex = record {
  named = λ k e q. absurd (none-ne-some q);
  linked = λ k e q. absurd (none-ne-some q);
  best_of = record { empty = λ q k. refl; most = λ b q. absurd (none-ne-some q) };
}

abbrev pub entry_with : BlockHeader → ℕ → ℕ → Option ℕ → ℕ → BlockIndex
entry_with header height work previous time = record {
  saved = record {
    header = header;
    height = height;
    status = 2;
    transaction_count = 0;
    file_index = 0;
    data_position = 0;
    undo_position = 0;
  };
  previous = previous;
  chain_work = work;
  chain_transaction_count = 0;
  max_time = time;
}

abbrev pub one_block : BlockCache
one_block = record empty_cache {
  blocks = (1, some (entry_with genesis_header 0 7 none 10)) ∷ [];
  best_header = some 1;
  dirty = 1 ∷ [];
}

abbrev pub two_blocks : BlockCache
two_blocks = record empty_cache {
  blocks =
      (1, some (entry_with genesis_header 0 7 none 10))
      ∷ (2, some (entry_with next_header 1 14 (some 1) 10))
      ∷ [];
  best_header = some 2;
  dirty = 2 ∷ 1 ∷ [];
}

pub genesis_run :
    add_block_index accepting proof_of false genesis_header empty_cache ≡ some (some 1, one_block)
unfolding add_block_index get put raise_validity
genesis_run = refl

pub next_run :
    add_block_index accepting proof_of false next_header one_block ≡ some (some 2, two_blocks)
unfolding add_block_index get put raise_validity
next_run = refl

pub one_block-IsIndex : IsIndex proof_of (deref one_block.blocks) one_block.best_header
one_block-IsIndex =
    (add_block_index-IsIndex proof_of accepting false genesis_header empty_cache one_block (some 1)
      empty_cache-IsIndex (omega arith) genesis_run).0

pub two_blocks-IsIndex : IsIndex proof_of (deref two_blocks.blocks) two_blocks.best_header
two_blocks-IsIndex =
    (add_block_index-IsIndex proof_of accepting false next_header one_block two_blocks (some 2)
      one_block-IsIndex (omega arith) next_run).0

pub only_owned : (k : TransactionOutPoint) (c : Coin) → view.db k ≡ some c → owned ≡ c
only_owned k c e = elim (Bool-cases (eq_out place k)) [
  | inl f ↦ let g : some owned ≡ some c = rw f at e in cc
  | inr f ↦ absurd (none-ne-some (rw f at e))
]

pub view-IsSane : IsSane (set_best_block_hash 2 1 view)
unfolding set_best_block_hash
view-IsSane = record {
  valued = λ k c e. rw (← only_owned k c e) refl;
  known = λ k c e. rw (← only_owned k c e) refl;
}

pub payment-Ordered : Ordered next_block.transactions view
unfolding Ordered find
payment-Ordered = (λ i. refl, (refl, tt), tt, tt)

pub payment-AcceptsAll : AcceptsAll next_block.transactions 1 (unspent view)
unfolding AcceptsAll Accepts is_coin_base unspent Spendable InputsFit OutputsFit fits_int64
    input_sum output_sum find ◌+ℤ◌
payment-AcceptsAll = ((refl, (refl, tt), (refl, tt), (owned, refl, tt), refl), tt)

pub two_at : deref two_blocks.blocks 2 ≡ some (entry_with next_header 1 14 (some 1) 10)
unfolding deref get
two_at = refl
