-- ===== src/Coins/Runs.antt =====
-- The theorems on transfer, at a view whose only coin is spent, and on flush.
use xbtc.Base.{
  ℕ, true, ◌>>=◌, ◌≡◌, refl, none, some, false, [], ◌∷◌, if◌then◌else◌, Bool-cases, inl, inr,
  none-ne-some,
}
use xbtc.Data.Transaction.{TransactionOutPoint, Transaction, is_coin_base}
use xbtc.Data.Coin.{Coin}
use xbtc.Base.Int.{◌+ℤ◌}
use xbtc.Coins.Lookup.{eq_out, find, insert}
use xbtc.Coins.{
  CoinView, CoinEntry, transfer, flush, heights_known, spend_inputs, create_outputs, fetch_coin,
  fits_int64, add_int64, add_coin, remove_coin,
}
use xbtc.Coins.Cache.{transfer-IsCached}
use xbtc.Coins.Commit.{flush-transfer}
use xbtc.Coins.Unspent.{IsSane, unspent, keep}
use xbtc.Coins.Flush.{IsMap, IsCached, flush-unspent}
use xbtc.Coins.Transfer.{
  Accepts, IsFresh, applied, transfer-unspent, Spendable, InputsFit, OutputsFit, input_sum,
  output_sum,
}

abbrev place : TransactionOutPoint
place = record { hash = 5; index = 0 }

abbrev owned : Coin
owned = record {
  output = record { value = 90; script_public_key = [] };
  height = 3;
  is_coin_base = false;
}

abbrev view : CoinView
view = record {
  db = λ k. if eq_out place k then some owned else none;
  added = [];
  removed = [];
  best_block_hash = 1;
  best_block_height = 4;
}

abbrev payment : Transaction
payment = record {
  version = 1;
  inputs =
      record { previous_output = place; signature_script = []; witness = []; sequence = 0 } ∷ [];
  outputs =
      record { value = 60; script_public_key = [] }
      ∷ record { value = 30; script_public_key = [] }
      ∷ [];
  lock_time = 0;
  hash = 6;
}

only_owned : (k : TransactionOutPoint) (c : Coin) → view.db k ≡ some c → owned ≡ c
only_owned k c e = elim (Bool-cases (eq_out place k)) [
  | inl f ↦ let g : some owned ≡ some c = rw f at e in cc
  | inr f ↦ absurd (none-ne-some (rw f at e))
]

view-IsSane : IsSane view
view-IsSane = record {
  valued = λ k c e. rw (← only_owned k c e) refl;
  known = λ k c e. rw (← only_owned k c e) refl;
}

view-IsFresh : IsFresh 6 view
unfolding find
view-IsFresh i = refl

payment-Accepts : Accepts (is_coin_base payment) payment (unspent view)
unfolding Accepts is_coin_base unspent Spendable InputsFit OutputsFit fits_int64 input_sum
    output_sum find ◌+ℤ◌
payment-Accepts = (refl, (refl, (refl, tt)), (refl, tt), (owned, refl, tt), refl)

transfer-unspent_example :
    (v' : CoinView) × (transfer payment 4 view ≡ some v')
    × (unspent v' ≡ applied payment 4 (unspent view))
transfer-unspent_example =
    transfer-unspent payment 4 view view-IsSane view-IsFresh (refl, tt) refl payment-Accepts

-- A view that has one coin of its own and has removed the coin of the database.
abbrev change : TransactionOutPoint
change = record { hash = 6; index = 1 }

abbrev fresh_entry : CoinEntry
fresh_entry = record { coin = record owned { height = 4 }; dirty = true }

abbrev cached_view : CoinView
cached_view = record view { added = (change, fresh_entry) ∷ []; removed = (place, tt) ∷ [] }

only_fresh :
    (k : TransactionOutPoint) (e : CoinEntry) → find cached_view.added k ≡ some e → fresh_entry ≡ e
unfolding find
only_fresh k e f = elim (Bool-cases (eq_out change k)) [
  | inl g ↦ let h : some fresh_entry ≡ some e = rw g at f in cc
  | inr g ↦ absurd (none-ne-some (rw g at f))
]

true_ne_false : true ≡ false → ⊥
true_ne_false h = cc

cached_view-IsCached : IsCached cached_view
unfolding IsMap find
cached_view-IsCached = record {
  distinct = (refl, tt);
  clean = λ k e f c. absurd (true_ne_false (rw (← only_fresh k e f) at c));
}

flush-unspent_example :
    (v' : CoinView) × (flush true cached_view ≡ some v')
    × (unspent v' ≡ unspent cached_view)
    × ((x : TransactionOutPoint) → (v'.db x >>= keep) ≡ unspent cached_view x)
    × (v'.added ≡ [])
    × (v'.removed ≡ [])
unfolding heights_known
flush-unspent_example = flush-unspent cached_view cached_view-IsCached refl

-- What payment makes of the view, and that it is in the form that flush asks for.
abbrev paid : Coin → CoinEntry
paid c = record { coin = c; dirty = true }

abbrev output_coin : ℕ → Coin
output_coin n = record {
  output = record { value = n; script_public_key = [] };
  height = 4;
  is_coin_base = false;
}

abbrev paid_view : CoinView
paid_view = record view {
  added =
      (record { hash = 6; index = 1 }, paid (output_coin 30))
      ∷ (record { hash = 6; index = 0 }, paid (output_coin 60))
      ∷ [];
  removed = (place, tt) ∷ [];
}

view-IsCached : IsCached view
unfolding IsMap find
view-IsCached = record { distinct = tt; clean = λ k e f c. absurd (none-ne-some f) }

payment_run : transfer payment 4 view ≡ some paid_view
unfolding transfer spend_inputs create_outputs add_int64 fits_int64 fetch_coin add_coin remove_coin
    insert find ◌+ℤ◌ is_coin_base
payment_run = refl

transfer-IsCached_example : IsCached paid_view × (paid_view.db ≡ view.db)
transfer-IsCached_example =
    transfer-IsCached payment 4 view paid_view view-IsCached (λ i. refl) payment_run

flush-transfer_example :
    (v : CoinView) × (flush true paid_view ≡ some v)
    × ((x : TransactionOutPoint) → (v.db x >>= keep) ≡ applied payment 4 (unspent view) x)
unfolding heights_known
flush-transfer_example =
    flush-transfer payment 4 view paid_view view-IsSane view-IsCached view-IsFresh (λ i. refl)
      (refl, tt) refl payment-Accepts payment_run refl
