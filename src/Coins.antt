-- ===== src/Coins.antt =====
-- CoinViewImpl of src/storage/CoinView.cpp: the unspent coins, over the database of CoinDB. The maps and
-- the set are lists; the database is what readCoin finds in it. `none` is a failed assertion.
pub mod Lookup
pub mod Unspent
pub mod Transfer
pub mod Flush
pub mod Passed
pub mod Cache
pub mod Commit
pub mod Keeps
mod Runs
use xbtc.Base.{
  ℕ, zero, suc, ◌+◌, ◌^◌, Bool, true, false, not, ◌&&◌, ◌||◌, Option, none, some, ◌>>=◌, List, [],
  ◌∷◌, ltb, leb, ◌==◌, if◌then◌else◌,
}
use xbtc.Base.Int.{ℤ, pos, pos_part, neg_part, sub_ℕ, ◌+ℤ◌, ltb_ℤ}
use xbtc.Data.Transaction.{
  TransactionOutPoint, TransactionInput, TransactionOutput, Transaction, is_coin_base,
}
use xbtc.Data.Coin.{Coin, null_coin}
use xbtc.Coins.Lookup.{Table, find, insert, erase, eq_out}

pub record CoinEntry : Type 0 where
  pub coin : Coin
  pub dirty : Bool

pub record CoinView : Type 0 where
  pub db : TransactionOutPoint → Option Coin
  pub added : Table CoinEntry
  pub removed : Table (Unit {0})
  pub best_block_hash : ℕ
  pub best_block_height : ℕ

-- A value above 0, from the bits of an int64_t.
abbrev pub positive : Coin → Bool
positive coin = ltb 0 coin.output.value && ltb coin.output.value (2 ^ 63)

abbrev pub int64_of : ℕ → ℤ
int64_of v = if ltb v (2 ^ 63) then pos v else sub_ℕ v (2 ^ 64)

abbrev pub is_some : {A : Type 0} → Option A → Bool
is_some none = false
is_some (some a) = true

-- m_coinsData.addedCoins[out] = entry.
abbrev pub cache : TransactionOutPoint → CoinEntry → CoinView → CoinView
cache out entry v = record v { added = insert out entry v.added }

-- fetchCoin: the coin, or nullptr for one that has been removed. A coin that the database has not is
-- put into the cache as a null coin.
unfoldable pub fetch_coin : TransactionOutPoint → CoinView → Option (Option Coin × CoinView)
fetch_coin out v =
    if is_some (find v.removed out) then some (none, v) else elim (find v.added out) [
      | some entry ↦ some (some entry.coin, v)
      | none ↦ elim (v.db out) [
        | none ↦ some (some null_coin, cache out (record { coin = null_coin; dirty = false }) v)
        | some coin ↦
            if positive coin && (leb coin.height v.best_block_height || (v.best_block_height == 0))
            then some (some coin, cache out (record { coin = coin; dirty = false }) v)
            else none
      ]
    ]

unfoldable pub has_coin : TransactionOutPoint → CoinView → Option (Bool × CoinView)
unfolding fetch_coin
has_coin out v =
    fetch_coin out v >>= λ (coin, v'). some (elim coin [ none ↦ false | some c ↦ positive c ], v')

unfoldable pub add_coin : TransactionOutPoint → Coin → CoinView → Option CoinView
add_coin out coin v =
    if leb coin.height v.best_block_height
    then some (cache out (record { coin = coin; dirty = true }) v)
    else none

unfoldable pub remove_coin : TransactionOutPoint → CoinView → CoinView
remove_coin out v = record v { added = erase out v.added; removed = insert out tt v.removed }

-- A value that an int64_t can hold.
unfoldable pub fits_int64 : ℤ → Bool
fits_int64 a = leb (neg_part a) (2 ^ 63) && ltb (pos_part a) (2 ^ 63)

-- The sum of two values of int64_t, undefined where it leaves the type.
unfoldable pub add_int64 : ℤ → ℤ → Option ℤ
unfolding ◌+ℤ◌ fits_int64
add_int64 a b = if fits_int64 (a +ℤ b) then some (a +ℤ b) else none

-- The loop over the inputs, with the sum of their values.
unfoldable pub spend_inputs : List TransactionInput → ℤ → CoinView → Option (ℤ × CoinView)
unfolding remove_coin add_int64
spend_inputs [] inputval v = some (inputval, v)
spend_inputs (input ∷ inputs) inputval v = do
  (coin, v') ← fetch_coin input.previous_output v
  coin' ← coin
  inputval' ← if positive coin' then add_int64 inputval (int64_of coin'.output.value) else none
  spend_inputs inputs inputval' (remove_coin input.previous_output v')

-- The loop over the outputs from number `i` on.
unfoldable pub create_outputs :
    ℕ → Bool → ℕ → ℕ → List TransactionOutput → ℤ → CoinView → Option (ℤ × CoinView)
unfolding add_coin add_int64
create_outputs hash coin_base height i [] outputval v = some (outputval, v)
create_outputs hash coin_base height i (output ∷ outputs) outputval v = do
  outputval' ← add_int64 outputval (int64_of output.value)
  v' ←
      add_coin (record { hash = hash; index = i })
        (record { output = output; height = height; is_coin_base = coin_base }) v
  create_outputs hash coin_base height (suc i) outputs outputval' v'

-- transfer. It asks for the hash of the transaction, and getHash asserts that it is not null.
unfoldable pub transfer : Transaction → ℕ → CoinView → Option CoinView
transfer tx height v = if tx.hash == 0 then none else (do
  (inputval, v') ← if is_coin_base tx then some (pos 0, v) else spend_inputs tx.inputs (pos 0) v
  (outputval, v'') ← create_outputs tx.hash (is_coin_base tx) height 0 tx.outputs (pos 0) v'
  if is_coin_base tx || not (ltb_ℤ inputval outputval) then some v'' else none)

-- setBestBlockHash.
unfoldable pub set_best_block_hash : ℕ → ℕ → CoinView → CoinView
set_best_block_hash hash height v = record v { best_block_hash = hash; best_block_height = height }

-- The coins that the batch of CoinDB::writeCoins writes and erases, in its order; the entry of the best
-- block's hash, which is another key of the database, is left out.
abbrev pub Db : Type 0
Db = TransactionOutPoint → Option Coin

abbrev set_db : TransactionOutPoint → Option Coin → Db → Db
set_db k c db x = if eq_out k x then c else db x

unfoldable pub write_added : Table CoinEntry → Db → Db
write_added [] db = db
write_added ((k, e) ∷ t) db =
    write_added t (if positive e.coin && e.dirty then set_db k (some e.coin) db else db)

unfoldable pub write_removed : Table (Unit {0}) → Db → Db
write_removed [] db = db
write_removed ((k, u) ∷ t) db = write_removed t (set_db k none db)

unfoldable pub write_coins : CoinView → Db
unfolding write_added write_removed
write_coins v = write_removed v.removed (write_added v.added v.db)

-- The assertion of flush on the heights of the coins in the cache.
unfoldable pub heights_known : ℕ → Table CoinEntry → Bool
heights_known best [] = true
heights_known best ((k, e) ∷ t) =
    (leb e.coin.height best || (e.coin.height == best + 1)) && heights_known best t

-- flush; `success` is whether the batch is written, and a failure is a failed assertion.
unfoldable pub flush : Bool → CoinView → Option CoinView
flush success v =
    if heights_known v.best_block_height v.added && success
    then some (record v { db = write_coins v; added = []; removed = [] })
    else none
