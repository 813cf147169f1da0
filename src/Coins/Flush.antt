-- ===== src/Coins/Flush.antt =====
-- flush writes the cache to the database, and the view stands for the same coins.
use mathlib.Core.Path.{fun_ext}
use xbtc.Base.{
  ◌≡◌, refl, sym, ◌∙◌, ap, true, false, ◌&&◌, Option, none, some, ◌>>=◌, [], ◌∷◌, if◌then◌else◌,
  Bool-cases, Option-cases, inl, inr,
}
use xbtc.Data.Transaction.{TransactionOutPoint}
use xbtc.Data.Coin.{Coin}
use xbtc.Coins.Lookup.{Table, find, eq_out, eq_out-eq}
use xbtc.Coins.{
  CoinEntry, CoinView, Db, positive, is_some, write_added, write_removed, write_coins,
  heights_known, flush,
}
use xbtc.Coins.Unspent.{unspent, keep}

-- A table as a map: no key is in it twice.
unfoldable pub IsMap : Table CoinEntry → Type 0
IsMap [] = Unit {0}
IsMap ((k, e) ∷ t) = (find t k ≡ none) × IsMap t

-- The cache is a map, and an entry that will not be written says what the database says.
pub record IsCached (v : CoinView) : Type 0 where
  pub distinct : IsMap v.added
  pub clean :
      (k : TransactionOutPoint) (e : CoinEntry)
      → find v.added k ≡ some e
      → (positive e.coin && e.dirty) ≡ false
      → keep e.coin ≡ (v.db k >>= keep)

find-write_removed :
    (t : Table (Unit {0})) (db : Db) (x : TransactionOutPoint)
    → write_removed t db x ≡ (if is_some (find t x) then none else db x)
unfolding write_removed find
find-write_removed [] db x = refl
find-write_removed ((k, u) ∷ t) db x = elim (Bool-cases (eq_out k x)) [
  | inl e ↦ elim (Bool-cases (is_some (find t x))) [
    | inl f ↦ rw (e, find) (find-write_removed t _ x ∙ rw f refl)
    | inr f ↦ rw (e, find) (find-write_removed t _ x ∙ rw (f, e) refl)
  ]
  | inr e ↦ rw (e, find) (find-write_removed t _ x ∙ rw e refl)
]

-- What the batch leaves for an outpoint that is not removed.
abbrev entry_of : Option CoinEntry → Option Coin → Option Coin
entry_of none old = old
entry_of (some e) old = if positive e.coin && e.dirty then some e.coin else old

find-write_added :
    (t : Table CoinEntry) (db : Db) (x : TransactionOutPoint)
    → IsMap t
    → write_added t db x ≡ entry_of (find t x) (db x)
unfolding write_added find IsMap
find-write_added [] db x w = refl
find-write_added ((k, e) ∷ t) db x (new, w) = elim (Bool-cases (eq_out k x)) [
  | inl f ↦ elim (Bool-cases (positive e.coin && e.dirty)) [
    | inl g ↦
        rw (f, g, write_added, find)
          (find-write_added t _ x w ∙ rw ((rw (eq_out-eq k x f) at new), f) refl)
    | inr g ↦
        rw (f, g, write_added, find)
          (find-write_added t _ x w ∙ rw (rw (eq_out-eq k x f) at new) refl)
  ]
  | inr f ↦ elim (Bool-cases (positive e.coin && e.dirty)) [
    | inl g ↦ rw (f, g, write_added, find) (find-write_added t _ x w ∙ rw f refl)
    | inr g ↦ rw (f, g, write_added, find) (find-write_added t _ x w)
  ]
]

flushed : CoinView → CoinView
flushed v = record v { db = write_coins v; added = []; removed = [] }

-- The entry that stands in the cache is what the database says afterwards.
keep-entry_of :
    (v : CoinView) (x : TransactionOutPoint)
    → IsCached v
    → (entry_of (find v.added x) (v.db x) >>= keep)
      ≡ elim (find v.added x) [ some e ↦ keep e.coin | none ↦ v.db x >>= keep ]
keep-entry_of v x w = elim (Option-cases (find v.added x)) [
  | inl e ↦ rw e refl
  | inr (entry, e) ↦ elim (Bool-cases (positive entry.coin && entry.dirty)) [
    | inl f ↦ rw (e, f) refl
    | inr f ↦ rw (e, f) (sym (w.clean x entry e f))
  ]
]

flushed-unspent : (v : CoinView) → IsCached v → unspent (flushed v) ≡ unspent v
unfolding flushed unspent write_coins find
flushed-unspent v w = fun_ext λ x. elim (Bool-cases (is_some (find v.removed x))) [
  | inl f ↦ rw (find-write_removed v.removed (write_added v.added v.db) x, f) refl
  | inr f ↦
      rw
        (
          find-write_removed v.removed (write_added v.added v.db) x,
          f,
          find-write_added v.added v.db x w.distinct,
        )
        (keep-entry_of v x w)
]

-- For a view whose cached entries have different outpoints and heights up to one above the best
-- block's, and in which an entry that is not to be written says what the database says, flush with
-- a batch that is written succeeds, empties the cache, leaves the set of unspent coins as it was,
-- and makes the database alone say the same.
pub flush-unspent :
    (v : CoinView)
    → IsCached v
    → heights_known v.best_block_height v.added ≡ true
    → (v' : CoinView) × (flush true v ≡ some v')
      × (unspent v' ≡ unspent v)
      × ((x : TransactionOutPoint) → (v'.db x >>= keep) ≡ unspent v x)
      × (v'.added ≡ [])
      × (v'.removed ≡ [])
unfolding flush flushed
flush-unspent v w h =
    let same = flushed-unspent v w in
    (flushed v, rw h refl, same, (λ x. unfold unspent find in ap (λ u. u x) same), refl, refl)
