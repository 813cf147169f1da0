-- ===== src/Coins/Unspent.antt =====
-- The unspent coins that a view stands for, whatever it has cached: what fetchCoin, removeCoin, addCoin and
-- transfer do to them.
use mathlib.Core.Path.{fun_ext}
use xbtc.Base.{
  ◌≡◌, refl, sym, ◌∙◌, ap, subst, true, false, ◌||◌, Option, none, some, ◌>>=◌, leb, ◌==◌,
  if◌then◌else◌, Bool-cases, Option-cases, inl, inr, none-ne-some,
}
use xbtc.Data.Transaction.{TransactionOutPoint}
use xbtc.Data.Coin.{Coin}
use xbtc.Coins.Lookup.{find, eq_out, find-erase, find-insert, eq_out-eq}
use xbtc.Coins.{CoinEntry, CoinView, positive, is_some, cache, fetch_coin, add_coin, remove_coin}

abbrev pub Unspent : Type 0
Unspent = TransactionOutPoint → Option Coin

abbrev pub keep : Coin → Option Coin
keep c = if positive c then some c else none

unfoldable pub unspent : CoinView → Unspent
unspent v k =
    if is_some (find v.removed k)
    then none
    else elim (find v.added k) [ some e ↦ keep e.coin | none ↦ v.db k >>= keep ]

abbrev pub spend : TransactionOutPoint → Unspent → Unspent
spend k u x = if eq_out k x then none else u x

abbrev pub create : TransactionOutPoint → Coin → Unspent → Unspent
create k c u x = if eq_out k x then keep c else u x

-- The database holds coins with a value, from blocks up to the best one.
pub record IsSane (v : CoinView) : Type 0 where
  pub valued : (k : TransactionOutPoint) (c : Coin) → v.db k ≡ some c → positive c ≡ true
  pub known :
      (k : TransactionOutPoint) (c : Coin)
      → v.db k ≡ some c
      → (leb c.height v.best_block_height || (v.best_block_height == 0)) ≡ true

pub remove_coin-unspent :
    (k : TransactionOutPoint) (v : CoinView) (x : TransactionOutPoint)
    → unspent (remove_coin k v) x ≡ spend k (unspent v) x
unfolding unspent remove_coin
remove_coin-unspent k v x = elim (Bool-cases (eq_out k x)) [
  | inl e ↦ rw (e, find-insert v.removed k x tt, e, unspent) refl
  | inr e ↦ rw (find-insert v.removed k x tt, e, find-erase v.added k x, e) refl
]

-- An entry of the cache that says what the view says.
pub cache-unspent :
    (k : TransactionOutPoint) (entry : CoinEntry) (v : CoinView) (x : TransactionOutPoint)
    → find v.removed k ≡ none
    → unspent (cache k entry v) x ≡ create k entry.coin (unspent v) x
unfolding unspent
cache-unspent k entry v x e = elim (Bool-cases (eq_out k x)) [
  | inl f ↦
      let same : k ≡ x = eq_out-eq k x f in rw (find-insert v.added k x entry, f, ← same, e) refl
  | inr f ↦ rw (find-insert v.added k x entry, f) refl
]

pub add_coin-unspent :
    (k : TransactionOutPoint) (c : Coin) (v : CoinView)
    → find v.removed k ≡ none
    → leb c.height v.best_block_height ≡ true
    → (v' : CoinView) × (add_coin k c v ≡ some v')
      × (unspent v' ≡ create k c (unspent v))
      × (v'.removed ≡ v.removed)
      × (v'.best_block_height ≡ v.best_block_height)
unfolding add_coin
add_coin-unspent k c v e h =
    let entry : CoinEntry = record { coin = c; dirty = true } in
    (cache k entry v, rw h refl, fun_ext (λ x. cache-unspent k entry v x e), refl, refl)

keep-some : (d c : Coin) → keep d ≡ some c → (d ≡ c) × (positive d ≡ true)
keep-some d c e = elim (Bool-cases (positive d)) [
  | inl f ↦ let same : some d ≡ some c = rw f at e in (cc, f)
  | inr f ↦ absurd (none-ne-some (rw f at e))
]

-- The view that fetchCoin leaves says what it said.
unfoldable pub Fetches : TransactionOutPoint → CoinView → Coin → Type 0
Fetches k v c =
    (v' : CoinView) × (fetch_coin k v ≡ some (some c, v'))
    × (unspent v' ≡ unspent v)
    × (v'.removed ≡ v.removed)
    × (v'.db ≡ v.db)
    × (v'.best_block_height ≡ v.best_block_height)

fetched :
    (k : TransactionOutPoint) (v : CoinView) (c : Coin)
    → find v.removed k ≡ none
    → find v.added k ≡ none
    → v.db k ≡ some c
    → positive c ≡ true
    → (leb c.height v.best_block_height || (v.best_block_height == 0)) ≡ true
    → Fetches k v c
unfolding Fetches fetch_coin unspent
fetched k v c r a d p h =
    let entry : CoinEntry = record { coin = c; dirty = false } in
    (
      cache k entry v,
      rw (r, a, d, p, h, fetch_coin) refl,
      fun_ext (λ x. cache-unspent k entry v x r ∙ already x),
      refl,
      refl,
      refl,
    )
  where
    already : (x : TransactionOutPoint) → create k c (unspent v) x ≡ unspent v x
    already x = elim (Bool-cases (eq_out k x)) [
      | inr f ↦ rw f refl
      | inl f ↦
          let same : k ≡ x = eq_out-eq k x f in
          rw (f, (rw same at r), (rw same at a), (ap v.db (sym same) ∙ d), unspent) refl
    ]

-- fetchCoin gives what the view says, and changes nothing that it says.
pub fetch_coin-unspent :
    (k : TransactionOutPoint) (v : CoinView) (c : Coin)
    → IsSane v
    → unspent v k ≡ some c
    → (positive c ≡ true) × Fetches k v c
unfolding unspent
fetch_coin-unspent k v c w e = elim (Option-cases (find v.removed k)) [
  | inr (u, r) ↦ absurd (none-ne-some (rw (r, unspent) at e))
  | inl r ↦ elim (Option-cases (find v.added k)) [
    | inr (entry, a) ↦
        let (same, p) = keep-some entry.coin c (rw (r, a, unspent) at e) in
        (
          subst (λ d. positive d ≡ true) same p,
          unfold Fetches fetch_coin in
              (v, rw (r, a, fetch_coin) (ap (λ d. some (some d, v)) same), refl, refl, refl, refl),
        )
    | inl a ↦ elim (Option-cases (v.db k)) [
      | inl d ↦ absurd (none-ne-some (rw (r, a, d, unspent) at e))
      | inr (coin, d) ↦
          let (same, p) = keep-some coin c (rw (r, a, d, unspent) at e) in
          (
            subst (λ z. positive z ≡ true) same p,
            subst (Fetches k v) same (fetched k v coin r a d p (w.known k coin d)),
          )
    ]
  ]
]
