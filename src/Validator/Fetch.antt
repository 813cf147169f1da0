-- ===== src/Validator/Fetch.antt =====
-- What the view says of the coins while src/storage/Validator.cpp reads it.
use mathlib.Core.Path.{fun_ext}
use xbtc.Base.{
  ◌≡◌, refl, sym, ◌∙◌, ap, subst, Bool, false, ◌&&◌, ◌||◌, Option, none, some, ◌>>=◌, leb, ◌==◌,
  Bool-cases, Option-cases, inl, inr, none-ne-some, some-pair_left, some-pair_right,
}
use xbtc.Data.Transaction.{TransactionOutPoint}
use xbtc.Data.Coin.{Coin, null_coin}
use xbtc.Coins.Lookup.{find, eq_out, eq_out-eq}
use xbtc.Coins.{CoinView, positive, cache, fetch_coin, has_coin}
use xbtc.Coins.Unspent.{unspent, keep, cache-unspent}

-- The view says the same, and the coin that was fetched is what it says of the outpoint.
pub record IsFetched (k : TransactionOutPoint) (v : CoinView) (coin : Option Coin) (v' : CoinView)
    : Type 0 where
  pub same : unspent v' ≡ unspent v
  pub says : unspent v k ≡ (coin >>= keep)

of_pair :
    (k : TransactionOutPoint) (v w v' : CoinView) (d coin : Option Coin)
    → IsFetched k v d w
    → ◌≡◌ {A = Option (Option Coin × CoinView)} (some (d, w)) (some (coin, v'))
    → IsFetched k v coin v'
of_pair k v w v' d coin f e =
    subst (λ c. IsFetched k v c v') (some-pair_left e)
      (subst (IsFetched k v d) (some-pair_right e) f)

-- A coin that is put into the cache and says what the view says.
cached :
    (k : TransactionOutPoint) (v : CoinView) (c : Coin)
    → find v.removed k ≡ none
    → unspent v k ≡ keep c
    → (x : TransactionOutPoint)
    → unspent (cache k (record { coin = c; dirty = false }) v) x ≡ unspent v x
cached k v c r says x =
    cache-unspent k (record { coin = c; dirty = false }) v x r ∙ elim (Bool-cases (eq_out k x)) [
      | inl f ↦ rw f (sym says ∙ ap (unspent v) (eq_out-eq k x f))
      | inr f ↦ rw f refl
    ]

pub fetch_coin-IsFetched :
    (k : TransactionOutPoint) (v : CoinView) (coin : Option Coin) (v' : CoinView)
    → fetch_coin k v ≡ some (coin, v')
    → IsFetched k v coin v'
unfolding fetch_coin
fetch_coin-IsFetched k v coin v' e = elim (Option-cases (find v.removed k)) [
  | inr (u, r) ↦
      of_pair k v v v' none coin (record { same = refl; says = (unfold unspent in rw r refl) })
        (rw (r, fetch_coin) at e)
  | inl r ↦ elim (Option-cases (find v.added k)) [
    | inr (entry, a) ↦
        of_pair k v v v' (some entry.coin) coin
          (record { same = refl; says = (unfold unspent in rw (r, a) refl) })
          (rw (r, a, fetch_coin) at e)
    | inl a ↦ elim (Option-cases (v.db k)) [
      | inl d ↦
          let says : unspent v k ≡ keep null_coin = (unfold unspent in rw (r, a, d) refl) in
          of_pair k v (cache k (record { coin = null_coin; dirty = false }) v) v' (some null_coin)
            coin (record { same = fun_ext (cached k v null_coin r says); says = says })
            (rw (r, a, d, fetch_coin) at e)
      | inr (c, d) ↦
          let says : unspent v k ≡ keep c = (unfold unspent in rw (r, a, d) refl) in
          elim (Bool-cases
            (positive c && (leb c.height v.best_block_height || (v.best_block_height == 0)))) [
              | inr bad ↦ absurd (none-ne-some (rw (r, a, d, bad, fetch_coin) at e))
              | inl good ↦
                  of_pair k v (cache k (record { coin = c; dirty = false }) v) v' (some c) coin
                    (record { same = fun_ext (cached k v c r says); says = says })
                    (rw (r, a, d, good, fetch_coin) at e)
            ]
    ]
  ]
]

-- Without a positive value there is no coin.
keep-none : (c : Coin) → positive c ≡ false → keep c ≡ none
keep-none c e = rw e refl

pub has_coin-unspent :
    (k : TransactionOutPoint) (v v' : CoinView)
    → has_coin k v ≡ some (false, v')
    → (unspent v' ≡ unspent v) × (unspent v k ≡ none)
unfolding has_coin
has_coin-unspent k v v' e = elim (Option-cases (fetch_coin k v)) [
  | inl f ↦ absurd (none-ne-some (rw (f, has_coin) at e))
  | inr ((none, v1), f) ↦
      let w = fetch_coin-IsFetched k v none v1 f in
      let end : v1 ≡ v' = some-pair_right (rw (f, has_coin) at e) in
      (ap unspent (sym end) ∙ w.same, w.says)
  | inr ((some c, v1), f) ↦
      let w = fetch_coin-IsFetched k v (some c) v1 f in
      let e' : ◌≡◌ {A = Option (Bool × CoinView)} (some (positive c, v1)) (some (false, v')) =
        (rw (f, has_coin) at e) in
      (ap unspent (sym (some-pair_right e')) ∙ w.same, w.says ∙ keep-none c (some-pair_left e'))
]
