-- ===== src/Coins/Keeps.antt =====
-- What transfer leaves alone: the database, the height of the best block, and what has not been spent.
use xbtc.Base.{
  ℕ, suc, sym, ◌≡◌, refl, ◌∙◌, subst, Bool, true, false, ◌&&◌, ◌||◌, Option, none, some, List, [],
  ◌∷◌, leb, ◌==◌, Bool-cases, Option-cases, inl, inr, none-ne-some, some-pair_right,
}
use xbtc.Base.Int.{ℤ, pos}
use xbtc.Data.Transaction.{
  TransactionOutPoint, TransactionInput, TransactionOutput, Transaction, is_coin_base,
}
use xbtc.Data.Coin.{Coin, null_coin}
use xbtc.Coins.Lookup.{find}
use xbtc.Coins.{
  CoinEntry, CoinView, positive, is_some, cache, int64_of, add_int64, fetch_coin, add_coin,
  remove_coin, spend_inputs, create_outputs, transfer,
}
use xbtc.Coins.Passed.{Spent, transfer-Passed}
use xbtc.Coins.Transfer.{IsFresh, IsApart, IsFresh-remove_coin}

-- No outpoint of an unspent hash has been removed.
pub record Keeps (inputs : List TransactionInput) (v v' : CoinView) : Type 0 where
  pub db : v'.db ≡ v.db
  pub height : v'.best_block_height ≡ v.best_block_height
  pub fresh : (hash : ℕ) → IsApart hash inputs → IsFresh hash v → IsFresh hash v'

Keeps-refl : (inputs : List TransactionInput) (v : CoinView) → Keeps inputs v v
Keeps-refl inputs v = record { db = refl; height = refl; fresh = λ hash a f. f }

Keeps-cache :
    (k : TransactionOutPoint) (entry : CoinEntry) (v : CoinView) → Keeps [] v (cache k entry v)
Keeps-cache k entry v = record { db = refl; height = refl; fresh = λ hash a f. f }

Keeps-trans :
    (inputs : List TransactionInput) (u v w : CoinView)
    → Keeps [] u v
    → Keeps inputs v w
    → Keeps inputs u w
Keeps-trans inputs u v w p q = record {
  db = q.db ∙ p.db;
  height = q.height ∙ p.height;
  fresh = λ hash a f. q.fresh hash a (p.fresh hash tt f);
}

of_result :
    {A : Type 0} (inputs : List TransactionInput) (u v v' : CoinView) (a c : A)
    → Keeps inputs u v
    → ◌≡◌ {A = Option (A × CoinView)} (some (a, v)) (some (c, v'))
    → Keeps inputs u v'
of_result inputs u v v' a c k e = subst (Keeps inputs u) (some-pair_right e) k

Keeps-fetch_coin :
    (k : TransactionOutPoint) (v : CoinView) (c : Option Coin) (v' : CoinView)
    → fetch_coin k v ≡ some (c, v')
    → Keeps [] v v'
unfolding fetch_coin
Keeps-fetch_coin k v c v' r = elim (Bool-cases (is_some (find v.removed k))) [
  | inl gone ↦ of_result [] v v v' none c (Keeps-refl [] v) (rw (gone, fetch_coin) at r)
  | inr here ↦ elim (Option-cases (find v.added k)) [
    | inr (entry, a) ↦
        of_result [] v v v' (some entry.coin) c (Keeps-refl [] v) (rw (here, a, fetch_coin) at r)
    | inl a ↦ elim (Option-cases (v.db k)) [
      | inl d ↦
          let entry : CoinEntry = record { coin = null_coin; dirty = false } in
          of_result [] v (cache k entry v) v' (some null_coin) c (Keeps-cache k entry v)
            (rw (here, a, d, fetch_coin) at r)
      | inr (coin, d) ↦
          let entry : CoinEntry = record { coin = coin; dirty = false } in
          elim (Bool-cases (
            positive coin && (leb coin.height v.best_block_height || (v.best_block_height == 0)))) [
              | inr bad ↦ absurd (none-ne-some (rw (here, a, d, bad, fetch_coin) at r))
              | inl good ↦
                  of_result [] v (cache k entry v) v' (some coin) c (Keeps-cache k entry v)
                    (rw (here, a, d, good, fetch_coin) at r)
            ]
    ]
  ]
]

Keeps-spend :
    (input : TransactionInput) (inputs : List TransactionInput) (v v' : CoinView)
    → Keeps inputs (remove_coin input.previous_output v) v'
    → Keeps (input ∷ inputs) v v'
Keeps-spend input inputs v v' k = record {
  db = k.db ∙ (unfold remove_coin in refl);
  height = k.height ∙ (unfold remove_coin in refl);
  fresh = λ hash a f. k.fresh hash a.1 (IsFresh-remove_coin hash input.previous_output v a.0 f);
}

Keeps-spend_inputs :
    (inputs : List TransactionInput) (acc n : ℤ) (v v' : CoinView)
    → spend_inputs inputs acc v ≡ some (n, v')
    → Keeps inputs v v'
unfolding spend_inputs
Keeps-spend_inputs [] acc n v v' r = of_result [] v v v' acc n (Keeps-refl [] v) r
Keeps-spend_inputs (input ∷ inputs) acc n v v' r =
    let k = input.previous_output in
    elim (Option-cases (fetch_coin k v)) [
      | inl f ↦ absurd (none-ne-some (rw (f, spend_inputs) at r))
      | inr ((none, v1), f) ↦ absurd (none-ne-some (rw (f, spend_inputs) at r))
      | inr ((some c, v1), f) ↦ elim (Bool-cases (positive c)) [
        | inr p ↦ absurd (none-ne-some (rw (f, p, spend_inputs) at r))
        | inl p ↦ elim (Option-cases (add_int64 acc (int64_of c.output.value))) [
          | inl g ↦ absurd (none-ne-some (rw (f, p, g, spend_inputs) at r))
          | inr (sum, g) ↦
              Keeps-trans (input ∷ inputs) v v1 v' (Keeps-fetch_coin k v (some c) v1 f) (
                Keeps-spend input inputs v1 v' (
                  Keeps-spend_inputs inputs sum n (remove_coin k v1) v'
                    (rw (f, p, g, spend_inputs) at r)))
        ]
      ]
    ]

Keeps-create_outputs :
    (hash : ℕ) (coin_base : Bool) (height i : ℕ) (outputs : List TransactionOutput) (acc n : ℤ)
    (v v' : CoinView)
    → create_outputs hash coin_base height i outputs acc v ≡ some (n, v')
    → Keeps [] v v'
unfolding create_outputs add_coin
Keeps-create_outputs hash coin_base height i [] acc n v v' r =
    of_result [] v v v' acc n (Keeps-refl [] v) r
Keeps-create_outputs hash coin_base height i (output ∷ outputs) acc n v v' r =
    let k : TransactionOutPoint = record { hash = hash; index = i } in
    let coin : Coin = record { output = output; height = height; is_coin_base = coin_base } in
    elim (Option-cases (add_int64 acc (int64_of output.value))) [
      | inl g ↦ absurd (none-ne-some (rw (g, create_outputs) at r))
      | inr (sum, g) ↦ elim (Bool-cases (leb height v.best_block_height)) [
        | inr h ↦ absurd (none-ne-some (rw (g, h, create_outputs, add_coin) at r))
        | inl h ↦
            Keeps-trans [] v (cache k (record { coin = coin; dirty = true }) v) v'
              (Keeps-cache k _ v)
              (Keeps-create_outputs hash coin_base height (suc i) outputs sum n
                (cache k (record { coin = coin; dirty = true }) v) v'
                (rw (g, h, create_outputs, add_coin) at r))
      ]
    ]

Keeps-Spent : (tx : Transaction) (v v1 : CoinView) → Spent tx v v1 → Keeps tx.inputs v v1
Keeps-Spent tx v v1 (inl same) = subst (Keeps tx.inputs v) (sym same) (Keeps-refl tx.inputs v)
Keeps-Spent tx v v1 (inr (m, run)) = Keeps-spend_inputs tx.inputs (pos 0) m v v1 run

pub Keeps-transfer :
    (tx : Transaction) (height : ℕ) (v v' : CoinView)
    → transfer tx height v ≡ some v'
    → Keeps tx.inputs v v'
Keeps-transfer tx height v v' r =
    let (v1, n, spent, made) = transfer-Passed tx height v v' r in
    let p = Keeps-Spent tx v v1 spent in
    let q =
      Keeps-create_outputs tx.hash (is_coin_base tx) height 0 tx.outputs (pos 0) n v1 v' made in
    record {
      db = q.db ∙ p.db;
      height = q.height ∙ p.height;
      fresh = λ hash a f. q.fresh hash tt (p.fresh hash a f);
    }
