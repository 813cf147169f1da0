-- ===== src/Coins/Transfer.antt =====
-- transfer, as a step of the set of unspent coins.
use mathlib.Core.Path.{fun_ext}
use xbtc.Base.{
  ℕ, suc, ◌≡◌, refl, sym, ◌∙◌, ap, subst, Bool, true, false, Option, none, some, List, [], ◌∷◌, All,
  leb, ◌==◌, if◌then◌else◌, Bool-cases, inl, inr,
}
use xbtc.Base.Int.{ℤ, pos, ◌+ℤ◌, ltb_ℤ}
use xbtc.Data.Transaction.{
  TransactionOutPoint, TransactionInput, TransactionOutput, Transaction, is_coin_base,
}
use xbtc.Data.Coin.{Coin}
use xbtc.Coins.Lookup.{find, find-insert}
use xbtc.Coins.{
  CoinView, int64_of, fits_int64, add_int64, remove_coin, spend_inputs, create_outputs, transfer,
}
use xbtc.Coins.Unspent.{
  Unspent, unspent, spend, create, IsSane, remove_coin-unspent, add_coin-unspent,
  fetch_coin-unspent, Fetches,
}

-- The inputs, in turn, spend coins of the set.
unfoldable pub Spendable : List TransactionInput → Unspent → Type 0
Spendable [] u = Unit {0}
Spendable (input ∷ inputs) u =
    (c : Coin) × (u input.previous_output ≡ some c)
    × Spendable inputs (spend input.previous_output u)

unfoldable pub spend_all : List TransactionInput → Unspent → Unspent
spend_all [] u = u
spend_all (input ∷ inputs) u = spend_all inputs (spend input.previous_output u)

value_of : Option Coin → ℤ
value_of none = pos 0
value_of (some c) = int64_of c.output.value

unfoldable pub input_sum : List TransactionInput → Unspent → ℤ → ℤ
unfolding value_of
input_sum [] u acc = acc
input_sum (input ∷ inputs) u acc =
    input_sum inputs (spend input.previous_output u) (acc +ℤ value_of (u input.previous_output))

-- Every sum of the values of the inputs, from the first one on, is one of int64_t.
unfoldable pub InputsFit : List TransactionInput → Unspent → ℤ → Type 0
unfolding value_of
InputsFit [] u acc = Unit {0}
InputsFit (input ∷ inputs) u acc =
    (fits_int64 (acc +ℤ value_of (u input.previous_output)) ≡ true)
    × InputsFit inputs (spend input.previous_output u) (acc +ℤ value_of (u input.previous_output))

-- The same for the outputs.
unfoldable pub OutputsFit : List TransactionOutput → ℤ → Type 0
OutputsFit [] acc = Unit {0}
OutputsFit (output ∷ outputs) acc =
    (fits_int64 (acc +ℤ int64_of output.value) ≡ true)
    × OutputsFit outputs (acc +ℤ int64_of output.value)

add_int64-fits : (a b : ℤ) → fits_int64 (a +ℤ b) ≡ true → add_int64 a b ≡ some (a +ℤ b)
unfolding add_int64
add_int64-fits a b h = rw h refl

unfoldable pub create_all : ℕ → Bool → ℕ → ℕ → List TransactionOutput → Unspent → Unspent
create_all hash coin_base height i [] u = u
create_all hash coin_base height i (output ∷ outputs) u =
    create_all hash coin_base height (suc i) outputs (
      create (record { hash = hash; index = i })
        (record { output = output; height = height; is_coin_base = coin_base }) u)

unfoldable pub output_sum : List TransactionOutput → ℤ → ℤ
output_sum [] acc = acc
output_sum (output ∷ outputs) acc = output_sum outputs (acc +ℤ int64_of output.value)

-- No output of the hash has been removed.
abbrev pub IsFresh : ℕ → CoinView → Type 0
IsFresh hash v = (i : ℕ) → find v.removed (record { hash = hash; index = i }) ≡ none

-- No input spends an output of the hash.
abbrev pub IsApart : ℕ → List TransactionInput → Type 0
IsApart hash inputs = All (λ input. (input.previous_output.hash == hash) ≡ false) inputs

pub IsFresh-remove_coin :
    (hash : ℕ) (k : TransactionOutPoint) (v : CoinView)
    → (k.hash == hash) ≡ false
    → IsFresh hash v
    → IsFresh hash (remove_coin k v)
unfolding remove_coin
IsFresh-remove_coin hash k v e f i =
    rw (find-insert v.removed k (record { hash = hash; index = i }) tt, e) (f i)

pub IsSane-same :
    (v v' : CoinView)
    → v'.db ≡ v.db
    → v'.best_block_height ≡ v.best_block_height
    → IsSane v
    → IsSane v'
IsSane-same v v' d b w = record {
  valued = λ k c e. w.valued k c (ap (λ f. f k) (sym d) ∙ e);
  known = λ k c e. rw b (w.known k c (ap (λ f. f k) (sym d) ∙ e));
}

spend_inputs-unspent :
    (hash : ℕ) (inputs : List TransactionInput) (acc : ℤ) (v : CoinView)
    → IsSane v
    → IsFresh hash v
    → IsApart hash inputs
    → Spendable inputs (unspent v)
    → InputsFit inputs (unspent v) acc
    → (v' : CoinView) × (spend_inputs inputs acc v ≡ some (input_sum inputs (unspent v) acc, v'))
      × (unspent v' ≡ spend_all inputs (unspent v))
      × IsFresh hash v'
      × (v'.best_block_height ≡ v.best_block_height)
unfolding spend_inputs input_sum spend_all Spendable InputsFit Fetches value_of
spend_inputs-unspent hash [] acc v w f a s fit = (v, refl, refl, f, refl)
spend_inputs-unspent hash (input ∷ inputs) acc v w f (a, as') (c, e, s) (fit, fits) =
    let k = input.previous_output in
    let (p, (v1, r, same, removed, db, best)) = fetch_coin-unspent k v c w e in
    let v2 = remove_coin k v1 in
    let after : unspent v2 ≡ spend k (unspent v) =
      fun_ext (λ x. remove_coin-unspent k v1 x) ∙ ap (spend k) same in
    let sane : IsSane v2 = unfold remove_coin in IsSane-same v v2 db best w in
    let fresh : IsFresh hash v2 =
      IsFresh-remove_coin hash k v1 a
        (λ i. ap (λ t. find t (record { hash = hash; index = i })) removed ∙ f i) in
    let (v3, r3, u3, f3, b3) =
      spend_inputs-unspent hash inputs (acc +ℤ int64_of c.output.value) v2 sane fresh as'
        (subst (Spendable inputs) (sym after) s)
        (subst (λ u. InputsFit inputs u (acc +ℤ int64_of c.output.value)) (sym after)
          (subst (λ o. InputsFit inputs (spend k (unspent v)) (acc +ℤ value_of o)) e fits)) in
    let added : add_int64 acc (int64_of c.output.value) ≡ some (acc +ℤ int64_of c.output.value) =
      add_int64-fits acc (int64_of c.output.value)
        (subst (λ o. fits_int64 (acc +ℤ value_of o) ≡ true) e fit) in
    let sum : input_sum (input ∷ inputs) (unspent v) acc
        ≡ input_sum inputs (spend k (unspent v)) (acc +ℤ int64_of c.output.value) =
      ap (λ o. input_sum inputs (spend k (unspent v)) (acc +ℤ value_of o)) e in
    let run : spend_inputs (input ∷ inputs) acc v
        ≡ spend_inputs inputs (acc +ℤ int64_of c.output.value) v2 =
      rw (r, p, added, spend_inputs) refl in
    (
      v3,
      run
          ∙ r3
          ∙ ap (λ u. some (input_sum inputs u (acc +ℤ int64_of c.output.value), v3)) after
          ∙ ap (λ n. some (n, v3)) (sym sum),
      u3 ∙ ap (spend_all inputs) after,
      f3,
      b3 ∙ (unfold remove_coin in best),
    )

create_outputs-unspent :
    (hash : ℕ) (coin_base : Bool) (height i : ℕ) (outputs : List TransactionOutput) (acc : ℤ)
    (v : CoinView)
    → IsFresh hash v
    → leb height v.best_block_height ≡ true
    → OutputsFit outputs acc
    → (v' : CoinView) × (create_outputs hash coin_base height i outputs acc v
        ≡ some (output_sum outputs acc, v'))
      × (unspent v' ≡ create_all hash coin_base height i outputs (unspent v))
unfolding create_outputs output_sum create_all OutputsFit
create_outputs-unspent hash coin_base height i [] acc v f h fit = (v, refl, refl)
create_outputs-unspent hash coin_base height i (output ∷ outputs) acc v f h (fit, fits) =
    let k : TransactionOutPoint = record { hash = hash; index = i } in
    let coin : Coin = record { output = output; height = height; is_coin_base = coin_base } in
    let (v1, r, u, fresh, best) = add_coin-unspent k coin v (f i) h in
    let (v2, r2, u2) =
      create_outputs-unspent hash coin_base height (suc i) outputs (acc +ℤ int64_of output.value) v1
        (λ j. ap (λ t. find t (record { hash = hash; index = j })) fresh ∙ f j)
        (ap (λ b. leb height b) best ∙ h) fits in
    (
      v2,
      rw (add_int64-fits acc (int64_of output.value) fit, r, create_outputs) r2,
      u2 ∙ ap (create_all hash coin_base height (suc i) outputs) u,
    )

-- The transaction has a hash, which is not null, and its sums stay in int64_t. A coinbase needs no
-- inputs; any other transaction spends unspent coins, and no more than they hold.
unfoldable pub Accepts : Bool → Transaction → Unspent → Type 0
Accepts true tx u = ((tx.hash == 0) ≡ false) × OutputsFit tx.outputs (pos 0)
Accepts false tx u =
    ((tx.hash == 0) ≡ false)
    × OutputsFit tx.outputs (pos 0)
    × InputsFit tx.inputs u (pos 0)
    × Spendable tx.inputs u
    × (ltb_ℤ (input_sum tx.inputs u (pos 0)) (output_sum tx.outputs (pos 0)) ≡ false)

-- The set after a transaction: its inputs gone, and its outputs of a positive value there.
unfoldable pub applied : Transaction → ℕ → Unspent → Unspent
applied tx height u =
    create_all tx.hash (is_coin_base tx) height 0 tx.outputs
      (if is_coin_base tx then u else spend_all tx.inputs u)

-- On a view whose database holds coins with a value, from blocks up to the best one, transfer
-- succeeds and does to the set of unspent coins what the transaction says, whatever the view has
-- cached: for a transaction whose hash is not null and whose sums stay in int64_t, that spends
-- unspent coins and no more than they hold, unless it is a coinbase, at a height up to the best
-- block's, when no output of its hash has been spent in the view and it spends none itself.
pub transfer-unspent :
    (tx : Transaction) (height : ℕ) (v : CoinView)
    → IsSane v
    → IsFresh tx.hash v
    → IsApart tx.hash tx.inputs
    → leb height v.best_block_height ≡ true
    → Accepts (is_coin_base tx) tx (unspent v)
    → (v' : CoinView) × (transfer tx height v ≡ some v')
      × (unspent v' ≡ applied tx height (unspent v))
unfolding transfer Accepts applied
transfer-unspent tx height v w f a h ok = elim (Bool-cases (is_coin_base tx)) [
  | inl base ↦
      let (named, out_fit) = rw base at ok in
      let (v1, r, u) =
        create_outputs-unspent tx.hash true height 0 tx.outputs (pos 0) v f h out_fit in
      (v1, rw (named, base, r, transfer) refl, rw (base, applied) u)
  | inr spends ↦
      let (named, out_fit, in_fit, s, sums) = rw spends at ok in
      let (v1, r1, u1, f1, b1) = spend_inputs-unspent tx.hash tx.inputs (pos 0) v w f a s in_fit in
      let (v2, r2, u2) =
        create_outputs-unspent tx.hash false height 0 tx.outputs (pos 0) v1 f1
          (ap (λ b. leb height b) b1 ∙ h) out_fit in
      (
        v2,
        rw (named, spends, r1, r2, sums, transfer) refl,
        rw (spends, applied) (u2 ∙ ap (create_all tx.hash false height 0 tx.outputs) u1),
      )
]
