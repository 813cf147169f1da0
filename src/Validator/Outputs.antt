-- ===== src/Validator/Outputs.antt =====
-- checkDuplicateTransaction of src/storage/Validator.cpp: the outputs of a block are new.
use xbtc.Base.{
  ℕ, suc, ◌≡◌, sym, ◌∙◌, ap, subst, inl, inr, Bool, true, false, Option, none, some, List, [], ◌∷◌,
  Bool-cases, Option-cases, none-ne-some, ◌==◌, some-pair_left, some-pair_right,
}
use xbtc.Data.Transaction.{TransactionOutput, Transaction}
use xbtc.Data.Block.{Block, BlockIndexData}
use xbtc.Coins.{CoinView, has_coin}
use xbtc.Coins.Unspent.{Unspent, unspent}
use xbtc.Validator.{
  forbid_duplicate_transaction, check_outputs, check_all_outputs, check_duplicate_transaction,
}
use xbtc.Validator.Fetch.{has_coin-unspent}

-- No output of a transaction is among the unspent coins, from number `i` on.
unfoldable pub AllNew : Unspent → ℕ → ℕ → List TransactionOutput → Type 0
AllNew u hash i [] = Unit {0}
AllNew u hash i (output ∷ outputs) =
    (u (record { hash = hash; index = i }) ≡ none) × AllNew u hash (suc i) outputs

unfoldable pub AllNewOf : Unspent → List Transaction → Type 0
AllNewOf u [] = Unit {0}
AllNewOf u (tx ∷ txs) = AllNew u tx.hash 0 tx.outputs × AllNewOf u txs

check_outputs-AllNew :
    (hash i : ℕ) (outputs : List TransactionOutput) (v v' : CoinView)
    → check_outputs hash i outputs v ≡ some v'
    → (unspent v' ≡ unspent v) × AllNew (unspent v) hash i outputs
unfolding check_outputs AllNew
check_outputs-AllNew hash i [] v v' e = let end : v ≡ v' = cc in (ap unspent (sym end), tt)
check_outputs-AllNew hash i (output ∷ outputs) v v' e = elim (Bool-cases (hash == 0)) [
  | inl null ↦ absurd (none-ne-some (rw (null, check_outputs) at e))
  | inr named ↦ elim (Option-cases (has_coin (record { hash = hash; index = i }) v)) [
    | inl f ↦ absurd (none-ne-some (rw (named, f, check_outputs) at e))
    | inr ((true, v1), f) ↦ absurd (none-ne-some (rw (named, f, check_outputs) at e))
    | inr ((false, v1), f) ↦
        let (same, new) = has_coin-unspent (record { hash = hash; index = i }) v v1 f in
        let (same', rest) =
          check_outputs-AllNew hash (suc i) outputs v1 v' (rw (named, f, check_outputs) at e) in
        (same' ∙ same, (new, subst (λ u. AllNew u hash (suc i) outputs) same rest))
  ]
]

check_all_outputs-AllNewOf :
    (txs : List Transaction) (v v' : CoinView)
    → check_all_outputs txs v ≡ some v'
    → (unspent v' ≡ unspent v) × AllNewOf (unspent v) txs
unfolding check_all_outputs AllNewOf
check_all_outputs-AllNewOf [] v v' e = let end : v ≡ v' = cc in (ap unspent (sym end), tt)
check_all_outputs-AllNewOf (tx ∷ txs) v v' e =
    elim (Option-cases (check_outputs tx.hash 0 tx.outputs v)) [
      | inl f ↦ absurd (none-ne-some (rw (f, check_all_outputs) at e))
      | inr (v1, f) ↦
          let (same, new) = check_outputs-AllNew tx.hash 0 tx.outputs v v1 f in
          let (same', rest) =
            check_all_outputs-AllNewOf txs v1 v' (rw (f, check_all_outputs) at e) in
          (same' ∙ same, (new, subst (λ u. AllNewOf u txs) same rest))
    ]

pub check_duplicate_transaction-AllNewOf :
    (block : Block) (index : BlockIndexData) (v v' : CoinView) (ok : Bool)
    → check_duplicate_transaction block index v ≡ some (ok, v')
    → (ok ≡ true)
      × (unspent v' ≡ unspent v)
      × (forbid_duplicate_transaction index.height index.header.hash ≡ true
          → AllNewOf (unspent v) block.transactions)
unfolding check_duplicate_transaction
check_duplicate_transaction-AllNewOf block index v v' ok e =
    let forbidden = forbid_duplicate_transaction index.height index.header.hash in
    elim (Bool-cases forbidden) [
      | inr allowed ↦
          let e' : ◌≡◌ {A = Option (Bool × CoinView)} (some (true, v)) (some (ok, v')) =
            (rw (allowed, check_duplicate_transaction) at e) in
          (
            sym (some-pair_left e'),
            ap unspent (sym (some-pair_right e')),
            λ f. let z : true ≡ false = sym f ∙ allowed in cc,
          )
      | inl f ↦ elim (Option-cases (check_all_outputs block.transactions v)) [
        | inl g ↦ absurd (none-ne-some (rw (f, g, check_duplicate_transaction) at e))
        | inr (v1, g) ↦
            let (same, new) = check_all_outputs-AllNewOf block.transactions v v1 g in
            let e' : ◌≡◌ {A = Option (Bool × CoinView)} (some (true, v1)) (some (ok, v')) =
              (rw (f, g, check_duplicate_transaction) at e) in
            (sym (some-pair_left e'), ap unspent (sym (some-pair_right e')) ∙ same, λ h. new)
      ]
    ]
