-- ===== src/Validator/Inputs.antt =====
-- What verifyTransactions of src/storage/Validator.cpp has established when it returns.
use xbtc.Base.{
  ℕ, suc, ◌≡◌, refl, sym, ◌∙◌, ap, subst, inl, inr, Bool, true, false, Option, none, some, ◌>>=◌,
  List, [], ◌∷◌, Bool-cases, Option-cases, none-ne-some, some-pair_left, some-pair_right,
  if◌then◌else◌, >>=-eq-some,
}
use xbtc.Stream.{Streams}
use xbtc.Data.Transaction.{
  TransactionOutPoint, TransactionInput, TransactionOutput, Transaction, is_coin_base,
}
use xbtc.Data.Block.{Block, BlockIndexData}
use xbtc.Coins.{CoinView, fetch_coin, positive}
use xbtc.Coins.Unspent.{Unspent, unspent}
use xbtc.Script.Stack.{Value, get, is_true}
use xbtc.Script.Eval.{Run, eval}
use xbtc.Script.Eval.Run.{finished, failed, out_of_fuel}
use xbtc.Validator.{
  forbid_duplicate_transaction, check_duplicate_transaction, output_of_block, verify_scripts,
  spent_output, verify_transaction_input, verify_inputs_of, verify_inputs_from, verify_transactions,
  Vm, on_finished,
}
use xbtc.Validator.Known.{IsKnown, output_of_block-InBlock}
use xbtc.Validator.Fetch.{fetch_coin-IsFetched}
use xbtc.Validator.Outputs.{AllNewOf, check_duplicate_transaction-AllNewOf}

on_finished-some :
    {A : Type 0} (r : Run) (f : Vm → Option A) (a : A)
    → on_finished r f ≡ some a
    → (vm : Vm) × (r ≡ finished vm) × (f vm ≡ some a)
on_finished-some (finished vm) f a e = (vm, refl, e)
on_finished-some failed f a e = absurd (none-ne-some e)
on_finished-some out_of_fuel f a e = absurd (none-ne-some e)

if_true : (b ok : Bool) → (if b then some true else none) ≡ some ok → ok ≡ true
if_true true ok e = cc
if_true false ok e = absurd (none-ne-some e)

abbrev Found :
    List Transaction → ℕ → TransactionOutPoint → CoinView → CoinView → TransactionOutput → Type 0
Found txs txindex out v v' output =
    (unspent v' ≡ unspent v) × IsKnown (unspent v) txs txindex out output

abbrev with_view : CoinView → TransactionOutput → Option (TransactionOutput × CoinView)
with_view v output = some (output, v)

from_block :
    (txs : List Transaction) (txindex : ℕ) (out : TransactionOutPoint) (v v1 v' : CoinView)
    (output : TransactionOutput)
    → unspent v1 ≡ unspent v
    → unspent v out ≡ none
    → (output_of_block txs txindex out >>= λ o. o >>= with_view v1) ≡ some (output, v')
    → Found txs txindex out v v' output
unfolding IsKnown
from_block txs txindex out v v1 v' output same gone e =
    let (o, r, e1) =
      >>=-eq-some (output_of_block txs txindex out) (λ o. o >>= with_view v1) (output, v') e in
    let (output', r', e2) = >>=-eq-some o (with_view v1) (output, v') e1 in
    (
      ap unspent (sym (some-pair_right e2)) ∙ same,
      inr (
        gone,
        output_of_block-InBlock txs txindex out output
            (r ∙ ap some r' ∙ ap (λ x. some (some x)) (some-pair_left e2)),
      ),
    )

module _ (xul : Streams) (hash : ℕ → Value → Value) where
  verify_scripts-true :
      (check : Value → Value → List ℕ → Bool) (a b : List ℕ) (ok : Bool)
      → verify_scripts xul hash check a b ≡ some ok
      → ok ≡ true
  unfolding verify_scripts
  verify_scripts-true check a b ok e =
      let (vm, r, e1) =
        on_finished-some (eval xul hash check a (record { stack = []; errcode = 0; code = [] })) _
          ok e in
      let (vm', r', e2) = on_finished-some (eval xul hash check b vm) _ ok e1 in
      let (value, g, e3) =
        >>=-eq-some (get 1 vm'.stack) (λ value. if is_true value then some true else none) ok e2 in
      if_true (is_true value) ok e3

  module _ (check : Transaction → ℕ → Value → Value → List ℕ → Bool) where
    -- The scripts of an input and of a known output succeed.
    pub IsSatisfied : Unspent → List Transaction → ℕ → Transaction → ℕ → TransactionInput → Type 0
    IsSatisfied u txs txindex tx index txin =
        is_coin_base tx ≡ false
        → (output : TransactionOutput) × IsKnown u txs txindex txin.previous_output output
          × (verify_scripts xul hash (check tx index) txin.signature_script output.script_public_key
              ≡ some true)

    unfoldable pub Satisfied :
        Unspent → List Transaction → ℕ → Transaction → ℕ → List TransactionInput → Type 0
    Satisfied u txs txindex tx index [] = Unit {0}
    Satisfied u txs txindex tx index (txin ∷ inputs) =
        IsSatisfied u txs txindex tx index txin × Satisfied u txs txindex tx (suc index) inputs

    unfoldable pub SatisfiedFrom : Unspent → List Transaction → ℕ → List Transaction → Type 0
    SatisfiedFrom u txs txindex [] = Unit {0}
    SatisfiedFrom u txs txindex (tx ∷ rest) =
        Satisfied u txs txindex tx 0 tx.inputs × SatisfiedFrom u txs (suc txindex) rest

    spent_output-IsKnown :
        (txs : List Transaction) (txindex : ℕ) (out : TransactionOutPoint) (v v' : CoinView)
        (output : TransactionOutput)
        → spent_output xul hash check txs txindex out v ≡ some (output, v')
        → Found txs txindex out v v' output
    unfolding spent_output IsKnown
    spent_output-IsKnown txs txindex out v v' output e = elim (Option-cases (fetch_coin out v)) [
      | inl f ↦ absurd (none-ne-some (rw (f, spent_output) at e))
      | inr ((none, v1), f) ↦
          let w = fetch_coin-IsFetched out v none v1 f in
          from_block txs txindex out v v1 v' output w.same w.says (rw (f, spent_output) at e)
      | inr ((some c, v1), f) ↦
          let w = fetch_coin-IsFetched out v (some c) v1 f in
          elim (Bool-cases (positive c)) [
            | inr p ↦
                from_block txs txindex out v v1 v' output w.same (w.says ∙ rw p refl)
                  (rw (f, p, spent_output) at e)
            | inl p ↦
                let e' : ◌≡◌ {A = Option (TransactionOutput × CoinView)} (some (c.output, v1))
                    (some (output, v')) =
                  (rw (f, p, spent_output) at e) in
                (
                  ap unspent (sym (some-pair_right e')) ∙ w.same,
                  inl (c, w.says ∙ rw p refl, some-pair_left e'),
                )
          ]
    ]

    verify_transaction_input-IsSatisfied :
        (txs : List Transaction) (txindex : ℕ) (tx : Transaction) (index : ℕ)
        (txin : TransactionInput) (v v' : CoinView) (ok : Bool)
        → verify_transaction_input xul hash check txs txindex tx index txin v ≡ some (ok, v')
        → (ok ≡ true) × (unspent v' ≡ unspent v) × IsSatisfied (unspent v) txs txindex tx index txin
    unfolding verify_transaction_input IsSatisfied
    verify_transaction_input-IsSatisfied txs txindex tx index txin v v' ok e =
        elim (Bool-cases (is_coin_base tx)) [
          | inl b ↦
              let e' : ◌≡◌ {A = Option (Bool × CoinView)} (some (true, v)) (some (ok, v')) =
                (rw (b, verify_transaction_input) at e) in
              (
                sym (some-pair_left e'),
                ap unspent (sym (some-pair_right e')),
                λ n. let z : true ≡ false = sym b ∙ n in cc,
              )
          | inr b ↦
              elim (Option-cases (spent_output xul hash check txs txindex txin.previous_output v)) [
                | inl f ↦ absurd (none-ne-some (rw (b, f, verify_transaction_input) at e))
                | inr ((output, v1), f) ↦
                    let (same, known) =
                      spent_output-IsKnown txs txindex txin.previous_output v v1 output f in
                    elim (Option-cases (
                      verify_scripts xul hash (check tx index) txin.signature_script
                        output.script_public_key)) [
                          | inl g ↦
                              absurd (none-ne-some (rw (b, f, g, verify_transaction_input) at e))
                          | inr (good, g) ↦
                              let e' : ◌≡◌ {A = Option (Bool × CoinView)} (some (good, v1))
                                  (some (ok, v')) =
                                (rw (b, f, g, verify_transaction_input) at e) in
                              let holds =
                                verify_scripts-true (check tx index) txin.signature_script
                                  output.script_public_key good g in
                              (
                                sym (some-pair_left e') ∙ holds,
                                ap unspent (sym (some-pair_right e')) ∙ same,
                                λ n. (output, known, g ∙ ap some holds),
                              )
                        ]
              ]
        ]

    verify_inputs_of-Satisfied :
        (txs : List Transaction) (txindex : ℕ) (tx : Transaction) (index : ℕ)
        (inputs : List TransactionInput) (v v' : CoinView) (ok : Bool)
        → verify_inputs_of xul hash check txs txindex tx index inputs v ≡ some (ok, v')
        → (ok ≡ true) × (unspent v' ≡ unspent v) × Satisfied (unspent v) txs txindex tx index inputs
    unfolding verify_inputs_of Satisfied
    verify_inputs_of-Satisfied txs txindex tx index [] v v' ok e =
        (sym (some-pair_left e), ap unspent (sym (some-pair_right e)), tt)
    verify_inputs_of-Satisfied txs txindex tx index (txin ∷ inputs) v v' ok e =
        elim (Option-cases (verify_transaction_input xul hash check txs txindex tx index txin v)) [
          | inl f ↦ absurd (none-ne-some (rw (f, verify_inputs_of) at e))
          | inr ((good, v1), f) ↦
              let (holds, same, first) =
                verify_transaction_input-IsSatisfied txs txindex tx index txin v v1 good f in
              let (holds', same', rest) =
                verify_inputs_of-Satisfied txs txindex tx (suc index) inputs v1 v' ok
                  (rw (f, holds, verify_inputs_of) at e) in
              (
                holds',
                same' ∙ same,
                (first, subst (λ u. Satisfied u txs txindex tx (suc index) inputs) same rest),
              )
        ]

    verify_inputs_from-SatisfiedFrom :
        (txs : List Transaction) (txindex : ℕ) (rest : List Transaction) (v v' : CoinView)
        (ok : Bool)
        → verify_inputs_from xul hash check txs txindex rest v ≡ some (ok, v')
        → (ok ≡ true) × (unspent v' ≡ unspent v) × SatisfiedFrom (unspent v) txs txindex rest
    unfolding verify_inputs_from SatisfiedFrom
    verify_inputs_from-SatisfiedFrom txs txindex [] v v' ok e =
        (sym (some-pair_left e), ap unspent (sym (some-pair_right e)), tt)
    verify_inputs_from-SatisfiedFrom txs txindex (tx ∷ rest) v v' ok e =
        elim (Option-cases (verify_inputs_of xul hash check txs txindex tx 0 tx.inputs v)) [
          | inl f ↦ absurd (none-ne-some (rw (f, verify_inputs_from) at e))
          | inr ((good, v1), f) ↦
              let (holds, same, first) =
                verify_inputs_of-Satisfied txs txindex tx 0 tx.inputs v v1 good f in
              let (holds', same', others) =
                verify_inputs_from-SatisfiedFrom txs (suc txindex) rest v1 v' ok
                  (rw (f, holds, verify_inputs_from) at e) in
              (
                holds',
                same' ∙ same,
                (first, subst (λ u. SatisfiedFrom u txs (suc txindex) rest) same others),
              )
        ]

    -- When verifyTransactions returns, it returns true and has not changed what the view says of
    -- the unspent coins. Then no output of the block is among these, unless the block is one of
    -- the two exempt from this, and each input of a transaction that is no coinbase spends an
    -- output of an unspent coin, or, without such a coin, the output at its index of another
    -- transaction of the block, one with the hash that it names, with which its scripts succeed.
    pub verify_transactions-SatisfiedFrom :
        (block : Block) (index : BlockIndexData) (v v' : CoinView) (ok : Bool)
        → verify_transactions xul hash check block index v ≡ some (ok, v')
        → (ok ≡ true)
          × (unspent v' ≡ unspent v)
          × (forbid_duplicate_transaction index.height index.header.hash ≡ true
              → AllNewOf (unspent v) block.transactions)
          × SatisfiedFrom (unspent v) block.transactions 0 block.transactions
    unfolding verify_transactions
    verify_transactions-SatisfiedFrom block index v v' ok e =
        let txs = block.transactions in
        elim (Option-cases (check_duplicate_transaction block index v)) [
          | inl f ↦ absurd (none-ne-some (rw (f, verify_transactions) at e))
          | inr ((good, v1), f) ↦
              let (holds, same, new) =
                check_duplicate_transaction-AllNewOf block index v v1 good f in
              let (holds', same', all) =
                verify_inputs_from-SatisfiedFrom txs 0 txs v1 v' ok
                  (rw (f, holds, verify_transactions) at e) in
              (holds', same' ∙ same, new, subst (λ u. SatisfiedFrom u txs 0 txs) same all)
        ]
