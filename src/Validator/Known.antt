-- ===== src/Validator/Known.antt =====
-- The search of verifyTransactionInput (src/storage/Validator.cpp) through the block.
use xbtc.Base.{
  ℕ, zero, suc, ◌+◌, ◌≡◌, ◌≢◌, refl, ◌∙◌, ◌⊎◌, inl, inr, none, some, List, [], ◌∷◌, take, get_elem?,
  ◌==◌, ==_iff, arith, Bool-cases, Option-cases, none-ne-some,
}
use xbtc.Data.Transaction.{TransactionOutPoint, TransactionOutput, Transaction}
use xbtc.Data.Coin.{Coin}
use xbtc.Coins.Unspent.{Unspent}
use xbtc.Validator.{find_output, output_of_block}

-- A transaction of the block other than number `txindex` has the hash of the outpoint, and the
-- output at its index.
pub record InBlock (txs : List Transaction) (txindex : ℕ) (out : TransactionOutPoint)
    (output : TransactionOutput) : Type 0 where
  pub number : ℕ
  pub transaction : Transaction
  pub stands : get_elem? txs number ≡ some transaction
  pub other : number ≢ txindex
  pub named : transaction.hash ≡ out.hash
  pub at_index : get_elem? transaction.outputs out.index ≡ some output

-- The output under an outpoint: of an unspent coin, or else of another transaction of the block.
unfoldable pub IsKnown :
    Unspent → List Transaction → ℕ → TransactionOutPoint → TransactionOutput → Type 0
IsKnown u txs txindex out output =
    ((c : Coin) × (u out ≡ some c) × (c.output ≡ output))
    ⊎ ((u out ≡ none) × InBlock txs txindex out output)

some-some : {A : Type 0} {a b : A} → some a ≡ some b → a ≡ b
some-some e = cc

get_elem?-take :
    (n : ℕ) (txs : List Transaction) (i : ℕ) (tx : Transaction)
    → get_elem? (take n txs) i ≡ some tx
    → get_elem? txs i ≡ some tx
get_elem?-take zero txs i tx e = absurd (none-ne-some e)
get_elem?-take (suc n) [] i tx e = absurd (none-ne-some e)
get_elem?-take (suc n) (x ∷ txs) zero tx e = e
get_elem?-take (suc n) (x ∷ txs) (suc i) tx e = get_elem?-take n txs i tx e

-- What a loop from number `i` on finds, with the number counted from there.
record FoundFrom (i : ℕ) (txs : List Transaction) (txindex : ℕ) (out : TransactionOutPoint)
    (output : TransactionOutput) : Type 0 where
  number : ℕ
  transaction : Transaction
  stands : get_elem? txs number ≡ some transaction
  other : i + number ≢ txindex
  named : transaction.hash ≡ out.hash
  at_index : get_elem? transaction.outputs out.index ≡ some output

FoundFrom-suc :
    (i txindex : ℕ) (tx : Transaction) (txs : List Transaction) (out : TransactionOutPoint)
    (output : TransactionOutput)
    → FoundFrom (suc i) txs txindex out output
    → FoundFrom i (tx ∷ txs) txindex out output
FoundFrom-suc i txindex tx txs out output w = record {
  number = suc w.number;
  transaction = w.transaction;
  stands = w.stands;
  other = λ e. w.other (omega (arith, e));
  named = w.named;
  at_index = w.at_index;
}

find_output-FoundFrom :
    (i txindex : ℕ) (txs : List Transaction) (out : TransactionOutPoint)
    (output : TransactionOutput)
    → find_output i txindex txs out ≡ some (some output)
    → FoundFrom i txs txindex out output
unfolding find_output
find_output-FoundFrom i txindex [] out output e =
    let z : none ≡ some output = some-some e in absurd (none-ne-some z)
find_output-FoundFrom i txindex (tx ∷ txs) out output e = elim (Bool-cases (i == txindex)) [
  | inl own ↦
      FoundFrom-suc i txindex tx txs out output
        (find_output-FoundFrom (suc i) txindex txs out output (rw (own, find_output) at e))
  | inr another ↦ elim (Bool-cases (tx.hash == 0)) [
    | inl null ↦ absurd (none-ne-some (rw (another, null, find_output) at e))
    | inr nonnull ↦ elim (Bool-cases (tx.hash == out.hash)) [
      | inr other_hash ↦ FoundFrom-suc i txindex tx txs out output (
          find_output-FoundFrom (suc i) txindex txs out output
            (rw (another, nonnull, other_hash, find_output) at e))
      | inl same_hash ↦ elim (Option-cases (get_elem? tx.outputs out.index)) [
        | inl missing ↦
            absurd (none-ne-some (rw (another, nonnull, same_hash, missing, find_output) at e))
        | inr (o, there) ↦
            let e' : some (some o) ≡ some (some output) =
              (rw (another, nonnull, same_hash, there, find_output) at e) in
            record {
              number = 0;
              transaction = tx;
              stands = refl;
              other = λ q. ground (arith, another, q);
              named = (==_iff tx.hash out.hash).0 same_hash;
              at_index = there ∙ some-some e';
            }
      ]
    ]
  ]
]

FoundFrom-InBlock :
    (txs : List Transaction) (txindex : ℕ) (out : TransactionOutPoint) (output : TransactionOutput)
    → FoundFrom 0 txs txindex out output
    → InBlock txs txindex out output
FoundFrom-InBlock txs txindex out output w = record {
  number = w.number;
  transaction = w.transaction;
  stands = w.stands;
  other = λ e. w.other (omega (arith, e));
  named = w.named;
  at_index = w.at_index;
}

FoundFrom-take :
    (n : ℕ) (txs : List Transaction) (txindex : ℕ) (out : TransactionOutPoint)
    (output : TransactionOutput)
    → FoundFrom 0 (take n txs) txindex out output
    → FoundFrom 0 txs txindex out output
FoundFrom-take n txs txindex out output w = record {
  number = w.number;
  transaction = w.transaction;
  stands = get_elem?-take n txs w.number w.transaction w.stands;
  other = w.other;
  named = w.named;
  at_index = w.at_index;
}

pub output_of_block-InBlock :
    (txs : List Transaction) (txindex : ℕ) (out : TransactionOutPoint) (output : TransactionOutput)
    → output_of_block txs txindex out ≡ some (some output)
    → InBlock txs txindex out output
unfolding output_of_block
output_of_block-InBlock txs txindex out output e =
    elim (Option-cases (find_output 0 txindex (take txindex txs) out)) [
      | inl f ↦ absurd (none-ne-some (rw (f, output_of_block) at e))
      | inr (before, f) ↦ elim (Option-cases (find_output 0 txindex txs out)) [
        | inl g ↦ absurd (none-ne-some (rw (f, g, output_of_block) at e))
        | inr (some o, g) ↦
            let e' : some (some o) ≡ some (some output) = (rw (f, g, output_of_block) at e) in
            FoundFrom-InBlock txs txindex out output
              (find_output-FoundFrom 0 txindex txs out output (g ∙ e'))
        | inr (none, g) ↦
            let e' : some before ≡ some (some output) = (rw (f, g, output_of_block) at e) in
            FoundFrom-InBlock txs txindex out output (
              FoundFrom-take txindex txs txindex out output
                (find_output-FoundFrom 0 txindex (take txindex txs) out output (f ∙ e')))
      ]
    ]
