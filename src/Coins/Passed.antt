-- ===== src/Coins/Passed.antt =====
-- What a transfer of src/storage/CoinView.cpp that succeeds has run: the loops over the inputs, unless the
-- transaction is a coinbase, and over the outputs.
use xbtc.Base.{
  ◌⊎◌, ℕ, ◌≡◌, refl, ◌∙◌, ap, true, false, some, Bool-cases, Option-cases, inl, inr, none-ne-some,
  ◌==◌,
}
use xbtc.Base.Int.{ℤ, pos, ltb_ℤ}
use xbtc.Data.Transaction.{Transaction, is_coin_base}
use xbtc.Coins.{CoinView, spend_inputs, create_outputs, transfer}

-- The inputs have been spent, or there was nothing to spend.
abbrev pub Spent : Transaction → CoinView → CoinView → Type 0
Spent tx v v1 =
    (v1 ≡ v) ⊎ ((inputval : ℤ) × (spend_inputs tx.inputs (pos 0) v ≡ some (inputval, v1)))

abbrev pub Passed : Transaction → ℕ → CoinView → CoinView → Type 0
Passed tx height v v' =
    (v1 : CoinView) × (outputval : ℤ) × Spent tx v v1
    × (create_outputs tx.hash (is_coin_base tx) height 0 tx.outputs (pos 0) v1
        ≡ some (outputval, v'))

some-same : {a b : CoinView} → some a ≡ some b → a ≡ b
some-same e = cc

pub transfer-Passed :
    (tx : Transaction) (height : ℕ) (v v' : CoinView)
    → transfer tx height v ≡ some v'
    → Passed tx height v v'
unfolding transfer
transfer-Passed tx height v v' r = elim (Bool-cases (tx.hash == 0)) [
  | inl null ↦ absurd (none-ne-some (rw (null, transfer) at r))
  | inr named ↦ elim (Bool-cases (is_coin_base tx)) [
    | inl base ↦ elim (Option-cases (create_outputs tx.hash true height 0 tx.outputs (pos 0) v)) [
      | inl f ↦ absurd (none-ne-some (rw (named, base, f, transfer) at r))
      | inr ((n, v1), f) ↦
          let same : v1 ≡ v' = some-same (rw (named, base, f, transfer) at r) in
          (v, n, inl refl, rw base (f ∙ ap (λ u. some (n, u)) same))
    ]
    | inr spends ↦ elim (Option-cases (spend_inputs tx.inputs (pos 0) v)) [
      | inl f ↦ absurd (none-ne-some (rw (named, spends, f, transfer) at r))
      | inr ((m, v1), f) ↦
          elim (Option-cases (create_outputs tx.hash false height 0 tx.outputs (pos 0) v1)) [
            | inl g ↦ absurd (none-ne-some (rw (named, spends, f, g, transfer) at r))
            | inr ((n, v2), g) ↦ elim (Bool-cases (ltb_ℤ m n)) [
              | inl b ↦ absurd (none-ne-some (rw (named, spends, f, g, b, transfer) at r))
              | inr b ↦
                  let same : v2 ≡ v' = some-same (rw (named, spends, f, g, b, transfer) at r) in
                  (v1, n, inr (m, f), rw spends (g ∙ ap (λ u. some (n, u)) same))
            ]
          ]
    ]
  ]
]
