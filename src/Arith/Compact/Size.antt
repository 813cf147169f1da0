-- ===== src/Arith/Compact/Size.antt =====
-- When the number of a compact form fits into 256 bits (set_compact of src/util/arith_uint256.cpp).
use native.Mathlib.Nat.{pow-le-pow_right, mul-le-mul_right}
use xbtc.Base.{
  ℕ, zero, suc, ◌+◌, ◌-◌, ◌*◌, ◌^◌, ◌≤◌, ◌<◌, ◌≡◌, refl, Bool, true, false, not, ◌&&◌, ◌||◌, ltb,
  ◌==◌, arith, ◌⊎◌, inl, inr, le_or_lt,
}
use xbtc.Arith.Powers.{pow_sum, below}

-- A product with a power of two on either side of 2 ^ 256.
fits : (word w p : ℕ) → word < 2 ^ w → w + p ≤ 256 → word * 2 ^ p + 2 ^ p ≤ 2 ^ 256
fits word w p h le =
    let top : 2 ^ (w + p) ≤ 2 ^ 256 =
      pow-le-pow_right {n = 2} (omega arith) {i = w + p} {j = 256} le in
    omega (arith, below (2 ^ w) (2 ^ p) word h, pow_sum w p, top)

exceeds : (word w p : ℕ) → 2 ^ w ≤ word → 256 ≤ w + p → 2 ^ 256 ≤ word * 2 ^ p
exceeds word w p h le =
    let top : 2 ^ 256 ≤ 2 ^ (w + p) =
      pow-le-pow_right {n = 2} (omega arith) {i = 256} {j = w + p} le in
    omega (arith, mul-le-mul_right (2 ^ p) h, pow_sum w p, top)

abbrev pub overflows : ℕ → ℕ → Bool
overflows word size =
    not (word == 0)
    && (ltb 34 size || ((ltb 0xff word && ltb 33 size) || (ltb 0xffff word && ltb 32 size)))

abbrev pub Told : ℕ → ℕ → Type 0
Told word size =
    ((overflows word size ≡ true) × (2 ^ 256 ≤ word * 2 ^ (8 * (size - 3))))
    ⊎ ((overflows word size ≡ false) × (word * 2 ^ (8 * (size - 3)) + 1 < 2 ^ 256))

Told-fits :
    (word w size : ℕ)
    → word < 2 ^ w
    → 3 < size
    → w + 8 * (size - 3) ≤ 256
    → overflows word size ≡ false
    → Told word size
Told-fits word w size h large le flag =
    let p = 8 * (size - 3) in
    let two : 2 ^ 1 ≤ 2 ^ p =
      pow-le-pow_right {n = 2} (omega arith) {i = 1} {j = p} (omega (arith, large)) in
    inr (flag, omega (arith, fits word w p h le, two))

Told-exceeds :
    (word w size : ℕ)
    → 2 ^ w ≤ word
    → 256 ≤ w + 8 * (size - 3)
    → overflows word size ≡ true
    → Told word size
Told-exceeds word w size h le flag = inl (flag, exceeds word w (8 * (size - 3)) h le)

-- The flag tells exactly when the number does not fit; when it does, there is even room for one more.
pub overflows-large : (word size : ℕ) → word < 2 ^ 23 → 3 < size → Told word size
overflows-large zero size h large = inr (refl, omega arith)
overflows-large (suc m) size h large =
    let word = suc m in
    elim (le_or_lt size 32) [
      | inl s ↦ Told-fits word 23 size h large (omega (arith, s)) (ground (arith, s))
      | inr s ↦ elim (le_or_lt 35 size) [
        | inl s' ↦ Told-exceeds word 0 size (omega arith) (omega (arith, s')) (ground (arith, s'))
        | inr s' ↦ elim (le_or_lt word 0xff) [
          | inl w ↦
              Told-fits word 8 size (omega (arith, w)) large (omega (arith, s'))
                (ground (arith, s', w))
          | inr w ↦ elim (le_or_lt 34 size) [
            | inl s2 ↦
                Told-exceeds word 8 size (omega (arith, w)) (omega (arith, s2))
                  (ground (arith, s2, w))
            | inr s2 ↦ elim (le_or_lt word 0xffff) [
              | inl w2 ↦
                  Told-fits word 16 size (omega (arith, w2)) large (omega (arith, s2))
                    (ground (arith, s2, w2))
              | inr w2 ↦
                  Told-exceeds word 16 size (omega (arith, w2)) (omega (arith, s))
                    (ground (arith, w2, s))
            ]
          ]
        ]
      ]
    ]

pub overflows-small : (word size : ℕ) → word < 2 ^ 23 → size ≤ 3 → overflows word size ≡ false
overflows-small word size h small = ground (arith, h, small)
