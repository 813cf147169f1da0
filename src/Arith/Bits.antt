-- ===== src/Arith/Bits.antt =====
-- bits of src/util/arith_uint256.cpp is the position of the highest bit.
use native.Mathlib.Nat.{div-eq_of_lt-le, div-eq_of_lt}
use xbtc.Base.Bits.{bit_and_bit, pow_double, pow_pos}
use xbtc.Base.{
  ℕ, zero, suc, ◌+◌, ◌-◌, ◌*◌, ◌/◌, ◌%◌, ◌^◌, ◌≤◌, ◌<◌, ◌≡◌, refl, ◌∙◌, ap, false, List, [], ◌∷◌,
  ◌==◌, arith, bit_and, ◌⊎◌, inl, inr, Bool-cases, ==_iff, le_or_lt, subst,
}
use xbtc.Arith.{word_bits, bits_from, bits}
use xbtc.Arith.Powers.{pow_sum}
use xbtc.Arith.Value.{IsWords, value}

-- The highest bit of `v` is at position k, so that its count is one more.
pub record IsTop (k v : ℕ) : Type 0 where
  pub least : 2 ^ k ≤ v
  pub most : v < 2 ^ suc k

word_up : (k : ℕ) → 2 ^ suc (32 + k) ≡ 2 ^ 32 * 2 ^ suc k
word_up k = ap (λ n. 2 ^ n) {x = suc (32 + k)} {y = 32 + suc k} (omega arith) ∙ pow_sum 32 (suc k)

pos→== : (p : ℕ) → 0 < p → (p == 0) ≡ false
pos→== p h = ground (arith, h)

word_bits-IsTop : (n x : ℕ) → 0 < x → x < 2 ^ suc n → (k : ℕ) × (word_bits n x ≡ suc k) × IsTop k x
unfolding word_bits
word_bits-IsTop zero x pos h = (0, refl, record { least = pos; most = h })
word_bits-IsTop (suc n) x pos h =
    let p = 2 ^ suc n in
    elim (le_or_lt p x) [
      | inl high ↦
          let one : x / p ≡ 1 =
            div-eq_of_lt-le {k = 1} p {m = x} (omega (arith, high))
              (omega (arith, h, pow_double (suc n))) in
          let set : bit_and x p ≡ p =
            bit_and_bit (suc n) x ∙ ap (λ d. d % 2 * p) one ∙ omega arith in
          (
            suc n,
            rw (set, pos→== p (pow_pos (suc n))) (omega arith),
            record { least = high; most = h },
          )
      | inr low ↦
          let unset : bit_and x p ≡ 0 =
            bit_and_bit (suc n) x ∙ ap (λ d. d % 2 * p) (div-eq_of_lt low) ∙ omega arith in
          let (k, r, top) = word_bits-IsTop n x pos low in (k, rw unset r, top)
    ]

-- What bits_from makes of a number, from position 32 * pos.
FoundBits : ℕ → ℕ → ℕ → Type 0
FoundBits pos b v = ((v ≡ 0) × (b ≡ 0)) ⊎ ((k : ℕ) × (b ≡ 32 * pos + suc k) × IsTop k v)

bits_from-FoundBits :
    (pos : ℕ) (xs : List ℕ) → IsWords xs → FoundBits pos (bits_from pos xs) (value xs)
unfolding bits_from value FoundBits
bits_from-FoundBits pos [] w = inl (refl, refl)
bits_from-FoundBits pos (x ∷ xs) (hx, w) = elim (bits_from-FoundBits (suc pos) xs w) [
  | inl (v, b) ↦ elim (Bool-cases (x == 0)) [
    | inl e ↦ let z : x ≡ 0 = (==_iff x 0).0 e in inl (omega (arith, z, v), rw (b, e) refl)
    | inr e ↦
        let (k, r, top) = word_bits-IsTop 31 x (ground (arith, e)) hx in
        inr (
          k,
          rw (b, e, word_bits) (ap (λ n. 32 * pos + n) r),
          record { least = omega (arith, top.least, v); most = omega (arith, top.most, v) },
        )
  ]
  | inr (k, b, top) ↦
      let least' = top.least in
      let most' = top.most in
      inr (
        32 + k,
        rw (b, pos→== (32 * suc pos + suc k) (omega arith)) (omega arith),
        record {
          least = omega (arith, least', pow_sum 32 k);
          most = omega (arith, most', hx, word_up k);
        },
      )
]

pub bits-none : (xs : List ℕ) → IsWords xs → bits xs ≡ 0 → value xs ≡ 0
unfolding bits FoundBits
bits-none xs w e = elim (bits_from-FoundBits 0 xs w) [
  | inl (v, b) ↦ v
  | inr (k, b, top) ↦ absurd (omega (arith, b, e))
]

pub bits-some : (xs : List ℕ) → IsWords xs → 0 < bits xs → IsTop (bits xs - 1) (value xs)
unfolding bits FoundBits
bits-some xs w h = elim (bits_from-FoundBits 0 xs w) [
  | inl (v, b) ↦ absurd (omega (arith, b, h))
  | inr (k, b, top) ↦
      let k_is : k ≡ bits xs - 1 = omega (arith, b) in subst (λ n. IsTop n (value xs)) k_is top
]
