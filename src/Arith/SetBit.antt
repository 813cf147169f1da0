-- ===== src/Arith/SetBit.antt =====
-- The bit of the quotient that a round of operator/= sets (src/util/arith_uint256.cpp).
use native.Mathlib.Nat.{
  mod-lt, mul_assoc, mul_comm, add-mul-mod_self_right, mul-mod_left, mod-add-div',
}
use xbtc.Base.Bits.{pow_double, pow_pos, bit_or_disjoint, bit_or_comm}
use xbtc.Base.{
  ℕ, zero, suc, ◌+◌, ◌-◌, ◌*◌, ◌/◌, ◌%◌, ◌^◌, ◌<◌, ◌≡◌, sym, ◌∙◌, ap, List, [], ◌∷◌, length, arith,
  bit_or,
}
use xbtc.Arith.Shift.{power_up}
use xbtc.Arith.{or_at}
use xbtc.Arith.Powers.{pow_split}
use xbtc.Arith.Value.{IsWords, value}
use xbtc.Arith.Words.{IsNumber}

-- A bit that is set below those that are.
low_word : (x v q r : ℕ) → r < 32 → x + 2 ^ 32 * v ≡ q * 2 ^ suc r → x ≡ x / 2 ^ suc r * 2 ^ suc r
low_word x v q r h e =
    let p = 2 ^ suc r in
    let whole : 2 ^ 32 * v ≡ 2 ^ (32 - suc r) * v * p =
      ap (λ n. n * v) (pow_split (suc r) 32 h)
      ∙ mul_assoc (2 ^ (32 - suc r)) p v
      ∙ ap (λ n. 2 ^ (32 - suc r) * n) (mul_comm p v)
      ∙ sym (mul_assoc (2 ^ (32 - suc r)) v p) in
    let none_left : x % p ≡ 0 =
      sym (add-mul-mod_self_right x (2 ^ (32 - suc r) * v) p)
      ∙ ap (λ n. (x + n) % p) (sym whole)
      ∙ ap (λ n. n % p) e
      ∙ mul-mod_left q p in
    omega (arith, mod-add-div' x p, none_left)

or_at-value :
    (j r q : ℕ) (xs : List ℕ)
    → r < 32
    → j < length xs
    → IsWords xs
    → value xs ≡ q * 2 ^ (32 * j + suc r)
    → value (or_at j (2 ^ r) xs) ≡ value xs + 2 ^ (32 * j + r)
unfolding or_at value
or_at-value j r q [] h le w e = absurd (omega (arith, le))
or_at-value zero r q (x ∷ xs) h le (hx, w) e =
    let e' : x + 2 ^ 32 * value xs ≡ q * 2 ^ suc r =
      e ∙ ap (λ k. q * 2 ^ k) {x = 32 * 0 + suc r} {y = suc r} (omega arith) in
    let b = x / 2 ^ suc r in
    let aligned : x ≡ b * 2 ^ suc r = low_word x (value xs) q r h e' in
    let small : 2 ^ r < 2 ^ suc r = omega (arith, pow_double r, pow_pos r) in
    let set : bit_or x (2 ^ r) ≡ 2 ^ r + x =
      bit_or_comm x (2 ^ r)
      ∙ ap (bit_or (2 ^ r)) aligned
      ∙ bit_or_disjoint (suc r) (2 ^ r) b small
      ∙ ap (λ n. 2 ^ r + n) (sym aligned) in
    let place : 2 ^ (32 * 0 + r) ≡ 2 ^ r = ap (λ k. 2 ^ k) {x = 32 * 0 + r} {y = r} (omega arith) in
    omega (arith, set, place)
or_at-value (suc j) r q (x ∷ xs) h le (hx, w) e =
    let y = q * 2 ^ (32 * j + suc r) in
    let e' : x + 2 ^ 32 * value xs ≡ 2 ^ 32 * y = e ∙ power_up q j (suc r) in
    let ih = or_at-value j r q xs h (omega (arith, le)) w (omega (arith, e', hx)) in
    omega (arith, ih, power_up 1 j r)

pub set_bit :
    (k q n : ℕ) (xs : List ℕ)
    → k < 32 * n
    → IsNumber n xs
    → value xs ≡ q * 2 ^ suc k
    → value (or_at (k / 32) (2 ^ (k % 32)) xs) ≡ value xs + 2 ^ k
set_bit k q n xs h w e =
    let r = k % 32 in
    let at : 32 * (k / 32) + suc r ≡ suc k = omega arith in
    let at' : 32 * (k / 32) + r ≡ k = omega arith in
    or_at-value (k / 32) r q xs (mod-lt k (omega arith)) (omega (arith, h, w.size)) w.words
      (e ∙ ap (λ i. q * 2 ^ i) (sym at))
    ∙ ap (λ i. value xs + 2 ^ i) at'
