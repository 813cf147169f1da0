-- ===== src/Arith/Powers.antt =====
-- Powers of two and remainders, which the operations of src/util/arith_uint256.cpp on shifted words come down to.
use native.Mathlib.Nat.{
  pow-suc, mul_assoc, mul_comm, mod-eq_of_lt, mul-div-mul_right, mod-add-div, mod-lt,
  add-mul-mod_self_left, add-mul, mul-le-mul_right,
}
use xbtc.Base.Bits.{pow_pos}
use xbtc.Base.{
  ℕ, zero, suc, ◌+◌, ◌-◌, ◌*◌, ◌/◌, ◌%◌, ◌^◌, ◌≤◌, ◌<◌, ◌≡◌, sym, ◌∙◌, ap, arith, subst,
}

one_more : (n : ℕ) → n ≡ n * 2 ^ 0
one_more n = omega arith

pub pow_sum : (a b : ℕ) → 2 ^ (a + b) ≡ 2 ^ a * 2 ^ b
pow_sum a zero = ap (λ n. 2 ^ n) {x = a + 0} {y = a} (omega arith) ∙ one_more (2 ^ a)
pow_sum a (suc b) =
    ap (λ n. 2 ^ n) {x = a + suc b} {y = suc (a + b)} (omega arith)
    ∙ pow-suc 2 (a + b)
    ∙ ap (λ n. n * 2) (pow_sum a b)
    ∙ mul_assoc (2 ^ a) (2 ^ b) 2
    ∙ ap (λ n. 2 ^ a * n) (sym (pow-suc 2 b))

pub pow_split : (r w : ℕ) → r ≤ w → 2 ^ w ≡ 2 ^ (w - r) * 2 ^ r
pow_split r w h = ap (λ n. 2 ^ n) {x = w} {y = w - r + r} (omega arith) ∙ pow_sum (w - r) r

-- What a shift to the left pushes out of a word is what a shift to the right by the rest keeps.
pub pushed_out : (x r : ℕ) → r ≤ 32 → x * 2 ^ r / 2 ^ 32 ≡ x / 2 ^ (32 - r)
pushed_out x r h =
    ap (λ n. x * 2 ^ r / n) (pow_split r 32 h) ∙ mul-div-mul_right x (2 ^ (32 - r)) (pow_pos r)

pub kept : (x r : ℕ) → r ≤ 32 → x * 2 ^ (32 - r) / 2 ^ 32 ≡ x / 2 ^ r
kept x r h =
    pushed_out x (32 - r) (omega arith)
    ∙ ap (λ n. x / 2 ^ n) {x = 32 - (32 - r)} {y = r} (omega (arith, h))

pub mod_is : (a m q r : ℕ) → r < m → a ≡ r + m * q → a % m ≡ r
mod_is a m q r h e = ap (λ t. t % m) e ∙ add-mul-mod_self_left r m q ∙ mod-eq_of_lt h

-- The part of a shifted word that stays is a multiple of the power.
times : (x p q : ℕ) → x * q ≡ x % p * q + p * q * (x / p)
times x p q =
    ap (λ n. n * q) (sym (mod-add-div x p))
    ∙ add-mul (x % p) (p * (x / p)) q
    ∙ ap (λ n. x % p * q + n)
        (mul_assoc p (x / p) q ∙ ap (λ n. p * n) (mul_comm (x / p) q) ∙ sym (mul_assoc p q (x / p)))

pub below : (p q y : ℕ) → y < p → y * q + q ≤ p * q
below p q y h =
    let y' : y + 1 ≤ p = omega (arith, h) in
    subst (λ n. n ≤ p * q) (add-mul y 1 q ∙ ap (λ n. y * q + n) (omega arith))
      (mul-le-mul_right q y')

pub stays : (x r : ℕ) → r ≤ 32 → x * 2 ^ r % 2 ^ 32 ≡ x % 2 ^ (32 - r) * 2 ^ r
stays x r h =
    let p = 2 ^ (32 - r) in
    let q = 2 ^ r in
    let whole : 2 ^ 32 ≡ p * q = pow_split r 32 h in
    mod_is (x * q) (2 ^ 32) (x / p) (x % p * q)
      (omega (arith, whole, below p q (x % p) (mod-lt x (pow_pos (32 - r))), pow_pos r))
      (times x p q ∙ ap (λ n. x % p * q + n * (x / p)) (sym whole))

pub room : (x r : ℕ) → r ≤ 32 → x * 2 ^ r % 2 ^ 32 + 2 ^ r ≤ 2 ^ 32
room x r h =
    let p = 2 ^ (32 - r) in
    omega
      (arith, stays x r h, pow_split r 32 h, below p (2 ^ r) (x % p) (mod-lt x (pow_pos (32 - r))))
