-- ===== src/Arith/Compact/Target.antt =====
-- set_compact of src/util/arith_uint256.cpp against the number that its argument describes.
use native.Mathlib.Nat.{mod-eq_of_lt, div-le_self, add-mul}
use xbtc.Base.Bits.{bit_and_mask, bit_and_bit, pow_pos}
use xbtc.Base.{
  ℕ, zero, suc, ◌+◌, ◌-◌, ◌*◌, ◌/◌, ◌%◌, ◌^◌, ◌<◌, ◌≡◌, refl, sym, ◌∙◌, ap, Bool, true, false, not,
  ◌&&◌, leb, ◌==◌, if◌then◌else◌, arith, bit_and, inl, inr, Bool-cases, leb→le, leb→lt,
}
use xbtc.Arith.{base_uint, shift_left, zeros}
use xbtc.Arith.Divide.{modulus-size}
use xbtc.Arith.Shift.{value-shift_left}
use xbtc.Arith.Value.{modulus, value}
use xbtc.Arith.Words.{IsNumber, either-IsNumber, shift_left-IsNumber}
use xbtc.Arith.Compact.{size_of, word_of, is_negative_compact, is_overflow, set_compact, target}
use xbtc.Arith.Compact.Size.{overflows-large, overflows-small}

pub mantissa : (compact : ℕ) → bit_and compact 0x007fffff ≡ compact % 2 ^ 23
mantissa compact = bit_and_mask 23 compact

pub target-small :
    (compact : ℕ)
    → leb (size_of compact) 3 ≡ true
    → (target compact ≡ word_of compact) × (word_of compact < 2 ^ 23)
unfolding target word_of
target-small compact e =
    rw (e, mantissa compact)
      (refl, omega (arith, div-le_self (compact % 2 ^ 23) (2 ^ (8 * (3 - size_of compact)))))

pub target-large :
    (compact : ℕ)
    → leb (size_of compact) 3 ≡ false
    → (target compact ≡ word_of compact * 2 ^ (8 * (size_of compact - 3)))
      × (word_of compact < 2 ^ 23)
unfolding target word_of
target-large compact e = rw (e, mantissa compact) (refl, omega arith)

pub base_uint-value : (b : ℕ) → b < 2 ^ 32 → value (base_uint b) ≡ b
unfolding base_uint value zeros
base_uint-value b h = omega (arith, h)

pub base_uint-IsNumber : (b : ℕ) → IsNumber 8 (base_uint b)
unfolding base_uint zeros
base_uint-IsNumber b = record {
  words = (
    omega arith,
    (
      omega arith,
      (omega arith, (omega arith, (omega arith, (omega arith, (omega arith, (omega arith, tt)))))),
    ),
  );
  size = refl;
}

number-IsNumber : (compact : ℕ) → IsNumber 8 (set_compact compact).number
unfolding set_compact
number-IsNumber compact =
    let word = base_uint-IsNumber (word_of compact) in
    either-IsNumber (leb (size_of compact) 3) word
      (shift_left-IsNumber (8 * (size_of compact - 3)) 8 (base_uint (word_of compact)) word)

sign_bit : (compact : ℕ) → (bit_and compact 0x00800000 == 0) ≡ (compact / 2 ^ 23 % 2 == 0)
sign_bit compact = rw (bit_and_bit 23 compact) (ground arith)

product_zero : (word p : ℕ) → 0 < p → (word == 0) ≡ (word * p == 0)
product_zero zero p h = ground arith
product_zero (suc w) p h =
    let pos : 0 < suc w * p = omega (arith, add-mul w 1 p, h) in ground (arith, pos)

pub negative-target :
    (compact : ℕ)
    → is_negative_compact compact ≡ (not (target compact == 0) && not (compact / 2 ^ 23 % 2 == 0))
unfolding is_negative_compact
negative-target compact =
    let same : (word_of compact == 0) ≡ (target compact == 0) =
      elim (Bool-cases (leb (size_of compact) 3)) [
        | inl small ↦ ap (λ n. n == 0) (sym (target-small compact small).0)
        | inr large ↦
            let p = 2 ^ (8 * (size_of compact - 3)) in
            product_zero (word_of compact) p (pow_pos (8 * (size_of compact - 3)))
            ∙ ap (λ n. n == 0) (sym (target-large compact large).0)
      ] in
    rw (same, sign_bit compact) refl

pub overflow-target :
    (compact : ℕ)
    → (is_overflow compact ≡ leb (2 ^ 256) (target compact))
      × (is_overflow compact ≡ false → target compact + 1 < 2 ^ 256)
unfolding is_overflow
overflow-target compact =
    let word = word_of compact in
    let size = size_of compact in
    elim (Bool-cases (leb size 3)) [
      | inl small ↦
          let (t, h) = target-small compact small in
          let flag = overflows-small word size h (leb→le size 3 small) in
          rw (flag, t) (ground (arith, h), λ e. omega (arith, h))
      | inr large ↦
          let (t, h) = target-large compact large in
          elim (overflows-large word size h (leb→lt size 3 large)) [
            | inl (flag, big) ↦ rw (flag, t) (ground (arith, big), λ e. absurd (cc))
            | inr (flag, room) ↦ rw (flag, t) (ground (arith, room), λ e. room)
          ]
    ]

number_is :
    (compact : ℕ) (b : Bool)
    → leb (size_of compact) 3 ≡ b
    → (set_compact compact).number ≡ (
        if b
        then base_uint (word_of compact)
        else shift_left (8 * (size_of compact - 3)) (base_uint (word_of compact)))
unfolding set_compact
number_is compact b e =
    ap
      (λ c.
        if c
        then base_uint (word_of compact)
        else shift_left (8 * (size_of compact - 3)) (base_uint (word_of compact)))
      e

value-number :
    (compact : ℕ)
    → is_overflow compact ≡ false
    → value (set_compact compact).number ≡ target compact
value-number compact e =
    let room = (overflow-target compact).1 e in
    let word = base_uint (word_of compact) in
    elim (Bool-cases (leb (size_of compact) 3)) [
      | inl small ↦
          let (t, h) = target-small compact small in
          ap value (number_is compact true small)
          ∙ base_uint-value (word_of compact) (omega (arith, h))
          ∙ sym t
      | inr large ↦
          let (t, h) = target-large compact large in
          let p = 8 * (size_of compact - 3) in
          let w = base_uint-IsNumber (word_of compact) in
          ap value (number_is compact false large)
          ∙ (value-shift_left p word w.words
              ∙ ap (λ n. n * 2 ^ p % modulus word)
                  (base_uint-value (word_of compact) (omega (arith, h)))
              ∙ ap (λ m. word_of compact * 2 ^ p % m) (modulus-size 8 word w.size)
              ∙ mod-eq_of_lt (omega (arith, room, t))
              ∙ sym t)
    ]

-- set_compact tells by the flag of an overflow exactly whether the number that the bits stand for
-- has more than 256 bits, and if not, the result is this number, and 1 can be added to it in 256
-- bits; the other flag tells whether the number is not 0 and the sign bit is set.
pub set_compact-target :
    (compact : ℕ)
    → IsNumber 8 (set_compact compact).number
      × ((set_compact compact).overflow ≡ leb (2 ^ 256) (target compact))
      × ((set_compact compact).overflow ≡ false
          → (value (set_compact compact).number ≡ target compact) × (target compact + 1 < 2 ^ 256))
      × ((set_compact compact).negative
          ≡ (not (target compact == 0) && not (compact / 2 ^ 23 % 2 == 0)))
unfolding set_compact
set_compact-target compact = (
  number-IsNumber compact,
  (overflow-target compact).0,
  (λ e. (value-number compact e, (overflow-target compact).1 e)),
  negative-target compact,
)
