-- ===== src/Arith/Divide.antt =====
-- operator/= of src/util/arith_uint256.cpp is the division of numbers.
use native.Mathlib.Nat.{
  mul_assoc, pow-le-pow_right, div-eq_of_lt, add-mul-div_left, add-mul, mul-lt-mul_of_pos_right,
  mod-eq_of_lt, mul-le-mul_right,
}
use xbtc.Base.Bits.{pow_double, pow_pos}
use xbtc.Base.{
  ℕ, zero, suc, ◌+◌, ◌-◌, ◌*◌, ◌/◌, ◌%◌, ◌^◌, ◌≤◌, ◌<◌, ◌≡◌, refl, sym, ◌∙◌, ap, some, List, [],
  ◌∷◌, length, ◌==◌, arith, inl, inr, Bool-cases, ==_iff, le_or_lt, le→leb, lt→leb, subst, le→ltb,
  lt→ltb,
}
use Prim.Native.Nat.{Ordering, lt, eq, gt}
use xbtc.Arith.Shift.{value-shift_left, value-zeros}
use xbtc.Arith.Shift.Right.{value-shift_right}
use xbtc.Arith.SetBit.{set_bit}
use xbtc.Arith.Bits.{IsTop, bits-none, bits-some}
use xbtc.Arith.{
  divide, divide_loop, or_at, shift_left, shift_right, subtract, compare_words, not_below, zeros,
  bits, add, Ordering, negate, leb,
}
use xbtc.Arith.Powers.{pow_sum}
use xbtc.Arith.Value.{
  IsWords, value, modulus, Compares, add_loop-IsWords, compare_words-Compares, length-add_loop,
  length-negate, value-subtract, value_bound,
}
use xbtc.Arith.Words.{
  IsNumber, or_at-IsNumber, shift_right-IsNumber, zeros-IsNumber, shift_left-IsNumber,
}

not_below-Compares : (o : Ordering) (a b : ℕ) → Compares o a b → not_below o ≡ leb b a
unfolding Compares
not_below-Compares lt a b h = ground (arith, h)
not_below-Compares eq a b h = ground (arith, h)
not_below-Compares gt a b h = ground (arith, h)

subtract-IsNumber : (n : ℕ) (a b : List ℕ) → IsNumber n a → IsNumber n b → IsNumber n (subtract a b)
unfolding subtract add
subtract-IsNumber n a b wa wb = record {
  words = add_loop-IsWords 0 a (negate b);
  size = length-add_loop 0 a (negate b) (wa.size ∙ sym wb.size ∙ sym (length-negate b)) ∙ wa.size;
}

twice : (d s : ℕ) → d * 2 ^ suc s ≡ 2 * (d * 2 ^ s)
twice d s = omega (arith, ap (λ n. d * n) (pow_double s), mul_assoc d (2 ^ s) 2)

half : (d s : ℕ) → d * 2 ^ suc s / 2 ≡ d * 2 ^ s
half d s = omega (arith, twice d s)

bit_below : (s : ℕ) → 2 ^ (s % 32) < 2 ^ 32
bit_below s =
    let most : 2 ^ suc (s % 32) ≤ 2 ^ 32 =
      pow-le-pow_right {n = 2} (omega arith) {i = suc (s % 32)} {j = 32} (omega arith) in
    omega (arith, most, pow_double (s % 32), pow_pos (s % 32))

-- With `shift` rounds left, of the quotient by d: what the loop still adds to it.
pub value-divide_loop :
    (shift n d q : ℕ) (num div pn : List ℕ)
    → IsNumber n num
    → IsNumber n div
    → IsNumber n pn
    → 0 < d
    → shift ≤ 32 * n
    → value num < d * 2 ^ shift
    → value div ≡ d * 2 ^ shift / 2
    → value pn ≡ q * 2 ^ shift
    → IsNumber n (divide_loop shift num div pn)
      × (value (divide_loop shift num div pn) ≡ value pn + value num / d)
unfolding divide_loop
value-divide_loop zero n d q num div pn wn wd wp pos le small e eq_q =
    let less : value num < d = omega (arith, small) in (wp, omega (arith, div-eq_of_lt less))
value-divide_loop (suc s) n d q num div pn wn wd wp pos le small e eq_q =
    let at : value div ≡ d * 2 ^ s = e ∙ half d s in
    let fits =
      not_below-Compares (compare_words num div) (value num) (value div)
        (compare_words-Compares num div wn.words wd.words (wn.size ∙ sym wd.size)) in
    let wd' = shift_right-IsNumber 1 n div wd in
    let e' : value (shift_right 1 div) ≡ d * 2 ^ s / 2 =
      value-shift_right 1 div wd.words ∙ ap (λ k. k / 2) at in
    let same : q * 2 ^ suc s ≡ 2 * q * 2 ^ s = twice q s ∙ sym (mul_assoc 2 q (2 ^ s)) in
    elim (le_or_lt (value div) (value num)) [
      | inl high ↦
          let left = value-subtract num div wn.words wd.words (wn.size ∙ sym wd.size) high in
          let set = set_bit s q n pn (omega (arith, le)) wp eq_q in
          let wp' = or_at-IsNumber (s / 32) (2 ^ (s % 32)) (bit_below s) wp in
          let whole : value num ≡ value (subtract num div) + d * 2 ^ s =
            omega (arith, left, at, high) in
          let quotient : value num / d ≡ value (subtract num div) / d + 2 ^ s =
            ap (λ k. k / d) whole ∙ add-mul-div_left (value (subtract num div)) (2 ^ s) pos in
          let (w, v) =
            value-divide_loop s n d (2 * q + 1) (subtract num div) (shift_right 1 div)
              (or_at (s / 32) (2 ^ (s % 32)) pn) (subtract-IsNumber n num div wn wd) wd' wp' pos
              (omega (arith, le)) (omega (arith, small, twice d s, left, at)) e'
              (omega (arith, set, eq_q, same, add-mul (2 * q) 1 (2 ^ s))) in
          rw (fits, le→leb (value div) (value num) high) (w, omega (arith, v, set, quotient))
      | inr low ↦
          let (w, v) =
            value-divide_loop s n d (2 * q) num (shift_right 1 div) pn wn wd' wp pos
              (omega (arith, le)) (omega (arith, low, at)) e' (eq_q ∙ same) in
          rw (fits, lt→leb (value div) (value num) low) (w, v)
    ]

pub modulus-size : (n : ℕ) (a : List ℕ) → length a ≡ n → modulus a ≡ 2 ^ (32 * n)
unfolding modulus
modulus-size n [] e = ap (λ k. 2 ^ (32 * k)) e
modulus-size zero (x ∷ xs) e = absurd (omega (arith, e))
modulus-size (suc n) (x ∷ xs) e = omega (
  arith,
  modulus-size n xs (omega (arith, e)),
  pow_sum 32 (32 * n),
  ap (λ k. 2 ^ k) {x = 32 * suc n} {y = 32 + 32 * n} (omega arith),
)

pow_cancel : (k m : ℕ) → 2 ^ k < 2 ^ m → k < m
pow_cancel k m h = elim (le_or_lt m k) [
  | inl le ↦
      let high : 2 ^ m ≤ 2 ^ k = pow-le-pow_right {n = 2} (omega arith) {i = m} {j = k} le in
      absurd (omega (arith, h, high))
  | inr lt' ↦ lt'
]

zeros_for : (n : ℕ) (a : List ℕ) → IsNumber n a → IsNumber n (zeros (length a))
zeros_for n a w = subst (λ m. IsNumber m (zeros (length a))) w.size (zeros-IsNumber (length a))

pow_at : (k m : ℕ) → k ≡ m → 2 ^ k ≡ 2 ^ m
pow_at k m e = ap (λ n. 2 ^ n) e

-- The divisor that has been shifted up to the highest bit of the dividend.
highest_bits :
    (a d p q n : ℕ)
    → IsTop p a
    → IsTop q d
    → q ≤ p
    → a < 2 ^ (32 * n)
    → (p < 32 * n) × (d * 2 ^ (p - q) < 2 ^ (32 * n)) × (a < d * 2 ^ suc (p - q))
highest_bits a d p q n ta td le h =
    let s = p - q in
    let within : p < 32 * n = pow_cancel p (32 * n) (omega (arith, ta.least, h)) in
    let up : 2 ^ suc p ≤ 2 ^ (32 * n) =
      pow-le-pow_right {n = 2} (omega arith) {i = suc p} {j = 32 * n} within in
    let sum : 2 ^ suc q * 2 ^ s ≡ 2 ^ suc p =
      sym (pow_sum (suc q) s) ∙ pow_at (suc q + s) (suc p) (omega (arith, le)) in
    let sum' : 2 ^ q * 2 ^ suc s ≡ 2 ^ suc p =
      sym (pow_sum q (suc s)) ∙ pow_at (q + suc s) (suc p) (omega (arith, le)) in
    (
      within,
      omega (arith, mul-lt-mul_of_pos_right td.most (pow_pos s), sum, up),
      omega (arith, mul-le-mul_right (2 ^ suc s) td.least, sum', ta.most),
    )

fewer_bits : (a b : List ℕ) → IsWords a → IsWords b → bits a < bits b → value a < value b
fewer_bits a b wa wb less =
    let top_b = bits-some b wb (omega (arith, less)) in
    elim (Bool-cases (bits a == 0)) [
      | inl none_set ↦ omega (
        arith,
        bits-none a wa ((==_iff (bits a) 0).0 none_set),
        top_b.least,
        pow_pos (bits b - 1),
      )
      | inr some_set ↦
          let top_a = bits-some a wa (ground (arith, some_set)) in
          let up : 2 ^ suc (bits a - 1) ≤ 2 ^ (bits b - 1) =
            pow-le-pow_right {n = 2} (omega arith) {i = suc (bits a - 1)} {j = bits b - 1}
              (ground (arith, some_set, less)) in
          omega (arith, top_a.most, up, top_b.least)
    ]

-- operator/= of two numbers of the same number of words, the second of which is not 0, gives the
-- quotient of the numbers, in as many words of 32 bits.
pub value-divide :
    (n : ℕ) (a b : List ℕ)
    → IsNumber n a
    → IsNumber n b
    → 0 < value b
    → (c : List ℕ) × (divide a b ≡ some c) × IsNumber n c × (value c ≡ value a / value b)
unfolding divide
value-divide n a b wa wb pos = elim (Bool-cases (bits b == 0)) [
  | inl none_set ↦
      absurd (omega (arith, pos, bits-none b wb.words ((==_iff (bits b) 0).0 none_set)))
  | inr some_set ↦
      let top_b = bits-some b wb.words (ground (arith, some_set)) in
      elim (le_or_lt (bits b) (bits a)) [
        | inl le ↦
            let shift = bits a - bits b in
            let top_a = bits-some a wa.words (ground (arith, some_set, le)) in
            let size_a = modulus-size n a wa.size in
            let (within, room, small) =
              highest_bits (value a) (value b) (bits a - 1) (bits b - 1) n top_a top_b
                (omega (arith, le)) (omega (arith, value_bound a wa.words, size_a)) in
            let by : bits a - 1 - (bits b - 1) ≡ shift = ground (arith, some_set, le) in
            let room' : value b * 2 ^ shift < 2 ^ (32 * n) =
              subst (λ s. value b * 2 ^ s < 2 ^ (32 * n)) by room in
            let small' : value a < value b * 2 ^ suc shift =
              subst (λ s. value a < value b * 2 ^ suc s) by small in
            let div = shift_left shift b in
            let at : value div ≡ value b * 2 ^ suc shift / 2 =
              value-shift_left shift b wb.words
              ∙ ap (λ m. value b * 2 ^ shift % m) (modulus-size n b wb.size)
              ∙ mod-eq_of_lt room'
              ∙ sym (half (value b) shift) in
            let (w, v) =
              value-divide_loop (suc shift) n (value b) 0 a div (zeros (length a)) wa
                (shift_left-IsNumber shift n b wb) (zeros_for n a wa) pos
                (omega (arith, within, le)) small' at (value-zeros (length a) ∙ omega arith) in
            (
              divide_loop (suc shift) a div (zeros (length a)),
              rw (some_set, le→ltb (bits a) (bits b) le) refl,
              w,
              omega (arith, v, value-zeros (length a)),
            )
        | inr less ↦ (
          zeros (length a),
          rw (some_set, lt→ltb (bits a) (bits b) less) refl,
          zeros_for n a wa,
          value-zeros (length a) ∙ sym (div-eq_of_lt (fewer_bits a b wa.words wb.words less)),
        )
      ]
]
