-- ===== src/Arith/Shift.antt =====
-- operator<<= of src/util/arith_uint256.cpp multiplies by a power of two.
pub mod Right
use native.Mathlib.Nat.{
  mod-eq_of_lt, mod-lt, mul_assoc, mul_comm, pow-le-pow_right, add-mul, mod-one, div-lt_iff_lt-mul,
  zero-div, mod-add-div,
}
use xbtc.Base.Bits.{bit_or_disjoint, pow_pos}
use xbtc.Base.{
  Bool, true, false, ℕ, zero, suc, ◌+◌, ◌-◌, ◌*◌, ◌/◌, ◌%◌, ◌^◌, ◌≤◌, ◌<◌, ◌≡◌, refl, sym, ◌∙◌, ap,
  List, [], ◌∷◌, All, length, ◌==◌, if◌then◌else◌, arith, bit_or, Bool-cases, lt→leb, le→leb, inl,
  inr, ==_iff,
}
use xbtc.Arith.{zeros, or_at, left_loop, shift_left, right_step, right_loop, shift_right, leb}
use xbtc.Arith.Value.{value, modulus, IsWords, mod_word, modulus_pos, modulus-length}
use xbtc.Arith.Powers.{pow_sum, pow_split, pushed_out, kept, stays, mod_is, room}

left_loop-suc :
    (shift j : ℕ) (xs : List ℕ) (p : ℕ) (pn : List ℕ)
    → left_loop shift (suc j) xs (p ∷ pn) ≡ p ∷ left_loop shift j xs pn
unfolding left_loop or_at
left_loop-suc shift j [] p pn = refl
left_loop-suc shift j (x ∷ xs) p pn = elim (Bool-cases (shift == 0)) [
  | inl e ↦ rw e (left_loop-suc shift (suc j) xs p (or_at j (x * 2 ^ shift % 2 ^ 32) pn))
  | inr e ↦ rw e (
      left_loop-suc shift (suc j) xs p
        (or_at j (x * 2 ^ shift % 2 ^ 32) (or_at (suc j) (x / 2 ^ (32 - shift)) pn)))
]

pub zeros-IsWords : (n : ℕ) → IsWords (zeros n)
unfolding zeros
zeros-IsWords zero = tt
zeros-IsWords (suc n) = (omega arith, zeros-IsWords n)

pub value-zeros : (n : ℕ) → value (zeros n) ≡ 0
unfolding value zeros
value-zeros zero = refl
value-zeros (suc n) = omega (arith, value-zeros n)

pub word_or :
    (h x r : ℕ) → h < 2 ^ r → r ≤ 32 → bit_or h (x * 2 ^ r % 2 ^ 32) ≡ h + x * 2 ^ r % 2 ^ 32
word_or h x r small le = rw (stays x r le) (bit_or_disjoint r h (x % 2 ^ (32 - r)) small)

pub or_nothing : (y : ℕ) → bit_or 0 y ≡ y
or_nothing y =
    ap (bit_or 0) {x = y} {y = y * 2 ^ 0} (omega arith)
    ∙ bit_or_disjoint 0 0 y (omega arith)
    ∙ omega arith

-- The two parts of a word that is shifted to the left.
pushed :
    (x shift h n : ℕ)
    → shift < 32
    → x < 2 ^ 32
    → (if shift == 0 then h ∷ 0 ∷ zeros n else h ∷ bit_or 0 (x / 2 ^ (32 - shift)) ∷ zeros n)
      ≡ h ∷ x * 2 ^ shift / 2 ^ 32 ∷ zeros n
pushed x shift h n lt hx = elim (Bool-cases (shift == 0)) [
  | inl e ↦ rw (e, (==_iff shift 0).0 e) (ap (λ y. h ∷ y ∷ zeros n) (omega (arith, hx)))
  | inr e ↦
      rw (e, or_nothing (x / 2 ^ (32 - shift)))
        (ap (λ y. h ∷ y ∷ zeros n) (sym (pushed_out x shift (omega (arith, lt)))))
]

left_loop-nil : (shift j : ℕ) (xs : List ℕ) → left_loop shift j xs [] ≡ []
unfolding left_loop or_at
left_loop-nil shift j [] = refl
left_loop-nil shift j (x ∷ xs) = elim (Bool-cases (shift == 0)) [
  | inl e ↦ rw e (left_loop-nil shift (suc j) xs)
  | inr e ↦ rw e (left_loop-nil shift (suc j) xs)
]

low_part : (h x r : ℕ) → h < 2 ^ r → r ≤ 32 → (h + x * 2 ^ r) % 2 ^ 32 ≡ h + x * 2 ^ r % 2 ^ 32
low_part h x r small le =
    let y = x * 2 ^ r in
    mod_is (h + y) (2 ^ 32) (y / 2 ^ 32) (h + y % 2 ^ 32) (omega (arith, small, room x r le))
      (omega arith)

high_part : (h x r : ℕ) → h < 2 ^ r → r ≤ 32 → (h + x * 2 ^ r) / 2 ^ 32 ≡ x * 2 ^ r / 2 ^ 32
high_part h x r small le = let y = x * 2 ^ r in omega (arith, small, room x r le)

one_zero : (h : ℕ) → h + 2 ^ 32 * 0 ≡ h
one_zero h = omega arith

out_small : (x r : ℕ) → x < 2 ^ 32 → r < 32 → x / 2 ^ (32 - r) < 2 ^ r
out_small x r hx lt =
    (div-lt_iff_lt-mul {k = 2 ^ (32 - r)} {x = x} {y = 2 ^ r} (pow_pos (32 - r))).1
      (omega (arith, hx, pow_split r 32 (omega (arith, lt)), mul_comm (2 ^ r) (2 ^ (32 - r))))

either : (b : Bool) (xs : List ℕ) → (if b then xs else xs) ≡ xs
either true xs = refl
either false xs = refl

pub spread : (h x v q : ℕ) → h + (x + 2 ^ 32 * v) * q ≡ h + x * q + 2 ^ 32 * (v * q)
spread h x v q = omega (arith, add-mul x (2 ^ 32 * v) q, mul_assoc (2 ^ 32) v q)

next_word :
    (h x v r m : ℕ)
    → h < 2 ^ r
    → r ≤ 32
    → 0 < m
    → h + x * 2 ^ r % 2 ^ 32 + 2 ^ 32 * ((x * 2 ^ r / 2 ^ 32 + v * 2 ^ r) % m)
      ≡ (h + (x + 2 ^ 32 * v) * 2 ^ r) % (2 ^ 32 * m)
next_word h x v r m small le pos =
    let q = 2 ^ r in
    rw (← low_part h x r small le, ← high_part h x r small le)
      (sym (mod_word (h + x * q) (v * q) m pos) ∙ ap (λ n. n % (2 ^ 32 * m)) (sym (spread h x v q)))

-- From the second word on: `h` is what is left of the word before.
value-left_loop :
    (shift h n : ℕ) (xs : List ℕ)
    → shift < 32
    → h < 2 ^ shift
    → IsWords xs
    → value (left_loop shift 0 xs (h ∷ zeros n))
      ≡ (h + value xs * 2 ^ shift) % (2 ^ 32 * modulus (zeros n))
unfolding left_loop value modulus zeros or_at
value-left_loop shift h n [] lt small w =
    let m = modulus (zeros n) in
    let q : 2 ^ shift ≤ 2 ^ 32 =
      pow-le-pow_right {n = 2} (omega arith) {i = shift} {j = 32} (omega (arith, lt)) in
    rw (value-zeros n) (
      one_zero h
      ∙ sym (
          ap (λ k. k % (2 ^ 32 * m)) {x = h + 0 * 2 ^ shift} {y = h} (omega arith)
          ∙ mod-eq_of_lt {n = h} {m = 2 ^ 32 * m} (omega (arith, small, q, modulus_pos (zeros n)))))
value-left_loop shift h zero (x ∷ xs) lt small (hx, w) =
    let q = 2 ^ shift in
    rw
      (
        either (shift == 0) (h ∷ []),
        left_loop-suc shift 0 xs (bit_or h (x * q % 2 ^ 32)) [],
        left_loop-nil shift 0 xs,
        word_or h x shift small (omega (arith, lt)),
      )
      (ap (λ n. h + x * q % 2 ^ 32 + 2 ^ 32 * n) (sym (mod-one (x * q / 2 ^ 32 + value xs * q)))
        ∙ next_word h x (value xs) shift 1 small (omega (arith, lt)) (omega arith))
value-left_loop shift h (suc n) (x ∷ xs) lt small (hx, w) =
    let q = 2 ^ shift in
    let h' = x * q / 2 ^ 32 in
    let small' : h' < q =
      omega (arith, pushed_out x shift (omega (arith, lt)), out_small x shift hx lt) in
    rw
      (
        pushed x shift h n lt hx,
        left_loop-suc shift 0 xs (bit_or h (x * q % 2 ^ 32)) (h' ∷ zeros n),
        word_or h x shift small (omega (arith, lt)),
        value-left_loop shift h' n xs lt small' w,
      )
      (next_word h x (value xs) shift (2 ^ 32 * modulus (zeros n)) small (omega (arith, lt))
        (omega (arith, modulus_pos (zeros n))))

pub length-zeros : (n : ℕ) → length (zeros n) ≡ n
unfolding zeros
length-zeros zero = refl
length-zeros (suc n) = ap suc (length-zeros n)

word_up : (v m : ℕ) → 0 < m → 0 + 2 ^ 32 * (v % m) ≡ 2 ^ 32 * v % (2 ^ 32 * m)
word_up v m pos = sym (
    mod_is (2 ^ 32 * v) (2 ^ 32 * m) (v / m) (0 + 2 ^ 32 * (v % m)) (omega (arith, mod-lt v pos))
      (omega (arith, mod-add-div v m, mul_assoc (2 ^ 32) m (v / m))))

pub power_up : (v k s : ℕ) → v * 2 ^ (32 * suc k + s) ≡ 2 ^ 32 * (v * 2 ^ (32 * k + s))
power_up v k s =
    let p = 2 ^ (32 * k + s) in
    ap (λ e. v * 2 ^ e) {x = 32 * suc k + s} {y = 32 + (32 * k + s)} (omega arith)
    ∙ ap (λ n. v * n) (pow_sum 32 (32 * k + s))
    ∙ (sym (mul_assoc v (2 ^ 32) p)
        ∙ ap (λ n. n * p) (mul_comm v (2 ^ 32))
        ∙ mul_assoc (2 ^ 32) v p)

-- From the word on at which the shift begins.
left_loop-offset :
    (shift k n : ℕ) (xs : List ℕ)
    → shift < 32
    → IsWords xs
    → value (left_loop shift k xs (zeros n)) ≡ value xs * 2 ^ (32 * k + shift) % modulus (zeros n)
unfolding value modulus zeros
left_loop-offset shift k zero xs lt w =
    rw (left_loop-nil shift k xs) (sym (mod-one (value xs * 2 ^ (32 * k + shift))))
left_loop-offset shift zero (suc n) xs lt w =
    value-left_loop shift 0 n xs lt (pow_pos shift) w
    ∙ ap (λ e. (0 + value xs * 2 ^ e) % (2 ^ 32 * modulus (zeros n))) {x = shift}
        {y = 32 * 0 + shift} (omega arith)
    ∙ ap (λ y. y % (2 ^ 32 * modulus (zeros n))) {x = 0 + value xs * 2 ^ (32 * 0 + shift)}
        (omega arith)
left_loop-offset shift (suc k) (suc n) xs lt w =
    let m = modulus (zeros n) in
    let v = value xs * 2 ^ (32 * k + shift) in
    rw (left_loop-suc shift k xs 0 (zeros n), left_loop-offset shift k n xs lt w)
      (word_up v m (modulus_pos (zeros n))
        ∙ ap (λ y. y % (2 ^ 32 * m)) (sym (power_up (value xs) k shift)))

pub value-shift_left :
    (n : ℕ) (a : List ℕ) → IsWords a → value (shift_left n a) ≡ value a * 2 ^ n % modulus a
unfolding shift_left
value-shift_left n a w =
    left_loop-offset (n % 32) (n / 32) (length a) a (mod-lt n (omega arith)) w
    ∙ ap (λ k. value a * 2 ^ k % modulus (zeros (length a))) {x = 32 * (n / 32) + n % 32} {y = n}
        (omega arith)
    ∙ ap (λ m. value a * 2 ^ n % m) (modulus-length (zeros (length a)) a (length-zeros (length a)))
