-- ===== src/Arith/Shift/Right.antt =====
-- operator>>= of src/util/arith_uint256.cpp divides by a power of two.
use native.Mathlib.Nat.{
  mod-lt, mul_assoc, mul_comm, div-lt_iff_lt-mul, zero-div, add-mul-div_left, div-div-eq-div-mul,
}
use xbtc.Base.Bits.{pow_pos}
use xbtc.Base.{
  ℕ, zero, suc, ◌+◌, ◌-◌, ◌*◌, ◌/◌, ◌%◌, ◌^◌, ◌≤◌, ◌<◌, ◌≡◌, refl, sym, ◌∙◌, ap, List, [], ◌∷◌,
  length, ◌==◌, arith, Bool-cases, lt→leb, le→leb, inl, inr, ==_iff,
}
use xbtc.Arith.{zeros, or_at, right_step, right_loop, shift_right, leb}
use xbtc.Arith.Value.{value, IsWords}
use xbtc.Arith.Shift.{value-zeros, word_or, or_nothing, spread}
use xbtc.Arith.Powers.{pow_sum, pow_split, kept}

right_step-before : (k shift i x : ℕ) (pn : List ℕ) → i < k → right_step k shift i x pn ≡ pn
unfolding right_step
right_step-before k shift i x pn h = rw (lt→leb (k + 1) i (omega (arith, h)), lt→leb k i h) refl

right_step-suc :
    (k shift i x : ℕ) (p : ℕ) (pn : List ℕ)
    → k < i
    → right_step k shift (suc i) x (p ∷ pn) ≡ p ∷ right_step k shift i x pn
unfolding right_step or_at
right_step-suc k shift i x p pn h =
    let a : suc i - k ≡ suc (i - k) = omega (arith, h) in
    let b : suc (i - k) - 1 ≡ suc (i - k - 1) = omega (arith, h) in
    rw
      (
        a,
        b,
        le→leb (k + 1) (suc i) (omega (arith, h)),
        le→leb k (suc i) (omega (arith, h)),
        le→leb (k + 1) i (omega (arith, h)),
        le→leb k i (omega (arith, h)),
      )
      (elim (Bool-cases (shift == 0)) [ inl e ↦ rw e refl | inr e ↦ rw e refl ])

right_loop-suc :
    (k shift i : ℕ) (xs : List ℕ) (p : ℕ) (pn : List ℕ)
    → k < i
    → right_loop k shift (suc i) xs (p ∷ pn) ≡ p ∷ right_loop k shift i xs pn
unfolding right_loop
right_loop-suc k shift i [] p pn h = refl
right_loop-suc k shift i (x ∷ xs) p pn h =
    rw (right_step-suc k shift i x p pn h)
      (right_loop-suc k shift (suc i) xs p (right_step k shift i x pn) (omega (arith, h)))

right_step-skip :
    (k shift i x : ℕ) (pn : List ℕ)
    → right_step (suc k) shift (suc i) x pn ≡ right_step k shift i x pn
unfolding right_step
right_step-skip k shift i x pn =
    let a : suc i - suc k ≡ i - k = omega arith in
    let b : leb (suc k + 1) (suc i) ≡ leb (k + 1) i = ground arith in
    let c : leb (suc k) (suc i) ≡ leb k i = ground arith in rw (a, b, c) refl

-- The words that fall out at the bottom.
right_loop-skip :
    (k shift i : ℕ) (xs pn : List ℕ)
    → right_loop (suc k) shift (suc i) xs pn ≡ right_loop k shift i xs pn
unfolding right_loop
right_loop-skip k shift i [] pn = refl
right_loop-skip k shift i (x ∷ xs) pn =
    rw (right_step-skip k shift i x pn)
      (right_loop-skip k shift (suc i) xs (right_step k shift i x pn))

aligned : (x s : ℕ) → s ≡ 0 → x * 2 ^ (32 - s) % 2 ^ 32 ≡ 0
aligned x s e = ap (λ r. x * 2 ^ (32 - r) % 2 ^ 32) e ∙ omega arith

in_place : (x r : ℕ) → x < 2 ^ 32 → r < 32 → x / 2 ^ r < 2 ^ (32 - r)
in_place x r hx lt =
    (div-lt_iff_lt-mul {k = 2 ^ r} {x = x} {y = 2 ^ (32 - r)} (pow_pos r)).1
      (omega (arith, hx, pow_split r 32 (omega (arith, lt))))

-- From the second word on: `h` is what the word before has put into its place.
right_pushed :
    (shift h x : ℕ) (zs : List ℕ)
    → shift < 32
    → h < 2 ^ (32 - shift)
    → x < 2 ^ 32
    → right_step 0 shift 1 x (h ∷ 0 ∷ zs) ≡ (h + x * 2 ^ (32 - shift) % 2 ^ 32) ∷ x / 2 ^ shift ∷ zs
unfolding right_step or_at
right_pushed shift h x zs lt small hx = elim (Bool-cases (shift == 0)) [
  | inl e ↦
      rw (e, or_nothing (x / 2 ^ shift))
        (ap (λ y. y ∷ x / 2 ^ shift ∷ zs) (omega (arith, aligned x shift ((==_iff shift 0).0 e))))
  | inr e ↦ rw (e, or_nothing (x / 2 ^ shift), word_or h x (32 - shift) small (omega arith)) refl
]

value-right_loop :
    (shift h n : ℕ) (xs : List ℕ)
    → shift < 32
    → h < 2 ^ (32 - shift)
    → IsWords xs
    → length xs ≤ n
    → value (right_loop 0 shift 1 xs (h ∷ zeros n)) ≡ h + value xs * 2 ^ (32 - shift)
unfolding value right_loop zeros
value-right_loop shift h n [] lt small w le = rw (value-zeros n) omega arith
value-right_loop shift h zero (x ∷ xs) lt small w le = absurd (omega (arith, le))
value-right_loop shift h (suc n) (x ∷ xs) lt small (hx, w) le =
    let p = 2 ^ (32 - shift) in
    rw
      (
        right_pushed shift h x (zeros n) lt small hx,
        right_loop-suc 0 shift 1 xs (h + x * p % 2 ^ 32) (x / 2 ^ shift ∷ zeros n) (omega arith),
        value-right_loop shift (x / 2 ^ shift) n xs lt (in_place x shift hx lt) w
            (omega (arith, le)),
      )
      (omega (arith, spread h x (value xs) p, kept x shift (omega (arith, lt))))

first_word :
    (x v s : ℕ) → s < 32 → (x + 2 ^ 32 * v) / 2 ^ (32 * 0 + s) ≡ x / 2 ^ s + v * 2 ^ (32 - s)
first_word x v s lt =
    let p = 2 ^ (32 - s) in
    let q = 2 ^ s in
    let whole : 2 ^ 32 * v ≡ q * (v * p) =
      ap (λ n. n * v) (pow_split s 32 (omega (arith, lt)))
      ∙ mul_comm (p * q) v
      ∙ sym (mul_assoc v p q)
      ∙ mul_comm (v * p) q in
    ap (λ e. (x + 2 ^ 32 * v) / 2 ^ e) {x = 32 * 0 + s} {y = s} (omega arith)
    ∙ ap (λ n. (x + n) / q) whole
    ∙ add-mul-div_left x (v * p) (pow_pos s)

right_loop-offset :
    (shift k n : ℕ) (xs : List ℕ)
    → shift < 32
    → IsWords xs
    → length xs ≤ n
    → value (right_loop k shift 0 xs (zeros n)) ≡ value xs / 2 ^ (32 * k + shift)
unfolding value right_loop zeros
right_loop-offset shift k n [] lt w le = value-zeros n ∙ sym (zero-div (2 ^ (32 * k + shift)))
right_loop-offset shift k zero (x ∷ xs) lt w le = absurd (omega (arith, le))
right_loop-offset shift zero (suc n) (x ∷ xs) lt (hx, w) le =
    rw
      (
        or_nothing (x / 2 ^ shift),
        value-right_loop shift (x / 2 ^ shift) n xs lt (in_place x shift hx lt) w
            (omega (arith, le)),
      )
      (sym (first_word x (value xs) shift lt))
right_loop-offset shift (suc k) (suc n) (x ∷ xs) lt (hx, w) le =
    let m = 2 ^ (32 * k + shift) in
    rw
      (
        right_step-before (suc k) shift 0 x (0 ∷ zeros n) (omega arith),
        right_loop-skip k shift 0 xs (0 ∷ zeros n),
      )
      (right_loop-offset shift k (suc n) xs lt w (omega (arith, le))
        ∙ (ap (λ n. n / m) (sym (omega (arith, hx)))
            ∙ div-div-eq-div-mul (x + 2 ^ 32 * value xs) (2 ^ 32) m
            ∙ ap (λ n. (x + 2 ^ 32 * value xs) / n)
                (sym (pow_sum 32 (32 * k + shift))
                  ∙ ap (λ e. 2 ^ e) {x = 32 + (32 * k + shift)} {y = 32 * suc k + shift}
                      (omega arith))))

pub value-shift_right : (n : ℕ) (a : List ℕ) → IsWords a → value (shift_right n a) ≡ value a / 2 ^ n
unfolding shift_right
value-shift_right n a w =
    right_loop-offset (n % 32) (n / 32) (length a) a (mod-lt n (omega arith)) w (omega arith)
    ∙ ap (λ k. value a / 2 ^ k) {x = 32 * (n / 32) + n % 32} {y = n} (omega arith)
