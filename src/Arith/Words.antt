-- ===== src/Arith/Words.antt =====
-- The operations of src/util/arith_uint256.cpp on words keep their number and leave words of 32 bits.
use native.Mathlib.Nat.{mod-lt, div-le_self}
use xbtc.Base.Bits.{or_digit, pow_double}
use xbtc.Base.{
  ◌&&◌, ℕ, zero, suc, ◌+◌, ◌-◌, ◌*◌, ◌/◌, ◌%◌, ◌^◌, ◌<◌, ◌≡◌, refl, ◌∙◌, ap, Bool, true, false,
  List, [], ◌∷◌, length, ◌==◌, if◌then◌else◌, arith, bit_or, subst,
}
use xbtc.Arith.{zeros, or_at, left_loop, shift_left, right_step, right_loop, shift_right, leb, not}
use xbtc.Arith.Value.{IsWords}
use xbtc.Arith.Shift.{zeros-IsWords, length-zeros}

or_bound : (k a b : ℕ) → a < 2 ^ k → b < 2 ^ k → bit_or a b < 2 ^ k
or_bound zero a b ha hb =
    let za : a ≡ 0 = omega (arith, ha) in
    let zb : b ≡ 0 = omega (arith, hb) in rw (za, zb) (omega arith)
or_bound (suc k) a b ha hb = omega (
  arith,
  or_digit a b,
  pow_double k,
  or_bound k (a / 2) (b / 2) (omega (arith, ha, pow_double k)) (omega (arith, hb, pow_double k)),
)

-- A list of `n` words.
pub record IsNumber (n : ℕ) (xs : List ℕ) : Type 0 where
  pub words : IsWords xs
  pub size : length xs ≡ n

or_at-IsWords : (j y : ℕ) (xs : List ℕ) → y < 2 ^ 32 → IsWords xs → IsWords (or_at j y xs)
unfolding or_at
or_at-IsWords j y [] h w = tt
or_at-IsWords zero y (x ∷ xs) h (hx, w) = (or_bound 32 x y hx h, w)
or_at-IsWords (suc j) y (x ∷ xs) h (hx, w) = (hx, or_at-IsWords j y xs h w)

length-or_at : (j y : ℕ) (xs : List ℕ) → length (or_at j y xs) ≡ length xs
unfolding or_at
length-or_at j y [] = refl
length-or_at zero y (x ∷ xs) = refl
length-or_at (suc j) y (x ∷ xs) = ap suc (length-or_at j y xs)

pub or_at-IsNumber :
    {n : ℕ} {xs : List ℕ} (j y : ℕ) → y < 2 ^ 32 → IsNumber n xs → IsNumber n (or_at j y xs)
or_at-IsNumber {xs = xs} j y h w = record {
  words = or_at-IsWords j y xs h w.words;
  size = length-or_at j y xs ∙ w.size;
}

pub zeros-IsNumber : (n : ℕ) → IsNumber n (zeros n)
zeros-IsNumber n = record { words = zeros-IsWords n; size = length-zeros n }

pub either-IsNumber :
    {n : ℕ} (b : Bool) {xs ys : List ℕ}
    → IsNumber n xs
    → IsNumber n ys
    → IsNumber n (if b then xs else ys)
either-IsNumber true w v = w
either-IsNumber false w v = v

over : (x r : ℕ) → x < 2 ^ 32 → x / 2 ^ r < 2 ^ 32
over x r h = omega (arith, h, div-le_self x (2 ^ r))

pub left_loop-IsNumber :
    (shift j n : ℕ) (xs pn : List ℕ)
    → IsWords xs
    → IsNumber n pn
    → IsNumber n (left_loop shift j xs pn)
unfolding left_loop
left_loop-IsNumber shift j n [] pn h w = w
left_loop-IsNumber shift j n (x ∷ xs) pn (hx, h) w =
    let upper =
      either-IsNumber (shift == 0) w
        (or_at-IsNumber (suc j) (x / 2 ^ (32 - shift)) (over x (32 - shift) hx) w) in
    left_loop-IsNumber shift (suc j) n xs _ h
      (or_at-IsNumber j (x * 2 ^ shift % 2 ^ 32) (mod-lt (x * 2 ^ shift) (omega arith)) upper)

pub shift_left-IsNumber : (k n : ℕ) (xs : List ℕ) → IsNumber n xs → IsNumber n (shift_left k xs)
unfolding shift_left
shift_left-IsNumber k n xs w =
    left_loop-IsNumber (k % 32) (k / 32) n xs (zeros (length xs)) w.words
      (subst (λ m. IsNumber m (zeros (length xs))) w.size (zeros-IsNumber (length xs)))

pub right_loop-IsNumber :
    (k shift i n : ℕ) (xs pn : List ℕ)
    → IsWords xs
    → IsNumber n pn
    → IsNumber n (right_loop k shift i xs pn)
unfolding right_loop right_step
right_loop-IsNumber k shift i n [] pn h w = w
right_loop-IsNumber k shift i n (x ∷ xs) pn (hx, h) w =
    let y = x * 2 ^ (32 - shift) in
    let lower =
      either-IsNumber (leb (k + 1) i && not (shift == 0))
        (or_at-IsNumber (i - k - 1) (y % 2 ^ 32) (mod-lt y (omega arith)) w) w in
    right_loop-IsNumber k shift (suc i) n xs _ h (
      either-IsNumber (leb k i) (or_at-IsNumber (i - k) (x / 2 ^ shift) (over x shift hx) lower)
        lower)

pub shift_right-IsNumber : (k n : ℕ) (xs : List ℕ) → IsNumber n xs → IsNumber n (shift_right k xs)
unfolding shift_right
shift_right-IsNumber k n xs w =
    right_loop-IsNumber (k / 32) (k % 32) 0 n xs (zeros (length xs)) w.words
      (subst (λ m. IsNumber m (zeros (length xs))) w.size (zeros-IsNumber (length xs)))
