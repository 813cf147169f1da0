-- ===== src/Arith.antt =====
-- base_uint of src/util/arith_uint256.hpp and .cpp: big integers as lists of 32-bit words, the lowest first. The number of
-- words, WIDTH, is the length of the list: 8 for an arith_uint256.
pub mod Value
pub mod Powers
pub mod Shift
pub mod Words
pub mod Bits
pub mod SetBit
pub mod Divide
pub mod Compact
use Prim.Native.Nat.{compare, Ordering, lt, eq, gt}
use xbtc.Base.{
  ℕ, zero, suc, ◌+◌, ◌-◌, ◌*◌, ◌/◌, ◌%◌, ◌^◌, Bool, true, false, not, ◌&&◌, ◌||◌, Option, none,
  some, List, [], ◌∷◌, map, length, ltb, leb, ◌==◌, if◌then◌else◌, bit_and, bit_or,
}

-- The constructor of a uint64_t, for WIDTH words.
unfoldable pub zeros : ℕ → List ℕ
zeros zero = []
zeros (suc n) = 0 ∷ zeros n

unfoldable pub base_uint : ℕ → List ℕ
unfolding zeros
base_uint b = b % 2 ^ 32 ∷ b / 2 ^ 32 % 2 ^ 32 ∷ zeros 6

-- operator!.
unfoldable pub is_zero : List ℕ → Bool
is_zero [] = true
is_zero (x ∷ xs) = (x == 0) && is_zero xs

-- operator~.
unfoldable pub complement : List ℕ → List ℕ
complement [] = []
complement (x ∷ xs) = (2 ^ 32 - 1 - x) ∷ complement xs

-- operator++.
unfoldable pub increment : List ℕ → List ℕ
increment [] = []
increment (x ∷ xs) =
    let rest = increment xs in let y = (x + 1) % 2 ^ 32 in if y == 0 then y ∷ rest else y ∷ xs

-- Unary operator-.
unfoldable pub negate : List ℕ → List ℕ
unfolding complement increment
negate xs = increment (complement xs)

-- The loop of operator+=.
unfoldable pub add_loop : ℕ → List ℕ → List ℕ → List ℕ
add_loop carry [] b = []
add_loop carry (x ∷ xs) [] = []
add_loop carry (x ∷ xs) (y ∷ ys) = let n = carry + x + y in n % 2 ^ 32 ∷ add_loop (n / 2 ^ 32) xs ys

unfoldable pub add : List ℕ → List ℕ → List ℕ
unfolding add_loop
add a b = add_loop 0 a b

unfoldable pub subtract : List ℕ → List ℕ → List ℕ
unfolding add negate
subtract a b = add a (negate b)

-- compare, from the highest word.
unfoldable pub compare_words : List ℕ → List ℕ → Ordering
compare_words [] b = eq
compare_words (x ∷ xs) [] = eq
compare_words (x ∷ xs) (y ∷ ys) = elim (compare_words xs ys) [
  | lt ↦ lt
  | gt ↦ gt
  | eq ↦ compare x y
]

-- operator>=.
abbrev pub not_below : Ordering → Bool
not_below lt = false
not_below eq = true
not_below gt = true

-- pn[j] |= y, where j is checked against WIDTH.
unfoldable pub or_at : ℕ → ℕ → List ℕ → List ℕ
or_at j y [] = []
or_at zero y (x ∷ xs) = bit_or x y ∷ xs
or_at (suc j) y (x ∷ xs) = x ∷ or_at j y xs

-- The loop of operator<<=, at position j = i + k.
unfoldable pub left_loop : ℕ → ℕ → List ℕ → List ℕ → List ℕ
unfolding or_at
left_loop shift j [] pn = pn
left_loop shift j (x ∷ xs) pn =
    let upper = if shift == 0 then pn else or_at (suc j) (x / 2 ^ (32 - shift)) pn in
    left_loop shift (suc j) xs (or_at j (x * 2 ^ shift % 2 ^ 32) upper)

unfoldable pub shift_left : ℕ → List ℕ → List ℕ
unfolding left_loop zeros
shift_left n a = left_loop (n % 32) (n / 32) a (zeros (length a))

-- The loop of operator>>=, at position i.
unfoldable pub right_step : ℕ → ℕ → ℕ → ℕ → List ℕ → List ℕ
unfolding or_at
right_step k shift i x pn =
    let lower =
      if leb (k + 1) i && not (shift == 0)
      then or_at (i - k - 1) (x * 2 ^ (32 - shift) % 2 ^ 32) pn
      else pn in
    if leb k i then or_at (i - k) (x / 2 ^ shift) lower else lower

unfoldable pub right_loop : ℕ → ℕ → ℕ → List ℕ → List ℕ → List ℕ
unfolding right_step
right_loop k shift i [] pn = pn
right_loop k shift i (x ∷ xs) pn = right_loop k shift (suc i) xs (right_step k shift i x pn)

unfoldable pub shift_right : ℕ → List ℕ → List ℕ
unfolding right_loop zeros
shift_right n a = right_loop (n / 32) (n % 32) 0 a (zeros (length a))

-- bits: the position of the highest bit of a word that is not 0, and of the highest such word.
unfoldable pub word_bits : ℕ → ℕ → ℕ
word_bits zero x = 1
word_bits (suc n) x =
    let rest = word_bits n x in if bit_and x (2 ^ suc n) == 0 then rest else suc n + 1

unfoldable pub bits_from : ℕ → List ℕ → ℕ
unfolding word_bits
bits_from pos [] = 0
bits_from pos (x ∷ xs) =
    let rest = bits_from (suc pos) xs in
    if rest == 0 then (if x == 0 then 0 else 32 * pos + word_bits 31 x) else rest

unfoldable pub bits : List ℕ → ℕ
unfolding bits_from
bits xs = bits_from 0 xs

-- The loop of operator/=, with shift + 1 rounds left.
unfoldable pub divide_loop : ℕ → List ℕ → List ℕ → List ℕ → List ℕ
unfolding compare_words subtract or_at shift_right
divide_loop zero num div pn = pn
divide_loop (suc shift) num div pn =
    let fits = not_below (compare_words num div) in
    divide_loop shift (if fits then subtract num div else num) (shift_right 1 div)
      (if fits then or_at (shift / 32) (2 ^ (shift % 32)) pn else pn)

-- operator/=: `none` is the error on a division by zero.
unfoldable pub divide : List ℕ → List ℕ → Option (List ℕ)
unfolding bits divide_loop shift_left zeros
divide a b =
    if bits b == 0
    then none
    else if ltb (bits a) (bits b)
    then some (zeros (length a))
    else some
        (divide_loop (suc (bits a - bits b)) a (shift_left (bits a - bits b) b) (zeros (length a)))

-- operator*= of a uint32_t.
unfoldable pub multiply_word : ℕ → ℕ → List ℕ → List ℕ
multiply_word b carry [] = []
multiply_word b carry (x ∷ xs) =
    let n = carry + b * x in n % 2 ^ 32 ∷ multiply_word b (n / 2 ^ 32) xs

-- equals, for a uint64_t.
unfoldable pub equals : List ℕ → ℕ → Bool
unfolding is_zero
equals [] b = true
equals (x ∷ []) b = x == b % 2 ^ 32
equals (x ∷ y ∷ xs) b = is_zero xs && (y == b / 2 ^ 32) && (x == b % 2 ^ 32)
