-- ===== src/Script/Numeric.antt =====
-- The operations of ScriptFunctions.cpp on int64_t. `none` is undefined behaviour: an overflow, a
-- division by zero, a shift out of range or of a negative number to the left.
use xbtc.Base.{
  ℕ, ◌*◌, ◌/◌, ◌%◌, ◌^◌, Bool, not, ◌&&◌, ◌||◌, Option, none, some, ◌>>=◌, ltb, ◌==◌, if◌then◌else◌,
}
use xbtc.Base.Int.{ℤ, pos, negsuc, ◌+ℤ◌, ◌-ℤ◌, ◌*ℤ◌, ltb_ℤ, eq_ℤ, magnitude, is_negative, signed}

abbrev pub in_int64 : ℤ → Bool
in_int64 (pos n) = ltb n (2 ^ 63)
in_int64 (negsuc n) = ltb n (2 ^ 63)

abbrev pub checked : ℤ → Option ℤ
checked v = if in_int64 v then some v else none

abbrev pub of_bool : Bool → ℤ
of_bool b = if b then pos 1 else pos 0

abbrev is_zero : ℤ → Bool
is_zero v = magnitude v == 0

-- `/` and `%` of C++ round towards zero.
unfoldable pub div_int : ℤ → ℤ → Option ℤ
div_int x y =
    if is_zero y
    then none
    else checked (
        signed (not (if is_negative x then is_negative y else not (is_negative y)))
          (magnitude x / magnitude y))

unfoldable pub mod_int : ℤ → ℤ → Option ℤ
unfolding div_int
mod_int x y = div_int x y >>= λ q. some (signed (is_negative x) (magnitude x % magnitude y))

shift_left : ℤ → ℕ → Option ℤ
shift_left (pos n) k = checked (pos (n * 2 ^ k))
shift_left (negsuc n) k = none

-- A right shift of a negative number rounds down, as compilers have it.
shift_right : ℤ → ℕ → Option ℤ
shift_right (pos n) k = some (pos (n / 2 ^ k))
shift_right (negsuc n) k = some (negsuc (n / 2 ^ k))

by_count : (ℕ → Option ℤ) → ℤ → Option ℤ
by_count f (pos k) = if ltb k 64 then f k else none
by_count f (negsuc k) = none

-- The table of UnaryNumberOps, by the distance of the opcode from OP_1ADD.
unfoldable pub unary_op : ℕ → ℤ → Option ℤ
unfolding shift_left shift_right ◌+ℤ◌ ◌-ℤ◌
unary_op index v =
    if index == 0
    then checked (v +ℤ pos 1)
    else if index == 1
    then checked (v -ℤ pos 1)
    else if index == 2
    then shift_left v 1
    else if index == 3
    then shift_right v 1
    else if index == 4
    then checked (pos 0 -ℤ v)
    else if index == 5
    then checked (pos (magnitude v))
    else if index == 6
    then some (of_bool (is_zero v))
    else if index == 7
    then some (of_bool (not (is_zero v)))
    else none

-- The table of BinaryNumberOps, by the distance of the opcode from OP_ADD.
unfoldable pub binary_op : ℕ → ℤ → ℤ → Option ℤ
unfolding shift_left shift_right by_count div_int mod_int ◌+ℤ◌ ◌-ℤ◌ ◌*ℤ◌
binary_op index x y =
    if index == 0
    then checked (x +ℤ y)
    else if index == 1
    then checked (x -ℤ y)
    else if index == 2
    then checked (x *ℤ y)
    else if index == 3
    then div_int x y
    else if index == 4
    then mod_int x y
    else if index == 5
    then by_count (shift_left x) y
    else if index == 6
    then by_count (shift_right x) y
    else if index == 7
    then some (of_bool (not (is_zero x) && not (is_zero y)))
    else if index == 8
    then some (of_bool (not (is_zero x) || not (is_zero y)))
    else if index == 9
    then some (of_bool (eq_ℤ x y))
    else if index == 10
    then some (of_bool (eq_ℤ x y))
    else if index == 11
    then some (of_bool (not (eq_ℤ x y)))
    else if index == 12
    then some (of_bool (ltb_ℤ x y))
    else if index == 13
    then some (of_bool (ltb_ℤ y x))
    else if index == 14
    then some (of_bool (not (ltb_ℤ y x)))
    else if index == 15
    then some (of_bool (not (ltb_ℤ x y)))
    else if index == 16
    then some (if ltb_ℤ x y then x else y)
    else if index == 17
    then some (if ltb_ℤ y x then x else y)
    else none
