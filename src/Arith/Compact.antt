-- ===== src/Arith/Compact.antt =====
-- The compact form of an arith_uint256: set_compact of src/util/arith_uint256.cpp.
pub mod Size
pub mod Target
use native.Mathlib.Nat.{pow-le-pow_right, mod-eq_of_lt, mul-le-mul_right, div-le_self, add-mul}
use xbtc.Base.Bits.{bit_and_mask, bit_and_bit, pow_pos}
use xbtc.Base.{
  ℕ, zero, suc, ◌+◌, ◌-◌, ◌*◌, ◌/◌, ◌%◌, ◌^◌, ◌≤◌, ◌<◌, ◌≡◌, refl, sym, ◌∙◌, ap, Bool, true, false,
  not, ◌&&◌, ◌||◌, List, ltb, leb, ◌==◌, if◌then◌else◌, arith, bit_and, ◌⊎◌, inl, inr, Bool-cases,
  le_or_lt, leb→le, leb→lt,
}
use xbtc.Arith.{base_uint, shift_left, zeros}
use xbtc.Arith.Powers.{pow_sum, below}
use xbtc.Arith.Divide.{modulus-size}
use xbtc.Arith.Shift.{value-shift_left}
use xbtc.Arith.Value.{modulus, value}
use xbtc.Arith.Words.{IsNumber, either-IsNumber, shift_left-IsNumber}

-- What set_compact leaves: the number and its two flags.
pub record Compact : Type 0 where
  pub number : List ℕ
  pub negative : Bool
  pub overflow : Bool

abbrev pub size_of : ℕ → ℕ
size_of compact = compact / 2 ^ 24

-- nWord, after the shift of a small size.
unfoldable pub word_of : ℕ → ℕ
word_of compact =
    let word = bit_and compact 0x007fffff in
    if leb (size_of compact) 3 then word / 2 ^ (8 * (3 - size_of compact)) else word

unfoldable pub is_negative_compact : ℕ → Bool
unfolding word_of
is_negative_compact compact = not (word_of compact == 0) && not (bit_and compact 0x00800000 == 0)

unfoldable pub is_overflow : ℕ → Bool
unfolding word_of
is_overflow compact =
    let word = word_of compact in
    let size = size_of compact in
    not (word == 0)
    && (ltb 34 size || ((ltb 0xff word && ltb 33 size) || (ltb 0xffff word && ltb 32 size)))

unfoldable pub set_compact : ℕ → Compact
unfolding base_uint shift_left word_of is_negative_compact is_overflow
set_compact compact =
    let word = base_uint (word_of compact) in
    record {
      number =
          if leb (size_of compact) 3 then word else shift_left (8 * (size_of compact - 3)) word;
      negative = is_negative_compact compact;
      overflow = is_overflow compact;
    }

-- The number that the compact form describes, without a bound: the last 23 bits, times a power of 256.
unfoldable pub target : ℕ → ℕ
target compact =
    if leb (size_of compact) 3
    then compact % 2 ^ 23 / 2 ^ (8 * (3 - size_of compact))
    else compact % 2 ^ 23 * 2 ^ (8 * (size_of compact - 3))
