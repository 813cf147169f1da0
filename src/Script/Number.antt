-- ===== src/Script/Number.antt =====
-- ScriptUtils::encodeScriptNumber and decodeScriptNumber of Script.cpp. A std::string is the list of
-- its bytes, an int64_t the integer that it stands for.
pub mod Bytes
pub mod RoundTrip
use xbtc.Base.{
  ℕ, zero, suc, ◌+◌, ◌-◌, ◌*◌, ◌/◌, ◌%◌, ◌^◌, Bool, true, false, not, ◌||◌, Option, none, some,
  List, [], ◌∷◌, ◌++◌, length, ◌==◌, leb, ltb, bit_and, bit_or, if◌then◌else◌, ◌>>=◌,
}
use xbtc.Base.Int.{ℤ, pos, negsuc, magnitude, is_negative, signed}

-- The `while (absvalue)` loop: eight rounds use up 64 bits.
unfoldable pub abs_bytes : ℕ → ℕ → List ℕ
abs_bytes zero v = []
abs_bytes (suc fuel) v =
    let rest = abs_bytes fuel (v / 256) in if v == 0 then [] else v % 256 ∷ rest

-- s.back(), of a string that is not empty.
unfoldable pub last_byte : List ℕ → ℕ
last_byte [] = 0
last_byte (b ∷ []) = b
last_byte (b ∷ c ∷ bs) = last_byte (c ∷ bs)

-- s.back() |= 0x80.
unfoldable pub mark_negative : List ℕ → List ℕ
mark_negative [] = []
mark_negative (b ∷ []) = bit_or b 0x80 ∷ []
mark_negative (b ∷ c ∷ bs) = b ∷ mark_negative (c ∷ bs)

-- The bytes for a value that can be negated.
unfoldable pub number_bytes : ℤ → List ℕ
number_bytes val =
    let s = abs_bytes 8 (magnitude val) in
    if magnitude val == 0
    then []
    else if not (bit_and (last_byte s) 0x80 == 0)
    then s ++ (if is_negative val then 0x80 else 0) ∷ []
    else if is_negative val
    then mark_negative s
    else s

-- encodeScriptNumber. `-val` is undefined for the least value of an int64_t: `none`.
unfoldable pub encode_script_number : ℤ → Option (List ℕ)
unfolding number_bytes
encode_script_number val = if ltb (magnitude val) (2 ^ 63) then some (number_bytes val) else none

-- The loop of decodeScriptNumber from byte `i` on. A shift of a byte other than 0 by 64 bits and
-- more is undefined: `none`.
unfoldable pub decode_loop : ℕ → ℕ → List ℕ → Option ℕ
decode_loop i temp [] = some temp
decode_loop i temp (b ∷ bs) = do
  temp' ←
      if b == 0
      then some temp
      else if ltb i 8
      then some (bit_or temp (b * 2 ^ (8 * i) % 2 ^ 64))
      else none
  decode_loop (i + 1) temp' bs

-- `none` is a shift that is undefined, or a failed assertion.
unfoldable pub decode_script_number : List ℕ → Option ℤ
decode_script_number [] = some (pos 0)
decode_script_number (b ∷ bs) =
    let s = b ∷ bs in
    decode_loop 0 0 s >>= λ temp.
    if not (bit_and (last_byte s) 0x80 == 0)
    then (let sign = 0x80 * 2 ^ (8 * (length s - 1)) in
        if ltb 8 (length s) then none else some (signed true (temp - bit_and temp sign)))
    else if ltb temp (2 ^ 63)
    then some (pos temp)
    else none
