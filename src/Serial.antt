-- ===== src/Serial.antt =====
-- src/util/serialization.hpp and .cpp: the variable-length encodings of numbers, strings and
-- vectors. The definitions are here; the children hold the proofs.
pub mod Compact
pub mod VarInt
pub mod Vector
mod Runs
use xbtc.Base.{
  ℕ, zero, suc, ◌+◌, ◌-◌, ◌*◌, ◌/◌, ◌%◌, ◌^◌, Bool, true, false, ◌&&◌, Option, none, some, List, [],
  ◌∷◌, ◌++◌, length, ◌>>=◌, ltb, leb, ◌==◌, if◌then◌else◌, bit_and, bit_or,
}
use xbtc.Stream.{Streams}

-- numeric_limits<T>::max() for the types that are read.
abbrev pub int_max : ℕ
int_max = 2 ^ 31 - 1

abbrev pub uint32_max : ℕ
uint32_max = 2 ^ 32 - 1

abbrev pub uint64_max : ℕ
uint64_max = 2 ^ 64 - 1

-- The buffer of writeInteger for `k` bits.
abbrev pub temp_buf_size : ℕ → ℕ
temp_buf_size bits = (bits + 6) / 7

-- The loop of writeInteger. `pos` counts the buffer's free bytes, `bs` is what stands after them;
-- `none` is the failure of `assert(pos >= 0)`.
unfoldable pub write_integer_loop : ℕ → ℕ → List ℕ → Bool → Option (List ℕ)
write_integer_loop zero val bs ending = none
write_integer_loop (suc pos) val bs ending =
    let byte = bit_and val 0x7f in
    let bs' = (if ending then byte else bit_or byte 0x80) ∷ bs in
    let rest = write_integer_loop pos (val / 128 - 1) bs' false in
    if leb val 0x7f then some bs' else rest

module _ (xul : Streams) where
  open xul use {Input, Output, read_uint, write_uint, write_bytes}

  unfoldable pub read_compact_size : Input → Option (ℕ × Input)
  read_compact_size s = do
    (tag, s1) ← read_uint 1 s
    if tag == 0xfd
        then read_uint 2 s1
        else if tag == 0xfe
        then read_uint 4 s1
        else if tag == 0xff
        then read_uint 8 s1
        else some (tag, s1)

  unfoldable pub write_compact_size : ℕ → Output → Output
  write_compact_size val o =
      if ltb val 0xfd
      then write_uint 1 val o
      else if leb val 0xffff
      then write_uint 2 val (write_uint 1 0xfd o)
      else if leb val 0xffffffff
      then write_uint 4 val (write_uint 1 0xfe o)
      else write_uint 8 val (write_uint 1 0xff o)

  unfoldable pub read_string : ℕ → Input → Option (List ℕ × Input)
  unfolding read_compact_size
  read_string maxsize s = do
    (size, s1) ← read_compact_size s
    if ltb maxsize size then none else xul.read_string size s1

  unfoldable pub write_string : List ℕ → Output → Output
  write_string xs o = write_bytes xs (write_compact_size (length xs) o)

  -- The loop of readInteger; the outer `none` means that the fuel ran out. `max` is the largest
  -- value of the type.
  unfoldable pub read_integer_loop : ℕ → ℕ → ℕ → Input → Option (Option (ℕ × Input))
  read_integer_loop zero max n s = none
  read_integer_loop (suc fuel) max n s =
      if ltb (max / 128) n then some none else elim (read_uint 1 s) [
        | none ↦ some none
        | some (byte, s') ↦
            let n' = n * 128 + bit_and byte 0x7f in
            let rest = read_integer_loop fuel max (n' + 1) s' in
            if bit_and byte 0x80 == 0
            then some (some (n', s'))
            else if n' == max
            then some none
            else rest
      ]

  -- Ten rounds fill 64 bits, so the loop ends in eleven.
  unfoldable pub read_integer : ℕ → Input → Option (ℕ × Input)
  read_integer max s = elim (read_integer_loop 11 max 0 s) [ none ↦ none | some r ↦ r ]

  -- `none`, as a writer, is a failed assertion.
  unfoldable pub write_integer : ℕ → ℕ → Output → Option Output
  write_integer bits n o = do
    bs ← write_integer_loop (temp_buf_size bits) n [] true
    some (write_bytes bs o)

  module _ {A : Type 0} (read : Input → Option (A × Input)) where
    unfoldable pub read_items : ℕ → Input → Option (List A × Input)
    read_items zero s = some ([], s)
    read_items (suc count) s = do
      (item, s1) ← read s
      (items, s2) ← read_items count s1
      some (item ∷ items, s2)

    unfoldable pub read_vector : ℕ → Input → Option (List A × Input)
    read_vector maxcount s = do
      (count, s1) ← read_compact_size s
      if ltb maxcount count then none else read_items count s1

  module _ {A : Type 0} (write : A → Output → Output) where
    unfoldable pub write_items : List A → Output → Output
    write_items [] o = o
    write_items (item ∷ items) o = write_items items (write item o)

    unfoldable pub write_vector : List A → Output → Output
    write_vector items o = write_items items (write_compact_size (length items) o)
