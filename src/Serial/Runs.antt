-- ===== src/Serial/Runs.antt =====
-- The theorems on the integers, strings and lists of the encodings, at concrete values.
use xbtc.Base.{ℕ, ◌≡◌, some, Option, [], ◌∷◌, ◌++◌, arith}
use xbtc.Stream.{Reads, bytes_streams}
use xbtc.Serial.{
  write_compact_size, read_compact_size, read_integer, write_integer, read_integer_loop,
}
use xbtc.Serial.Compact.{compact_bytes, read_compact_size-write_compact_size}
use xbtc.Serial.VarInt.{integer_bytes, read_integer-write_integer, read_integer_loop-ends_64}
open bytes_streams use {
  Input, Output, bytes, written, open_input, open_output, bytes-open_input, write_bytes, read_uint,
}

abbrev sized : Input
sized = open_input (written (write_compact_size bytes_streams 70000 open_output) ++ (1 ∷ []))

read_compact_size-write_compact_size_example :
    Reads bytes_streams (read_compact_size bytes_streams sized) 70000 (1 ∷ [])
read_compact_size-write_compact_size_example =
    read_compact_size-write_compact_size bytes_streams 70000 sized (1 ∷ []) (omega arith)
      (bytes-open_input (written (write_compact_size bytes_streams 70000 open_output) ++ (1 ∷ [])))

abbrev version_input : Input
version_input = open_input (integer_bytes 32 169900 ++ (5 ∷ []))

read_integer-write_integer_example :
    (write_integer bytes_streams 32 169900 open_output
      ≡ some (write_bytes (integer_bytes 32 169900) open_output))
    × Reads bytes_streams (read_integer bytes_streams 0xffffffff version_input) 169900 (5 ∷ [])
read_integer-write_integer_example =
    read_integer-write_integer bytes_streams 32 0xffffffff 169900 open_output version_input (5 ∷ [])
      (omega arith) (omega arith) (omega arith) (omega arith)
      (bytes-open_input (integer_bytes 32 169900 ++ (5 ∷ [])))

abbrev endless : Input
endless = open_input (0xff ∷ 0xff ∷ 0xff ∷ [])

read_integer_loop-ends_64_example :
    (r : Option (ℕ × Input)) × (read_integer_loop bytes_streams 11 0xffffffff 0 endless ≡ some r)
read_integer_loop-ends_64_example =
    read_integer_loop-ends_64 bytes_streams 0xffffffff endless (omega arith)

abbrev too_long : Input
too_long = open_input (compact_bytes 50001 ++ [])
