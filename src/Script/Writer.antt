-- ===== src/Script/Writer.antt =====
-- The writers of script parts of src/script/Script.cpp: ScriptStringWriter, ScriptNumberWriter and
-- ScriptIntegerWriter.
use xbtc.Base.{
  ℕ, ◌+◌, ◌&&◌, ◌%◌, ◌^◌, Option, some, ◌>>=◌, take, List, length, leb, ltb, ◌==◌, if◌then◌else◌,
}
use xbtc.Base.Int.{ℤ, pos, negsuc}
use xbtc.Stream.{Streams}
use xbtc.Script.Number.{encode_script_number}

module _ (xul : Streams) where
  open xul use {Output, write_uint, write_bytes}

  -- The size is an int: from 2 ^ 31 on it is negative, so that its byte is written and no data.
  unfoldable pub write_script_string : List ℕ → Output → Output
  write_script_string value o =
      let size = length value % 2 ^ 32 in
      if leb (2 ^ 31) size
      then write_uint 1 (size % 256) o
      else write_bytes (take size value) (
          if ltb size 0x4c
          then write_uint 1 size o
          else if leb size 0xff
          then write_uint 1 size (write_uint 1 0x4c o)
          else if leb size 0xffff
          then write_uint 2 size (write_uint 1 0x4d o)
          else write_uint 4 size (write_uint 1 0x4e o))

  unfoldable pub write_script_number : ℤ → Output → Option Output
  unfolding write_script_string
  write_script_number val o = encode_script_number val >>= λ v. some (write_script_string v o)

  unfoldable pub write_script_integer : ℤ → Output → Option Output
  unfolding write_script_number
  write_script_integer (pos n) o =
      if leb 1 n && leb n 16
      then some (write_uint 1 (n + 0x50) o)
      else if n == 0
      then some (write_uint 1 0 o)
      else write_script_number (pos n) o
  write_script_integer (negsuc n) o =
      if n == 0 then some (write_uint 1 0x4f o) else write_script_number (negsuc n) o
