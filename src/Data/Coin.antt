-- ===== src/Data/Coin.antt =====
-- src/data/Coin.hpp and Coin.cpp: an unspent output with its height, and its encoding.
use xbtc.Base.{
  ℕ, ◌+◌, ◌*◌, ◌/◌, ◌%◌, ◌^◌, ◌<◌, ◌≡◌, ◌∙◌, ap, Bool, false, Option, some, List, ◌++◌, ◌>>=◌, ◌==◌,
  bit_and, if◌then◌else◌, arith, append_assoc, not,
}
use xbtc.Base.Bits.{bit_and_mask}
use xbtc.Stream.{Streams, Reads, Parses, Emits, Reads-then, Emits-chain, little_endian}
use xbtc.Serial.Compact.{read_uint-Parses}
use xbtc.Data.Transaction.{TransactionOutput}
use xbtc.Data.Transaction.Codec.{read_output, write_output}
use xbtc.Data.Transaction.RoundTrip.{
  IsWireOutput, output_bytes, read_output-Parses, write_output-Emits,
}

pub record Coin : Type 0 where
  pub output : TransactionOutput
  pub height : ℕ
  pub is_coin_base : Bool

-- Coin(): no value, no script.
abbrev pub null_coin : Coin
null_coin = record {
  output = record { value = 0; script_public_key = List.[] };
  height = 0;
  is_coin_base = false;
}

-- The height, shifted, with the coinbase bit below it.
pub height_code : Coin → ℕ
height_code coin = let val = coin.height * 2 % 2 ^ 32 in if coin.is_coin_base then val + 1 else val

module _ (xul : Streams) where
  open xul use {
    Input, Output, bytes, written, open_output, written-open_output, read_uint, write_uint,
    written-write_uint,
  }

  pub read_coin : Input → Option (Coin × Input)
  read_coin s = do
    (output, s1) ← read_output xul s
    (val, s2) ← read_uint 4 s1
    some (record { output = output; height = val / 2; is_coin_base = not (bit_and val 1 == 0) }, s2)

  pub write_coin : Coin → Output → Output
  unfolding height_code
  write_coin coin o = write_uint 4 (height_code coin) (write_output xul coin.output o)

  height_code-height : (coin : Coin) → coin.height < 2 ^ 31 → height_code coin / 2 ≡ coin.height
  unfolding height_code
  height_code-height coin h = ground arith

  height_code-is_coin_base :
      (coin : Coin)
      → coin.height < 2 ^ 31
      → not (bit_and (height_code coin) 1 == 0) ≡ coin.is_coin_base
  height_code-is_coin_base coin h =
      rw (bit_and_mask 1 (height_code coin)) (unfold height_code in ground arith)

  height_code-lt : (coin : Coin) → coin.height < 2 ^ 31 → height_code coin < 2 ^ 32
  unfolding height_code
  height_code-lt coin h = ground arith

  coin_bytes : Coin → List ℕ
  coin_bytes coin = output_bytes coin.output ++ little_endian 4 (height_code coin)

  write_coin-Emits : (coin : Coin) → Emits xul (write_coin coin) (coin_bytes coin)
  unfolding write_coin coin_bytes
  write_coin-Emits coin =
      Emits-chain xul (write_output xul coin.output) (write_uint 4 (height_code coin)) _ _
        (write_output-Emits xul coin.output) (written-write_uint 4 (height_code coin))

  read_coin-Parses :
      (coin : Coin)
      → IsWireOutput coin.output
      → coin.height < 2 ^ 31
      → Parses xul read_coin coin (coin_bytes coin)
  unfolding read_coin coin_bytes
  read_coin-Parses coin w h s rest e =
      Reads-then xul (read_output xul) _ coin.output coin (output_bytes coin.output) _ rest s
        (read_output-Parses xul coin.output w) (simp append_assoc at e)
        λ s1 f.
          Reads-then xul (read_uint 4) _ (height_code coin) coin
            (little_endian 4 (height_code coin)) rest rest s1
            (read_uint-Parses xul 4 (height_code coin) (height_code-lt coin h)) f
            (λ s2 g. (whole, g))
    where
      whole :
          record {
            output = coin.output;
            height = height_code coin / 2;
            is_coin_base = not (bit_and (height_code coin) 1 == 0);
          }
          ≡ coin
      whole = rw (height_code-height coin h, height_code-is_coin_base coin h)

  -- A coin in range, at a height below 2 ^ 31, is read back from what write_coin puts into an
  -- empty stream, whatever follows.
  pub read_coin-write_coin :
      (coin : Coin) (s : Input) (rest : List ℕ)
      → IsWireOutput coin.output
      → coin.height < 2 ^ 31
      → bytes s ≡ written (write_coin coin open_output) ++ rest
      → Reads xul (read_coin s) coin rest
  read_coin-write_coin coin s rest w h e = read_coin-Parses coin w h s rest (
      e
      ∙ ap (λ x. x ++ rest)
          (write_coin-Emits coin open_output ∙ ap (λ x. x ++ coin_bytes coin) written-open_output))
