-- ===== src/Net/Codec.antt =====
-- MessageEncoder and MessageDecoder of src/net/MessageCodec.cpp, with the header of src/net/Message.hpp and
-- Messages.cpp. The double SHA-256 is a parameter. `none` is a failed assertion, or a read past the end.
pub mod Bytes
pub mod Step
pub mod Pieces
pub mod Frames
pub mod Delivery
use xbtc.Base.{
  ℕ, zero, suc, ◌+◌, ◌-◌, ◌*◌, ◌%◌, ◌^◌, Bool, not, Option, none, some, ◌>>=◌, List, [], ◌∷◌, ◌++◌,
  length, take, drop, ltb, ◌==◌, if◌then◌else◌,
}
use xbtc.Stream.{Streams, little_endian}

pub record MessageHeader : Type 0 where
  pub magic : ℕ
  pub command : List ℕ
  pub length : ℕ
  pub checksum : ℕ

abbrev pub protocol_header_size : ℕ
protocol_header_size = 24

-- What m_buffer of the encoder is resized to.
abbrev pub encoder_buffer_size : ℕ
encoder_buffer_size = 2 ^ 20

abbrev pub max_command_size : ℕ
max_command_size = 12

-- command.assign(buf): the bytes up to the first 0.
unfoldable pub c_string : List ℕ → List ℕ
c_string [] = []
c_string (b ∷ bs) = let rest = b ∷ c_string bs in if b == 0 then [] else rest

-- The number that bytes make, the lowest first.
unfoldable pub from_bytes : List ℕ → ℕ
from_bytes [] = 0
from_bytes (b ∷ bs) = b + 256 * from_bytes bs

-- memset and memcpy of a command into a buffer of 12 bytes.
unfoldable pub zeros : ℕ → List ℕ
zeros zero = []
zeros (suc n) = 0 ∷ zeros n

-- What is written at a position that the stream was set back to.
unfoldable pub overwrite : ℕ → List ℕ → List ℕ → List ℕ
overwrite position xs buffer = take position buffer ++ xs ++ drop (position + length xs) buffer

pub data Decoded : Type 0 where
  incomplete : Decoded
  message : MessageHeader → List ℕ → Decoded

module _ (xul : Streams) (hash : List ℕ → List ℕ) (protocol_magic : ℕ) where
  open xul use {
    Input, Output, written, open_input, open_output, read_uint, read_string, write_uint,
    write_bytes,
  }

  unfoldable pub read_header : Input → Option (MessageHeader × Input)
  unfolding c_string
  read_header s = do
    (magic, s1) ← read_uint 4 s
    (buf, s2) ← read_string 12 s1
    (len, s3) ← read_uint 4 s2
    (checksum, s4) ← read_uint 4 s3
    some (record { magic = magic; command = c_string buf; length = len; checksum = checksum }, s4)

  unfoldable pub write_message_command : List ℕ → Output → Option Output
  unfolding zeros
  write_message_command command o =
      if ltb (length command) max_command_size
      then some (write_bytes (command ++ zeros (max_command_size - length command)) o)
      else none

  -- encode: the bytes of the buffer up to the size that is returned. A message that the buffer has no room for is
  -- `none`: the stream over the buffer would be written beyond its end.
  unfoldable pub encode : List ℕ → (Output → Output) → Option (List ℕ)
  unfolding write_message_command overwrite
  encode command write_object = do
    o1 ← write_message_command command (write_uint 4 protocol_magic open_output)
    let length_pos = length (written o1)
    let o2 = write_uint 4 0 (write_uint 4 0 o1)
    let payload_pos = length (written o2)
    let buffer = written (write_object o2)
    let payload_size = length buffer - payload_pos
    if ltb encoder_buffer_size (length buffer)
        then none
        else some (
            overwrite length_pos
              (little_endian 4 payload_size
                ++ take 4 (hash (take payload_size (drop payload_pos buffer))))
              buffer)

  -- decodeOneMessage. The sum is one of uint32_t; the payload is read where the buffer ends before it, too.
  unfoldable pub decode_one_message : List ℕ → Option Decoded
  unfolding read_header from_bytes
  decode_one_message buf =
      if ltb (length buf) protocol_header_size
      then some incomplete
      else (read_header (open_input buf) >>= λ (header, s).
          if not (header.magic == protocol_magic)
          then none
          else if ltb (length buf) ((header.length + protocol_header_size) % 2 ^ 32)
          then some incomplete
          else if ltb (length buf) (header.length + protocol_header_size)
          then none
          else let payload = take header.length (drop protocol_header_size buf) in
            if from_bytes (take 4 (hash payload)) == header.checksum
            then some (message header payload)
            else none)

  -- The loop of decodeMessages, on fuel: the messages that the listener gets, and what is left.
  unfoldable pub decode_messages_loop : ℕ → List ℕ → Option (List (MessageHeader × List ℕ) × List ℕ)
  unfolding decode_one_message
  decode_messages_loop zero buf = none
  decode_messages_loop (suc fuel) [] = some ([], [])
  decode_messages_loop (suc fuel) (b ∷ bs) = elim (decode_one_message (b ∷ bs)) [
    | none ↦ none
    | some incomplete ↦ some ([], b ∷ bs)
    | some (message header payload) ↦
        decode_messages_loop fuel (drop ((header.length + protocol_header_size) % 2 ^ 32) (b ∷ bs))
        >>= λ (messages, rest). some ((header, payload) ∷ messages, rest)
  ]

  unfoldable pub decode_messages : List ℕ → Option (List (MessageHeader × List ℕ) × List ℕ)
  unfolding decode_messages_loop
  decode_messages buf = decode_messages_loop (suc (length buf)) buf

  -- decode: `buffer` is what earlier calls have left.
  unfoldable pub decode : List ℕ → List ℕ → Option (List (MessageHeader × List ℕ) × List ℕ)
  unfolding decode_messages
  decode buffer data' =
      if length buffer == 0 then decode_messages data' else decode_messages (buffer ++ data')

  -- The calls for the pieces of a stream, in turn.
  unfoldable pub decode_all :
      List ℕ → List (List ℕ) → Option (List (MessageHeader × List ℕ) × List ℕ)
  unfolding decode
  decode_all buffer [] = some ([], buffer)
  decode_all buffer (piece ∷ pieces) = do
    (messages, buffer') ← decode buffer piece
    (messages', rest) ← decode_all buffer' pieces
    some (messages ++ messages', rest)
