-- ===== src/Net/Runs.antt =====
-- The theorems on the frames, at two messages whose stream is cut within the second header.
use xbtc.Base.{
  append-nil, sym, ℕ, ◌%◌, ◌≡◌, refl, none, some, List, [], ◌∷◌, ◌++◌, All, map, length, arith,
}
use xbtc.Stream.{little_endian, bytes_streams}
use xbtc.Net.Codec.{
  decode, from_bytes, decode_all, decode_one_message, zeros, encode, write_message_command,
  overwrite,
}
use xbtc.Net.Codec.Bytes.{split}
use xbtc.Net.Codec.Pieces.{decode_all-decode}
use xbtc.Net.Codec.Step.{decode_one_message_oversized}
use xbtc.Net.Codec.Frames.{IsDigest}
use xbtc.Net.Codec.Delivery.{Sent, IsSendable, encode_all, received, decode_all-encode_all}
open bytes_streams use {written-write_bytes, write_bytes}

abbrev digest : List ℕ → List ℕ
digest xs =
    length xs % 256
    ∷ 1
    ∷ 2
    ∷ 3
    ∷ 4
    ∷ 5
    ∷ 6
    ∷ 7
    ∷ 8
    ∷ 9
    ∷ 10
    ∷ 11
    ∷ 12
    ∷ 13
    ∷ 14
    ∷ 15
    ∷ 16
    ∷ 17
    ∷ 18
    ∷ 19
    ∷ 20
    ∷ 21
    ∷ 22
    ∷ 23
    ∷ 24
    ∷ 25
    ∷ 26
    ∷ 27
    ∷ 28
    ∷ 29
    ∷ 30
    ∷ 31
    ∷ []

digest-IsDigest : IsDigest digest
digest-IsDigest xs = (omega arith, refl)

abbrev magic : ℕ
magic = 0xd9b4bef9

abbrev verack : Sent bytes_streams digest magic
verack = record {
  command = b'v' ∷ b'e' ∷ b'r' ∷ b'a' ∷ b'c' ∷ b'k' ∷ [];
  write_object = λ o. o;
  payload = [];
}

abbrev ping : Sent bytes_streams digest magic
ping = record {
  command = b'p' ∷ b'i' ∷ b'n' ∷ b'g' ∷ [];
  write_object = write_bytes (7 ∷ 8 ∷ []);
  payload = 7 ∷ 8 ∷ [];
}

abbrev sent : List (Sent bytes_streams digest magic)
sent = verack ∷ ping ∷ []

sent-IsSendable : All (IsSendable bytes_streams digest magic) sent
unfolding bytes_streams
sent-IsSendable = (
  record {
    short = omega arith;
    command_bytes = omega arith;
    zero_free = (refl, (refl, (refl, (refl, (refl, (refl, tt))))));
    fits = omega arith;
    writes = λ o. sym (append-nil o);
    payload_bytes = tt;
  },
  (
    record {
      short = omega arith;
      command_bytes = omega arith;
      zero_free = (refl, (refl, (refl, (refl, tt))));
      fits = omega arith;
      writes = written-write_bytes (7 ∷ 8 ∷ []);
      payload_bytes = omega arith;
    },
    tt,
  ),
)

abbrev first_piece : List ℕ
first_piece =
    249 ∷ 190 ∷ 180 ∷ 217 ∷ 118 ∷ 101 ∷ 114 ∷ 97 ∷ 99 ∷ 107 ∷ 0 ∷ 0 ∷ 0 ∷ 0 ∷ 0 ∷ 0 ∷ 0 ∷ 0 ∷ 0 ∷ 0
    ∷ 0 ∷ 1 ∷ 2 ∷ 3 ∷ 249 ∷ 190 ∷ 180 ∷ 217 ∷ 112 ∷ 105 ∷ 110 ∷ 103 ∷ 0 ∷ 0 ∷ []

abbrev second_piece : List ℕ
second_piece = 0 ∷ 0 ∷ 0 ∷ 0 ∷ 0 ∷ 0 ∷ 2 ∷ 0 ∷ 0 ∷ 0 ∷ 2 ∷ 1 ∷ 2 ∷ 3 ∷ 7 ∷ 8 ∷ []

stream_run : encode_all bytes_streams digest magic sent ≡ some (first_piece ++ second_piece)
unfolding encode_all encode write_message_command overwrite zeros bytes_streams little_endian
stream_run = refl

decode_all-encode_all_example :
    decode_all bytes_streams digest magic [] (first_piece ∷ second_piece ∷ [])
    ≡ some (map (received bytes_streams digest magic) sent, [])
decode_all-encode_all_example =
    decode_all-encode_all bytes_streams digest magic sent (first_piece ++ second_piece) first_piece
      (second_piece ∷ []) digest-IsDigest (omega arith) sent-IsSendable stream_run (omega arith)
      refl

decode_all-decode_example :
    decode_all bytes_streams digest magic [] (first_piece ∷ second_piece ∷ [])
    ≡ decode bytes_streams digest magic [] (first_piece ++ (second_piece ++ []))
decode_all-decode_example =
    decode_all-decode bytes_streams digest magic [] first_piece (second_piece ∷ []) (omega arith)
      (omega arith)

abbrev oversized : List ℕ
oversized =
    249 ∷ 190 ∷ 180 ∷ 217 ∷ 112 ∷ 105 ∷ 110 ∷ 103 ∷ 0 ∷ 0 ∷ 0 ∷ 0 ∷ 0 ∷ 0 ∷ 0 ∷ 0 ∷ 255 ∷ 255 ∷ 255
    ∷ 255 ∷ 0 ∷ 0 ∷ 0 ∷ 0 ∷ []

decode_one_message_oversized_example :
    decode_one_message bytes_streams digest magic oversized ≡ none
unfolding split from_bytes
decode_one_message_oversized_example =
    decode_one_message_oversized bytes_streams digest magic oversized
      (split oversized (omega arith)) (omega arith) (omega arith) (omega arith) (omega arith)
