-- ===== src/Net/Codec/Delivery.antt =====
-- From one node to another: what is encoded is delivered, however the stream is cut.
use xbtc.Base.{
  ℕ, zero, suc, ◌+◌, ◌%◌, ◌^◌, ◌<◌, ◌≡◌, refl, sym, ◌∙◌, ap, subst, Option, some, ◌>>=◌, List, [],
  ◌∷◌, ◌++◌, map, All, length, drop, arith, length-append, drop-append, ◌≤◌,
}
use xbtc.Stream.{Streams, Emits}
use xbtc.Net.Codec.{decode_messages_loop, MessageHeader, encode, decode_all, protocol_header_size}
use xbtc.Net.Codec.Bytes.{IsBytes, IsBytes-append, IsBytes-right}
use xbtc.Net.Codec.Pieces.{concat, decode_all-decode, decode-loop, loop, deliver, loop_message}
use xbtc.Net.Codec.Frames.{
  frame-IsBytes, IsDigest, HasNoZero, frame, delivered, encode-frame, decode_one_message-frame,
  length-frame,
}

module _ (xul : Streams) (hash : List ℕ → List ℕ) (protocol_magic : ℕ) where
  open xul use {Output}

  -- A message to send: its type, and the write_object that writes the payload.
  pub record Sent : Type 0 where
    pub command : List ℕ
    pub write_object : Output → Output
    pub payload : List ℕ

  pub record IsSendable (s : Sent) : Type 0 where
    pub short : length s.command < 12
    pub command_bytes : IsBytes s.command
    pub zero_free : HasNoZero s.command
    pub fits : 24 + length s.payload ≤ 2 ^ 20
    pub writes : Emits xul s.write_object s.payload
    pub payload_bytes : IsBytes s.payload

  -- The messages, encoded one after the other.
  unfoldable pub encode_all : List Sent → Option (List ℕ)
  encode_all [] = some []
  encode_all (s ∷ sent) = do
    xs ← encode xul hash protocol_magic s.command s.write_object
    ys ← encode_all sent
    some (xs ++ ys)

  abbrev pub received : Sent → MessageHeader × List ℕ
  received s = (delivered xul hash protocol_magic s.command s.payload, s.payload)

  frames : List Sent → List ℕ
  frames [] = []
  frames (s ∷ sent) = frame xul hash protocol_magic s.command s.payload ++ frames sent

  encode_all-frames :
      (sent : List Sent)
      → IsDigest hash
      → All IsSendable sent
      → encode_all sent ≡ some (frames sent)
  unfolding encode_all frames
  encode_all-frames [] digest w = refl
  encode_all-frames (s ∷ sent) digest (v, w) =
      rw
        (
          encode-frame xul hash protocol_magic s.command s.payload s.write_object digest v.short
              v.fits v.writes,
          encode_all-frames sent digest w,
        )
        refl

  loop-frames :
      (m : ℕ) (sent : List Sent)
      → IsDigest hash
      → protocol_magic < 2 ^ 32
      → All IsSendable sent
      → IsBytes (frames sent)
      → length (frames sent) < 2 ^ 31
      → length (frames sent) < m
      → loop xul hash protocol_magic m (frames sent) ≡ some (map received sent, [])
  unfolding frames decode_messages_loop
  loop-frames zero sent digest magic w bytes small f = absurd (omega arith)
  loop-frames (suc m) [] digest magic w bytes small f = refl
  loop-frames (suc m) (s ∷ sent) digest magic (v, w) bytes small f =
      let front = frame xul hash protocol_magic s.command s.payload in
      let size : length front ≡ 24 + length s.payload =
        length-frame xul hash protocol_magic s.command s.payload digest v.short in
      let total : length (front ++ frames sent) ≡ length front + length (frames sent) =
        length-append front (frames sent) in
      let found =
        decode_one_message-frame xul hash protocol_magic s.command s.payload (frames sent) digest
          v.short v.zero_free magic bytes small in
      let step_size : (length s.payload + protocol_header_size) % 2 ^ 32 ≡ length front =
        omega arith in
      let left : drop ((length s.payload + protocol_header_size) % 2 ^ 32) (front ++ frames sent)
          ≡ frames sent =
        ap (λ n. drop n (front ++ frames sent)) step_size ∙ drop-append front (frames sent) in
      let ih =
        loop-frames m sent digest magic w (IsBytes-right front (frames sent) bytes) (omega arith)
          (omega arith) in
      loop_message xul hash protocol_magic m (front ++ frames sent)
        (delivered xul hash protocol_magic s.command s.payload) s.payload (omega arith) found
      ∙ ap
          (λ t.
            deliver xul hash protocol_magic (delivered xul hash protocol_magic s.command s.payload)
              s.payload (loop xul hash protocol_magic m t))
          left
      ∙ ap
          (deliver xul hash protocol_magic (delivered xul hash protocol_magic s.command s.payload)
            s.payload)
          ih

  frames-IsBytes : (sent : List Sent) → IsDigest hash → All IsSendable sent → IsBytes (frames sent)
  unfolding frames
  frames-IsBytes [] digest w = tt
  frames-IsBytes (s ∷ sent) digest (v, w) =
      IsBytes-append (frame xul hash protocol_magic s.command s.payload) (frames sent)
        (frame-IsBytes xul hash protocol_magic s.command s.payload digest v.command_bytes
          v.payload_bytes)
        (frames-IsBytes sent digest w)

  -- For a digest of 32 bytes and a magic number of 32 bits, messages of at most 2 ^ 20 - 24 bytes,
  -- which the buffer of the encoder has room for, that are encoded one after the other, less than
  -- 2 ^ 31 bytes in all, are delivered by the decoder in their order, with nothing left, however
  -- their stream is cut into pieces.
  pub decode_all-encode_all :
      (sent : List Sent) (stream piece : List ℕ) (pieces : List (List ℕ))
      → IsDigest hash
      → protocol_magic < 2 ^ 32
      → All IsSendable sent
      → encode_all sent ≡ some stream
      → length stream < 2 ^ 31
      → piece ++ concat pieces ≡ stream
      → decode_all xul hash protocol_magic [] (piece ∷ pieces) ≡ some (map received sent, [])
  decode_all-encode_all sent stream piece pieces digest magic w e small cut =
      let same : stream ≡ frames sent = some_eq (sym e ∙ encode_all-frames sent digest w) in
      let joined : piece ++ concat pieces ≡ frames sent = cut ∙ same in
      let bytes = frames-IsBytes sent digest w in
      let small' : length (frames sent) < 2 ^ 31 = subst (λ t. length t < 2 ^ 31) same small in
      decode_all-decode xul hash protocol_magic [] piece pieces (subst IsBytes (sym joined) bytes)
        (subst (λ t. length t < 2 ^ 31) (sym joined) small')
      ∙ decode-loop xul hash protocol_magic [] (piece ++ concat pieces)
      ∙ ap (λ t. loop xul hash protocol_magic (suc (length t)) t) joined
      ∙ loop-frames (suc (length (frames sent))) sent digest magic w bytes small' (omega arith)
    where
      some_eq : {a b : List ℕ} → some a ≡ some b → a ≡ b
      some_eq h = cc
