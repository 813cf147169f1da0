-- ===== src/Net/Codec/Frames.antt =====
-- What encode writes, and what decode makes of it.
use xbtc.Base.{
  ℕ, zero, suc, ◌+◌, ◌-◌, ◌%◌, ◌^◌, ◌≤◌, ◌<◌, ◌≡◌, refl, sym, ◌∙◌, ap, subst, false, some, List, [],
  ◌∷◌, ◌++◌, All, length, take, drop, ◌==◌, arith, lt→ltb, le→ltb, length-append, length-take,
  take-append, drop-append, append_assoc, append-nil, ==_refl, ltb,
}
use xbtc.Stream.{Streams, Emits, little_endian}
use xbtc.Net.Codec.{
  MessageHeader, message, c_string, zeros, overwrite, from_bytes, encode, write_message_command,
  decode_one_message, protocol_header_size, encoder_buffer_size,
}
use xbtc.Net.Codec.Bytes.{
  IsBytes-append, little_endian-IsBytes, IsBytes-take, IsBytes, IsBytes-append, Split,
  little_endian-IsBytes, length-little_endian, from_bytes-little_endian,
}
use xbtc.Net.Codec.Step.{decode_one-judge, header_of, judge}

abbrev pub padded : List ℕ → List ℕ
padded command = command ++ zeros (12 - length command)

-- The digest is one of 32 bytes.
abbrev pub IsDigest : (List ℕ → List ℕ) → Type 0
IsDigest hash = (xs : List ℕ) → IsBytes (hash xs) × (length (hash xs) ≡ 32)

abbrev pub HasNoZero : List ℕ → Type 0
HasNoZero = All (λ b. (b == 0) ≡ false)

length-zeros : (n : ℕ) → length (zeros n) ≡ n
unfolding zeros
length-zeros zero = refl
length-zeros (suc n) = ap suc (length-zeros n)

zeros-IsBytes : (n : ℕ) → IsBytes (zeros n)
unfolding zeros
zeros-IsBytes zero = tt
zeros-IsBytes (suc n) = (omega arith, zeros-IsBytes n)

c_string-zeros : (n : ℕ) → c_string (zeros n) ≡ []
unfolding c_string zeros
c_string-zeros zero = refl
c_string-zeros (suc n) = refl

c_string-padded :
    (command : List ℕ) (n : ℕ) → HasNoZero command → c_string (command ++ zeros n) ≡ command
unfolding c_string
c_string-padded [] n w = c_string-zeros n
c_string-padded (b ∷ bs) n (e, w) = rw (e, c_string-padded bs n w) refl

overwrite-middle :
    (xs old new rest : List ℕ)
    → length old ≡ length new
    → overwrite (length xs) new (xs ++ (old ++ rest)) ≡ xs ++ (new ++ rest)
unfolding overwrite
overwrite-middle xs old new rest h =
    let cut : drop (length xs + length new) (xs ++ (old ++ rest)) ≡ rest =
      subst (λ n. drop n (xs ++ (old ++ rest)) ≡ rest)
        (length-append xs old ∙ ap (λ n. length xs + n) h)
        (ap (drop (length (xs ++ old))) (sym (append_assoc xs old rest))
          ∙ drop-append (xs ++ old) rest) in
    rw (take-append xs (old ++ rest), cut) (append_assoc xs new rest)

module _ (xul : Streams) (hash : List ℕ → List ℕ) (protocol_magic : ℕ) where
  open xul use {
    Output, written, open_output, written-open_output, written-write_uint, written-write_bytes,
    write_uint, write_bytes,
  }

  -- A frame: the four fields of the header, and the payload.
  pub frame : List ℕ → List ℕ → List ℕ
  frame command payload =
      little_endian 4 protocol_magic
      ++ (padded command
          ++ (little_endian 4 (length payload) ++ (take 4 (hash payload) ++ payload)))

  pub encode-frame :
      (command payload : List ℕ) (write_object : Output → Output)
      → IsDigest hash
      → length command < 12
      → 24 + length payload ≤ 2 ^ 20
      → Emits xul write_object payload
      → encode xul hash protocol_magic command write_object ≡ some (frame command payload)
  unfolding encode write_message_command frame overwrite
  encode-frame command payload write_object digest h fits emits =
      let o0 = write_uint 4 protocol_magic open_output in
      let o1 = write_bytes (padded command) o0 in
      let o2 = write_uint 4 0 (write_uint 4 0 o1) in
      let front = little_endian 4 protocol_magic ++ padded command in
      let gap = little_endian 4 0 ++ little_endian 4 0 in
      let w1 : written o1 ≡ front =
        written-write_bytes (padded command) o0
        ∙ ap (λ t. t ++ padded command)
            (written-write_uint 4 protocol_magic open_output
              ∙ ap (λ t. t ++ little_endian 4 protocol_magic) written-open_output) in
      let w2 : written o2 ≡ front ++ gap =
        written-write_uint 4 0 (write_uint 4 0 o1)
        ∙ ap (λ t. t ++ little_endian 4 0)
            (written-write_uint 4 0 o1 ∙ ap (λ t. t ++ little_endian 4 0) w1)
        ∙ append_assoc front (little_endian 4 0) (little_endian 4 0) in
      let w3 : written (write_object o2) ≡ (front ++ gap) ++ payload =
        emits o2 ∙ ap (λ t. t ++ payload) w2 in
      let size : length ((front ++ gap) ++ payload) - length (front ++ gap) ≡ length payload =
        omega (arith, length-append (front ++ gap) payload) in
      let tail : drop (length (front ++ gap)) ((front ++ gap) ++ payload) ≡ payload =
        drop-append (front ++ gap) payload in
      let all : take (length payload) payload ≡ payload =
        ap (take (length payload)) (sym (append-nil payload)) ∙ take-append payload [] in
      let new = little_endian 4 (length payload) ++ take 4 (hash payload) in
      let same : length gap ≡ length new = omega (
        arith,
        length-append (little_endian 4 0) (little_endian 4 0),
        length-append (little_endian 4 (length payload)) (take 4 (hash payload)),
        length-little_endian 4 0,
        length-little_endian 4 (length payload),
        length-take 4 (hash payload),
        (digest payload).1,
      ) in
      let shape : front ++ (new ++ payload) ≡ frame command payload = simp append_assoc in
      let total : length ((front ++ gap) ++ payload) ≡ 24 + length payload = omega (
        arith,
        length-append (front ++ gap) payload,
        length-append front gap,
        length-append (little_endian 4 protocol_magic) (padded command),
        length-append command (zeros (12 - length command)),
        length-zeros (12 - length command),
        length-append (little_endian 4 0) (little_endian 4 0),
        length-little_endian 4 protocol_magic,
        length-little_endian 4 0,
      ) in
      let room : ltb encoder_buffer_size (length ((front ++ gap) ++ payload)) ≡ false =
        ap (ltb encoder_buffer_size) total
        ∙ le→ltb encoder_buffer_size (24 + length payload) fits in
      rw (lt→ltb (length command) 12 h, w1, w2, w3, room, size, tail, all)
        (ap some (
          ap (overwrite (length front) new) (append_assoc front gap payload)
          ∙ overwrite-middle front gap new payload same
          ∙ shape))

  -- The parts of a frame with what follows it.
  parts :
      (command payload rest : List ℕ)
      → IsDigest hash
      → length command < 12
      → Split (frame command payload ++ rest)
  unfolding frame
  parts command payload rest digest h = record {
    magic = little_endian 4 protocol_magic;
    command = padded command;
    len = little_endian 4 (length payload);
    checksum = take 4 (hash payload);
    rest = payload ++ rest;
    whole = simp append_assoc;
    length-magic = length-little_endian 4 protocol_magic;
    length-command = omega (
      arith,
      length-append command (zeros (12 - length command)),
      length-zeros (12 - length command),
    );
    length-len = length-little_endian 4 (length payload);
    length-checksum = omega (arith, length-take 4 (hash payload), (digest payload).1);
  }

  -- What the listener gets for a frame.
  abbrev pub delivered : List ℕ → List ℕ → MessageHeader
  delivered command payload = record {
    magic = protocol_magic;
    command = command;
    length = length payload;
    checksum = from_bytes (take 4 (hash payload));
  }

  pub length-frame :
      (command payload : List ℕ)
      → IsDigest hash
      → length command < 12
      → length (frame command payload) ≡ 24 + length payload
  unfolding frame
  length-frame command payload digest h = omega (
    arith,
    length-append (little_endian 4 protocol_magic) (
        padded command ++ (little_endian 4 (length payload) ++ (take 4 (hash payload) ++ payload))),
    length-append (padded command)
        (little_endian 4 (length payload) ++ (take 4 (hash payload) ++ payload)),
    length-append (little_endian 4 (length payload)) (take 4 (hash payload) ++ payload),
    length-append (take 4 (hash payload)) payload,
    length-append command (zeros (12 - length command)),
    length-zeros (12 - length command),
    length-little_endian 4 protocol_magic,
    length-little_endian 4 (length payload),
    length-take 4 (hash payload),
    (digest payload).1,
  )

  header-parts :
      (command payload rest : List ℕ) (digest : IsDigest hash) (h : length command < 12)
      → HasNoZero command
      → protocol_magic < 2 ^ 32
      → length payload < 2 ^ 32
      → header_of xul hash protocol_magic (parts command payload rest digest h)
        ≡ delivered command payload
  unfolding header_of parts
  header-parts command payload rest digest h zero_free magic small =
      rw
        (
          from_bytes-little_endian 4 protocol_magic (omega arith),
          from_bytes-little_endian 4 (length payload) (omega arith),
          c_string-padded command (12 - length command) zero_free,
        )
        refl

  judge-delivered :
      (command payload rest : List ℕ) (size : ℕ)
      → 24 + length payload ≤ size
      → size < 2 ^ 31
      → judge xul hash protocol_magic (delivered command payload) size (payload ++ rest)
        ≡ some (message (delivered command payload) payload)
  unfolding judge
  judge-delivered command payload rest size h small =
      rw
        (
          ==_refl protocol_magic,
          le→ltb size ((length payload + protocol_header_size) % 2 ^ 32) (omega arith),
          le→ltb size (length payload + protocol_header_size) (omega arith),
          take-append payload rest,
          ==_refl (from_bytes (take 4 (hash payload))),
        )
        refl

  pub decode_one_message-frame :
      (command payload rest : List ℕ)
      → IsDigest hash
      → length command < 12
      → HasNoZero command
      → protocol_magic < 2 ^ 32
      → IsBytes (frame command payload ++ rest)
      → length (frame command payload ++ rest) < 2 ^ 31
      → decode_one_message xul hash protocol_magic (frame command payload ++ rest)
        ≡ some (message (delivered command payload) payload)
  unfolding parts
  decode_one_message-frame command payload rest digest h zero_free magic w small =
      let size = length-frame command payload digest h in
      let total = length-append (frame command payload) rest in
      let p = parts command payload rest digest h in
      decode_one-judge xul hash protocol_magic (frame command payload ++ rest) p w (omega arith)
      ∙ ap
          (λ t.
            judge xul hash protocol_magic t (length (frame command payload ++ rest))
              (payload ++ rest))
          (header-parts command payload rest digest h zero_free magic (omega arith))
      ∙ judge-delivered command payload rest (length (frame command payload ++ rest)) (omega arith)
          (omega arith)

  pub frame-IsBytes :
      (command payload : List ℕ)
      → IsDigest hash
      → IsBytes command
      → IsBytes payload
      → IsBytes (frame command payload)
  unfolding frame
  frame-IsBytes command payload digest v w =
      IsBytes-append (little_endian 4 protocol_magic) _ (little_endian-IsBytes 4 protocol_magic) (
        IsBytes-append (padded command) _
          (IsBytes-append command _ v (zeros-IsBytes (12 - length command)))
          (IsBytes-append (little_endian 4 (length payload)) _
            (little_endian-IsBytes 4 (length payload))
            (IsBytes-append (take 4 (hash payload)) payload
              (IsBytes-take 4 (hash payload) (digest payload).0) w)))
