-- ===== src/Net/Codec/Step.antt =====
-- decodeOneMessage: a message that it finds, and a frame that it rejects, are not changed by what follows.
use mathlib.Core.Path.{subst}
use xbtc.Base.{
  ◌-◌, ℕ, ◌+◌, ◌%◌, ◌^◌, ◌≤◌, ◌<◌, ◌≡◌, refl, sym, ◌∙◌, ap, not, true, false, Option, none, some,
  List, ◌++◌, length, take, drop, ltb, ◌==◌, if◌then◌else◌, arith, Bool-cases, inl, inr, lt→ltb,
  le→ltb, le_or_lt, length-append, drop-append, append_assoc,
}
use xbtc.Stream.{Streams, little_endian, Reads, Parses, Reads-then, Reads-eq}
use xbtc.Serial.Compact.{read_uint-Parses}
use xbtc.Net.Codec.{
  MessageHeader, Decoded, incomplete, message, read_header, decode_one_message, c_string,
  from_bytes, protocol_header_size,
}
use xbtc.Net.Codec.Bytes.{
  IsBytes, IsBytes-left, IsBytes-right, Split, split, Split-append, little_endian-from_bytes,
  from_bytes-lt, take-append_le,
}

module _ (xul : Streams) (hash : List ℕ → List ℕ) (protocol_magic : ℕ) where
  open xul use {
    Input, Output, bytes, open_input, bytes-open_input, read_uint, read_string, read_string_lem,
  }

  -- The header that the parts make.
  unfoldable pub header_of : {buf : List ℕ} → Split buf → MessageHeader
  header_of p = record {
    magic = from_bytes p.magic;
    command = c_string p.command;
    length = from_bytes p.len;
    checksum = from_bytes p.checksum;
  }

  read_word :
      (xs : List ℕ) → IsBytes xs → length xs ≡ 4 → Parses xul (read_uint 4) (from_bytes xs) xs
  read_word xs w h s rest e =
      read_uint-Parses xul 4 (from_bytes xs)
        (subst (λ n. from_bytes xs < 256 ^ n) h (from_bytes-lt xs w)) s rest
        (e
          ∙ ap (λ t. t ++ rest)
              (sym (little_endian-from_bytes xs w) ∙ ap (λ n. little_endian n (from_bytes xs)) h))

  read_12 : (xs : List ℕ) → length xs ≡ 12 → Parses xul (read_string 12) xs xs
  read_12 xs h s rest e =
      subst (λ n. Reads xul (read_string n s) xs rest) h (read_string_lem xs s rest e)

  read_header-Reads :
      (buf : List ℕ) (p : Split buf) (s : Input)
      → IsBytes buf
      → bytes s ≡ buf
      → Reads xul (read_header xul hash protocol_magic s) (header_of p) p.rest
  unfolding read_header header_of
  read_header-Reads buf p s w e =
      let w0 = subst IsBytes p.whole w in
      let w1 = IsBytes-right p.magic _ w0 in
      let w2 = IsBytes-right p.command _ w1 in
      let w3 = IsBytes-right p.len _ w2 in
      Reads-then xul (read_uint 4) _ (from_bytes p.magic) _ p.magic _ p.rest s
        (read_word p.magic (IsBytes-left p.magic _ w0) p.length-magic) (e ∙ p.whole)
        λ s1 f1.
          Reads-then xul (read_string 12) _ p.command _ p.command _ p.rest s1
            (read_12 p.command p.length-command) f1
            λ s2 f2.
              Reads-then xul (read_uint 4) _ (from_bytes p.len) _ p.len _ p.rest s2
                (read_word p.len (IsBytes-left p.len _ w2) p.length-len) f2
                λ s3 f3.
                  Reads-then xul (read_uint 4) _ (from_bytes p.checksum) _ p.checksum _ p.rest s3
                    (read_word p.checksum (IsBytes-left p.checksum _ w3) p.length-checksum) f3
                    λ s4 f4. (refl, f4)

  -- What is made of a header and of a buffer of `size` bytes that holds `rest` after it.
  unfoldable pub judge : MessageHeader → ℕ → List ℕ → Option Decoded
  judge header size rest =
      if not (header.magic == protocol_magic)
      then none
      else if ltb size ((header.length + protocol_header_size) % 2 ^ 32)
      then some incomplete
      else if ltb size (header.length + protocol_header_size)
      then none
      else let payload = take header.length rest in
        if from_bytes (take 4 (hash payload)) == header.checksum
        then some (message header payload)
        else none

  rest_of : (buf : List ℕ) (p : Split buf) → drop protocol_header_size buf ≡ p.rest
  rest_of buf p =
      let front = p.magic ++ (p.command ++ (p.len ++ p.checksum)) in
      let size : length front ≡ protocol_header_size = omega (
        arith,
        length-append p.magic (p.command ++ (p.len ++ p.checksum)),
        length-append p.command (p.len ++ p.checksum),
        length-append p.len p.checksum,
        p.length-magic,
        p.length-command,
        p.length-len,
        p.length-checksum,
      ) in
      let joined : p.magic ++ (p.command ++ (p.len ++ (p.checksum ++ p.rest))) ≡ front ++ p.rest =
        simp append_assoc in
      ap (drop protocol_header_size) (p.whole ∙ joined)
      ∙ subst (λ n. drop n (front ++ p.rest) ≡ p.rest) size (drop-append front p.rest)

  pub decode_one-judge :
      (buf : List ℕ) (p : Split buf)
      → IsBytes buf
      → 24 ≤ length buf
      → decode_one_message xul hash protocol_magic buf ≡ judge (header_of p) (length buf) p.rest
  unfolding decode_one_message judge
  decode_one-judge buf p w h =
      let (s, r, e) =
        Reads-eq xul (read_header xul hash protocol_magic (open_input buf)) (header_of p) p.rest
          (read_header-Reads buf p (open_input buf) w (bytes-open_input buf)) in
      rw (le→ltb (length buf) 24 h, r, rest_of buf p) refl

  -- What a result says of the buffer with more bytes.
  abbrev pub Persists : Option Decoded → ℕ → Option Decoded → Type 0
  Persists none size later = later ≡ none
  Persists (some incomplete) size later = Unit {0}
  Persists (some (message header payload)) size later =
      (later ≡ some (message header payload)) × (header.length + protocol_header_size ≤ size)

  judge-Persists :
      (header : MessageHeader) (rest ys : List ℕ)
      → 24 + length (rest ++ ys) < 2 ^ 31
      → Persists
          (judge header (24 + length rest) rest)
          (24 + length rest)
          (judge header (24 + length (rest ++ ys)) (rest ++ ys))
  unfolding judge
  judge-Persists header rest ys small =
      let sum = header.length + protocol_header_size in
      let longer : length (rest ++ ys) ≡ length rest + length ys = length-append rest ys in
      elim (Bool-cases (header.magic == protocol_magic)) [
        | inr e ↦ rw e refl
        | inl e ↦ elim (Bool-cases (ltb (24 + length rest) (sum % 2 ^ 32))) [
          | inl f ↦ rw (e, f) tt
          | inr f ↦
              let f' : ltb (24 + length (rest ++ ys)) (sum % 2 ^ 32) ≡ false =
                ground (arith, longer) in
              elim (Bool-cases (ltb (24 + length rest) sum)) [
                | inl g ↦
                    let g' : ltb (24 + length (rest ++ ys)) sum ≡ true = ground (arith, longer) in
                    rw (e, f, g, f', g') refl
                | inr g ↦
                    let fits : header.length ≤ length rest = ground arith in
                    let g' : ltb (24 + length (rest ++ ys)) sum ≡ false = ground (arith, longer) in
                    let same : take header.length (rest ++ ys) ≡ take header.length rest =
                      take-append_le header.length rest ys fits in
                    elim (Bool-cases
                      (from_bytes (take 4 (hash (take header.length rest))) == header.checksum)) [
                        | inl c ↦ rw (e, f, g, f', g', same, c) (refl, omega arith)
                        | inr c ↦ rw (e, f, g, f', g', same, c) refl
                      ]
              ]
        ]
      ]

  judge_oversized :
      (header : MessageHeader) (size : ℕ) (rest : List ℕ)
      → 24 ≤ size
      → size < 2 ^ 31
      → 2 ^ 32 - 24 ≤ header.length
      → header.length < 2 ^ 32
      → judge header size rest ≡ none
  unfolding judge
  judge_oversized header size rest long small h word =
      elim (Bool-cases (header.magic == protocol_magic)) [
        | inr e ↦ rw e refl
        | inl e ↦
            rw
              (
                e,
                le→ltb size ((header.length + protocol_header_size) % 2 ^ 32) (omega arith),
                lt→ltb size (header.length + protocol_header_size) (omega arith),
              )
              refl
      ]

  length-Split : (buf : List ℕ) (p : Split buf) → length buf ≡ 24 + length p.rest
  length-Split buf p = omega (
    arith,
    ap length p.whole,
    length-append p.magic (p.command ++ (p.len ++ (p.checksum ++ p.rest))),
    length-append p.command (p.len ++ (p.checksum ++ p.rest)),
    length-append p.len (p.checksum ++ p.rest),
    length-append p.checksum p.rest,
    p.length-magic,
    p.length-command,
    p.length-len,
    p.length-checksum,
  )

  decode_one_message-short :
      (buf : List ℕ)
      → length buf < 24
      → decode_one_message xul hash protocol_magic buf ≡ some incomplete
  unfolding decode_one_message
  decode_one_message-short buf h = rw (lt→ltb (length buf) 24 h) refl

  -- decodeOneMessage on a buffer, and on the buffer with more bytes.
  pub decode_one_message-Persists :
      (buf ys : List ℕ)
      → IsBytes (buf ++ ys)
      → length (buf ++ ys) < 2 ^ 31
      → Persists
          (decode_one_message xul hash protocol_magic buf)
          (length buf)
          (decode_one_message xul hash protocol_magic (buf ++ ys))
  decode_one_message-Persists buf ys w small = elim (le_or_lt 24 (length buf)) [
    | inr short ↦ rw (decode_one_message-short buf short) tt
    | inl long ↦
        let p = split buf long in
        let more : length (buf ++ ys) ≡ 24 + length (p.rest ++ ys) =
          omega (arith, length-append buf ys, length-append p.rest ys, length-Split buf p) in
        let first : decode_one_message xul hash protocol_magic buf
            ≡ judge (header_of p) (24 + length p.rest) p.rest =
          decode_one-judge buf p (IsBytes-left buf ys w) long
          ∙ ap (λ n. judge (header_of p) n p.rest) (length-Split buf p) in
        let whole : decode_one_message xul hash protocol_magic (buf ++ ys)
            ≡ judge (header_of p) (length (buf ++ ys)) (p.rest ++ ys) =
          unfold header_of Split-append in
          decode_one-judge (buf ++ ys) (Split-append buf ys p) w (omega arith) in
        let second = whole ∙ ap (λ n. judge (header_of p) n (p.rest ++ ys)) more in
        rw (first, second, length-Split buf p)
          (judge-Persists (header_of p) p.rest ys (omega arith))
  ]

  -- A buffer of at least 24 and less than 2 ^ 31 bytes whose header has a length of 2 ^ 32 - 24 or
  -- more makes decodeOneMessage fail, by its assertion on the magic number or by reading past the
  -- end of the buffer.
  pub decode_one_message_oversized :
      (buf : List ℕ) (p : Split buf)
      → IsBytes buf
      → 24 ≤ length buf
      → length buf < 2 ^ 31
      → 2 ^ 32 - 24 ≤ from_bytes p.len
      → decode_one_message xul hash protocol_magic buf ≡ none
  decode_one_message_oversized buf p w long small h =
      let w2 = IsBytes-right p.command _ (IsBytes-right p.magic _ (subst IsBytes p.whole w)) in
      let word : from_bytes p.len < 2 ^ 32 =
        subst (λ n. from_bytes p.len < 256 ^ n) p.length-len
          (from_bytes-lt p.len (IsBytes-left p.len _ w2)) in
      decode_one-judge buf p w long
      ∙ judge_oversized (header_of p) (length buf) p.rest long small (unfold header_of in h)
          (unfold header_of in word)
