-- ===== src/Serial/Compact.antt =====
-- Compact sizes and strings: what is written, that it is read back, and when a read fails.
use xbtc.Base.{
  ℕ, ◌^◌, ◌<◌, ◌≡◌, refl, ◌∙◌, ap, List, ◌∷◌, ◌++◌, ◌>>=◌, ltb, leb, if◌then◌else◌, arith, ltb→lt,
  leb→le, lt→==, Option, Bool-cases, inl, inr,
}
use xbtc.Stream.{Streams, Reads, Parses, Emits, Reads-bind, Emits-chain, little_endian}
use native.Mathlib.Nat.{mod-eq_of_lt}
use xbtc.Serial.{read_compact_size, write_compact_size}

-- The format: one byte, or a tag and two, four or eight bytes.
unfoldable pub compact_bytes : ℕ → List ℕ
compact_bytes val =
    if ltb val 0xfd
    then little_endian 1 val
    else if leb val 0xffff
    then 0xfd ∷ little_endian 2 val
    else if leb val 0xffffffff
    then 0xfe ∷ little_endian 4 val
    else 0xff ∷ little_endian 8 val

module _ (xul : Streams) where
  open xul use {
    open_output, written, written-open_output, Input, write_uint, bytes, read_uint, read_uint_lem,
    written-write_uint, written-write_bytes,
  }

  pub read_uint-Parses : (k v : ℕ) → v < 256 ^ k → Parses xul (read_uint k) v (little_endian k v)
  read_uint-Parses k v h s rest e = read_uint_lem k v s rest h e

  -- A tag byte before a number of `k` bytes, written and read.
  write_tagged-Emits :
      (tag k v : ℕ)
      → tag < 256
      → Emits xul (λ o. write_uint k v (write_uint 1 tag o)) (tag ∷ little_endian k v)
  unfolding little_endian
  write_tagged-Emits tag k v h = rw (mod-eq_of_lt h) at (
      Emits-chain xul (write_uint 1 tag) (write_uint k v) (little_endian 1 tag) (little_endian k v)
        (written-write_uint 1 tag) (written-write_uint k v))

  pub write_compact_size-Emits :
      (val : ℕ) → Emits xul (write_compact_size xul val) (compact_bytes val)
  unfolding write_compact_size compact_bytes
  write_compact_size-Emits val o = elim (Bool-cases (ltb val 0xfd)) [
    | inl a ↦ rw a (written-write_uint 1 val o)
    | inr a ↦ elim (Bool-cases (leb val 0xffff)) [
      | inl b ↦ rw (a, b) (write_tagged-Emits 0xfd 2 val (omega arith) o)
      | inr b ↦ elim (Bool-cases (leb val 0xffffffff)) [
        | inl c ↦ rw (a, b, c) (write_tagged-Emits 0xfe 4 val (omega arith) o)
        | inr c ↦ rw (a, b, c) (write_tagged-Emits 0xff 8 val (omega arith) o)
      ]
    ]
  ]

  read_tagged :
      (tag k v : ℕ) (s : Input) (rest : List ℕ) (next : ℕ × Input → Option (ℕ × Input))
      → tag < 256
      → v < 256 ^ k
      → ((s' : Input) → next (tag, s') ≡ read_uint k s')
      → bytes s ≡ tag ∷ little_endian k v ++ rest
      → Reads xul (read_uint 1 s >>= next) v rest
  unfolding little_endian
  read_tagged tag k v s rest next ht hv same e =
      Reads-bind xul (read_uint 1 s) next tag v (little_endian k v ++ rest) rest
        (read_uint_lem 1 tag s (little_endian k v ++ rest) ht (rw (mod-eq_of_lt ht) e))
        (λ s' e'. rw (same s') (read_uint_lem k v s' rest hv e'))

  pub read_compact_size-Parses :
      (val : ℕ) → val < 2 ^ 64 → Parses xul (read_compact_size xul) val (compact_bytes val)
  unfolding read_compact_size compact_bytes little_endian
  read_compact_size-Parses val h s rest e = elim (Bool-cases (ltb val 0xfd)) [
    | inl a ↦
        let small : val < 0xfd = ltb→lt val 0xfd a in
        Reads-bind xul (read_uint 1 s) _ val val rest rest
          (read_uint_lem 1 val s rest (omega arith) (rw a at e))
          (λ s' e'.
            rw
              (
                lt→== val 0xfd (omega arith),
                lt→== val 0xfe (omega arith),
                lt→== val 0xff (omega arith),
              )
              (refl, e'))
    | inr a ↦ elim (Bool-cases (leb val 0xffff)) [
      | inl b ↦
          read_tagged 0xfd 2 val s rest _ (omega arith) (omega (arith, leb→le val 0xffff b))
            (λ s'. refl) (rw (a, b) at e)
      | inr b ↦ elim (Bool-cases (leb val 0xffffffff)) [
        | inl c ↦
            read_tagged 0xfe 4 val s rest _ (omega arith) (omega (arith, leb→le val 0xffffffff c))
              (λ s'. refl) (rw (a, b, c) at e)
        | inr c ↦
            read_tagged 0xff 8 val s rest _ (omega arith) (omega arith) (λ s'. refl)
              (rw (a, b, c) at e)
      ]
    ]
  ]

  -- A number of 64 bits is read back by readCompactSize from what writeCompactSize puts into an
  -- empty stream, whatever follows.
  pub read_compact_size-write_compact_size :
      (val : ℕ) (s : Input) (rest : List ℕ)
      → val < 2 ^ 64
      → bytes s ≡ written (write_compact_size xul val open_output) ++ rest
      → Reads xul (read_compact_size xul s) val rest
  read_compact_size-write_compact_size val s rest h e = read_compact_size-Parses val h s rest (
      e
      ∙ ap (λ x. x ++ rest)
          (write_compact_size-Emits val open_output
            ∙ ap (λ x. x ++ compact_bytes val) written-open_output))
