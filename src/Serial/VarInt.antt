-- ===== src/Serial/VarInt.antt =====
-- The variable-length integers of writeInteger and readInteger: the buffer is large enough, the loop
-- ends, and what is written is read back.
mod Rounds
use xbtc.Base.{
  ℕ, zero, suc, ◌+◌, ◌-◌, ◌*◌, ◌/◌, ◌%◌, ◌^◌, ◌≤◌, ◌<◌, ◌≡◌, ◌≢◌, refl, sym, ◌∙◌, ap, Bool, true,
  false, Option, none, some, List, [], ◌∷◌, ◌++◌, length, ltb, leb, ◌==◌, if◌then◌else◌, bit_and,
  bit_or, arith, Bool-cases, inl, inr, leb→le, le→leb, lt→leb, le→ltb, ne→==, ◌⊎◌, lt→ltb,
  Option-cases,
}
use xbtc.Base.Bits.{bit_and_mask, bit_and_bit, bit_or_disjoint}
use native.Mathlib.Nat.{mod-eq_of_lt, pow-suc}
use xbtc.Stream.{Streams, Reads, Parses, Reads-eq, Reads-some, little_endian}
use xbtc.Serial.{write_integer_loop, read_integer_loop, read_integer, write_integer, temp_buf_size}
use xbtc.Serial.VarInt.Rounds.{group, write_last, write_more, leb_split, read_all}

-- The assertion `pos >= 0` holds: a number below 128 ^ pos fits into `pos` bytes.
pub write_integer_loop-fits :
    (pos val : ℕ) (bs : List ℕ) (ending : Bool)
    → val < 128 ^ pos
    → 0 < pos
    → (out : List ℕ) × (write_integer_loop pos val bs ending ≡ some out)
write_integer_loop-fits zero val bs ending lt h = elim h [ ]
write_integer_loop-fits (suc pos) val bs ending lt h = elim (leb_split val) [
  | inl small ↦ (group val ending ∷ bs, write_last pos val bs ending small)
  | inr large ↦
      let (out, q) =
        write_integer_loop-fits pos (val / 128 - 1) (group val ending ∷ bs) false
          (omega (arith, pow-suc 128 pos)) (more pos large lt) in
      (out, write_more pos val bs ending large ∙ q)
]
  where
    more : (p : ℕ) → 0x7f < val → val < 128 ^ suc p → 0 < p
    more zero a b = absurd (omega arith)
    more (suc p) a b = omega arith

grows :
    (fuel n low bound : ℕ) → bound < n * 128 ^ suc fuel → bound < (n * 128 + low + 1) * 128 ^ fuel
grows fuel n low bound h = omega (arith, ap (λ (t : ℕ). n * t) (pow-suc 128 fuel))

module _ (xul : Streams) where
  open xul use {Input, Output, read_uint, write_bytes, written-write_bytes, written}

  -- While the loop goes on, its number grows by a factor of 128 and more.
  read_integer_loop-ends :
      (fuel max n : ℕ) (s : Input)
      → max / 128 < n * 128 ^ fuel
      → (r : Option (ℕ × Input)) × (read_integer_loop xul (suc fuel) max n s ≡ some r)
  unfolding read_integer_loop
  read_integer_loop-ends zero max n s h = (none, rw (lt→ltb (max / 128) n (omega arith)))
  read_integer_loop-ends (suc fuel) max n s h = elim (Bool-cases (ltb (max / 128) n)) [
    | inl over ↦ (none, rw over)
    | inr on ↦ elim (Option-cases (read_uint 1 s)) [
      | inl bad ↦ (none, rw (on, bad))
      | inr ((byte, s'), q) ↦
          let n' : ℕ = n * 128 + bit_and byte 0x7f in
          elim (Bool-cases (bit_and byte 0x80 == 0)) [
            | inl last ↦ (some (n', s'), rw (on, q, last))
            | inr more ↦ elim (Bool-cases (n' == max)) [
              | inl full ↦ (none, rw (on, q, more, full))
              | inr room ↦
                  let (r, p) =
                    read_integer_loop-ends fuel max (n' + 1) s'
                      (grows fuel n (bit_and byte 0x7f) (max / 128) h) in
                  (r, rw (on, q, more, room) p)
            ]
          ]
    ]
  ]

  -- The loop of readInteger ends within eleven rounds on every input, for every type of up to 64
  -- bits.
  pub read_integer_loop-ends_64 :
      (max : ℕ) (s : Input)
      → max < 2 ^ 64
      → (r : Option (ℕ × Input)) × (read_integer_loop xul 11 max 0 s ≡ some r)
  unfolding read_integer_loop
  read_integer_loop-ends_64 max s h = elim (Option-cases (read_uint 1 s)) [
    | inl bad ↦ (none, rw (le→ltb (max / 128) 0 (omega arith), bad))
    | inr ((byte, s'), q) ↦
        let n' : ℕ = 0 * 128 + bit_and byte 0x7f in
        elim (Bool-cases (bit_and byte 0x80 == 0)) [
          | inl last ↦ (some (n', s'), rw (le→ltb (max / 128) 0 (omega arith), q, last))
          | inr more ↦ elim (Bool-cases (n' == max)) [
            | inl full ↦ (none, rw (le→ltb (max / 128) 0 (omega arith), q, more, full))
            | inr room ↦
                let (r, p) = read_integer_loop-ends 9 max (n' + 1) s' (omega arith) in
                (r, rw (le→ltb (max / 128) 0 (omega arith), q, more, room) p)
          ]
        ]
  ]

-- The bytes of a number that fits the buffer.
pub integer_bytes : ℕ → ℕ → List ℕ
integer_bytes bits n = elim (write_integer_loop (temp_buf_size bits) n [] true) [
  | none ↦ []
  | some out ↦ out
]

module _ (xul : Streams) where
  open xul use {Input, bytes, Output, write_bytes}

  -- What write_integer puts for a number that the type holds, read_integer reads back.
  pub write_integer-integer_bytes :
      (bits max n : ℕ)
      → n ≤ max
      → n < 128 ^ temp_buf_size bits
      → 0 < temp_buf_size bits
      → temp_buf_size bits < 11
      → ((o : Output) → write_integer xul bits n o ≡ some (write_bytes (integer_bytes bits n) o))
        × Parses xul (read_integer xul max) n (integer_bytes bits n)
  unfolding write_integer read_integer integer_bytes
  write_integer-integer_bytes bits max n le fits pos small =
      let (out, w) = write_integer_loop-fits (temp_buf_size bits) n [] true fits pos in
      (
        (λ o. rw (w, write_integer, integer_bytes)),
        λ s rest e.
            let (s', q, f) =
              read_all xul max (temp_buf_size bits) n 11 out s rest w le small
                (rw (w, integer_bytes) at e) in
            rw (q, read_integer) (refl, f),
      )

  -- A number that the type holds can be written by writeInteger, and is read back by readInteger
  -- from the bytes that are written, for a type whose buffer has at most ten bytes, which are
  -- enough for the number.
  pub read_integer-write_integer :
      (bits max n : ℕ) (o : Output) (s : Input) (rest : List ℕ)
      → n ≤ max
      → n < 128 ^ temp_buf_size bits
      → 0 < temp_buf_size bits
      → temp_buf_size bits < 11
      → bytes s ≡ integer_bytes bits n ++ rest
      → (write_integer xul bits n o ≡ some (write_bytes (integer_bytes bits n) o))
        × Reads xul (read_integer xul max s) n rest
  read_integer-write_integer bits max n o s rest le fits pos small e =
      let (writes, reads) = write_integer-integer_bytes bits max n le fits pos small in
      (writes o, reads s rest e)
