-- ===== src/Data/Block/Integers.antt =====
-- Chains of writers of variable-length integers, which can fail by an assertion and do not.
use xbtc.Base.{
  ℕ, ◌^◌, ◌≤◌, ◌<◌, ◌≡◌, refl, sym, ◌∙◌, ap, Bool, true, false, Option, some, List, [], ◌++◌, ◌>>=◌,
  arith, append_assoc, append-nil, if◌then◌else◌,
}
use xbtc.Stream.{Streams, Parses}
use xbtc.Serial.{uint32_max, uint64_max, read_integer, write_integer}
use xbtc.Serial.VarInt.{integer_bytes, write_integer-integer_bytes}
use xbtc.Data.Block.Codec.{read_if, write_if}

abbrev pub if_bytes : Bool → List ℕ → List ℕ
if_bytes true xs = xs
if_bytes false xs = []

module _ (xul : Streams) where
  open xul use {Output, written, written-write_bytes}

  -- The writer succeeds and appends `xs`.
  abbrev pub Succeeds : (Output → Option Output) → List ℕ → Type 0
  Succeeds f xs = (o : Output) → (o' : Output) × (f o ≡ some o') × (written o' ≡ written o ++ xs)

  pub Succeeds-chain :
      (f g : Output → Option Output) (xs ys : List ℕ)
      → Succeeds f xs
      → Succeeds g ys
      → Succeeds (λ o. f o >>= g) (xs ++ ys)
  Succeeds-chain f g xs ys p q o =
      let (o1, e1, w1) = p o in
      let (o2, e2, w2) = q o1 in
      (o2, rw e1 e2, w2 ∙ ap (λ t. t ++ ys) w1 ∙ append_assoc (written o) xs ys)

  -- A number of 32 bits.
  pub write_32-Succeeds :
      (n : ℕ) → n < 2 ^ 32 → Succeeds (write_integer xul 32 n) (integer_bytes 32 n)
  write_32-Succeeds n h o = (
    _,
    (write_integer-integer_bytes xul 32 uint32_max n (omega arith) (omega arith) (omega arith)
          (omega arith)).0
        o,
    written-write_bytes (integer_bytes 32 n) o,
  )

  pub read_32-Parses :
      (max n : ℕ) → n ≤ max → n < 2 ^ 32 → Parses xul (read_integer xul max) n (integer_bytes 32 n)
  read_32-Parses max n le h =
      (write_integer-integer_bytes xul 32 max n le (omega arith) (omega arith) (omega arith)).1

  pub write_64-Succeeds :
      (n : ℕ) → n < 2 ^ 64 → Succeeds (write_integer xul 64 n) (integer_bytes 64 n)
  write_64-Succeeds n h o = (
    _,
    (write_integer-integer_bytes xul 64 uint64_max n (omega arith) (omega arith) (omega arith)
          (omega arith)).0
        o,
    written-write_bytes (integer_bytes 64 n) o,
  )

  pub read_64-Parses :
      (n : ℕ) → n < 2 ^ 64 → Parses xul (read_integer xul uint64_max) n (integer_bytes 64 n)
  read_64-Parses n h =
      (write_integer-integer_bytes xul 64 uint64_max n (omega arith) (omega arith) (omega arith)
        (omega arith)).1

  pub write_if-Succeeds :
      (present : Bool) (n : ℕ)
      → n < 2 ^ 32
      → Succeeds (write_if xul present 32 n) (if_bytes present (integer_bytes 32 n))
  unfolding write_if
  write_if-Succeeds true n h o = write_32-Succeeds n h o
  write_if-Succeeds false n h o = (o, refl, sym (append-nil (written o)))

  pub read_if-Parses :
      (present : Bool) (max old n : ℕ)
      → n ≤ max
      → n < 2 ^ 32
      → Parses xul
          (read_if xul present max old)
          (if present then n else old)
          (if_bytes present (integer_bytes 32 n))
  unfolding read_if
  read_if-Parses true max old n le h s rest e = read_32-Parses max n le h s rest e
  read_if-Parses false max old n le h s rest e = (refl, e)
