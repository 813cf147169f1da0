-- ===== src/Stream/Defs.antt =====
-- The interface to the streams. A stream that has gone bad stays bad, and every read of a caller
-- ends in a test of that: a failed read is `none`.
use xbtc.Base.{
  ℕ, zero, suc, ◌/◌, ◌%◌, ◌^◌, ◌<◌, ◌≡◌, Option, none, some, List, [], ◌∷◌, ◌++◌, length, ◌+◌,
}

-- The `k` bytes of a number, lowest first.
unfoldable pub little_endian : ℕ → ℕ → List ℕ
little_endian zero v = []
little_endian (suc k) v = v % 256 ∷ little_endian k (v / 256)

-- What a read hands back: the value `a`, and a stream that holds `rest`. A failed read does not.
abbrev pub ReadsAs : {S A : Type 0} → (S → List ℕ) → Option (A × S) → A → List ℕ → Type 0
ReadsAs bytes none a rest = ⊥
ReadsAs bytes (some (a', s)) a rest = (a' ≡ a) × (bytes s ≡ rest)

pub record Streams : Type 1 where
  pub Input : Type 0
  pub Output : Type 0
  -- The bytes that are still to be read, and those that have been written.
  pub bytes : Input → List ℕ
  pub written : Output → List ℕ
  -- `is >> v` for a number of `k` bytes (uint8_t to uint64_t, and uint256), and `read_string`.
  pub read_uint : ℕ → Input → Option (ℕ × Input)
  pub read_string : ℕ → Input → Option (List ℕ × Input)
  pub write_uint : ℕ → ℕ → Output → Output
  pub write_bytes : List ℕ → Output → Output
  -- Streams made of given bytes, and the empty output.
  pub open_input : List ℕ → Input
  pub open_output : Output
  pub bytes-open_input : (xs : List ℕ) → bytes (open_input xs) ≡ xs
  pub written-open_output : written open_output ≡ []
  pub written-write_uint :
      (k v : ℕ) (o : Output) → written (write_uint k v o) ≡ written o ++ little_endian k v
  pub written-write_bytes :
      (xs : List ℕ) (o : Output) → written (write_bytes xs o) ≡ written o ++ xs
  pub read_uint_lem :
      (k v : ℕ) (s : Input) (rest : List ℕ)
      → v < 256 ^ k
      → bytes s ≡ little_endian k v ++ rest
      → ReadsAs bytes (read_uint k s) v rest
  pub read_uint_short : (k : ℕ) (s : Input) → length (bytes s) < k → read_uint k s ≡ none
  pub read_string_lem :
      (xs : List ℕ) (s : Input) (rest : List ℕ)
      → bytes s ≡ xs ++ rest
      → ReadsAs bytes (read_string (length xs) s) xs rest
  pub read_string_short : (n : ℕ) (s : Input) → length (bytes s) < n → read_string n s ≡ none
  -- A read of `k` bytes takes them off the stream.
  pub read_uint_length :
      (k v : ℕ) (s s' : Input)
      → read_uint k s ≡ some (v, s')
      → length (bytes s') + k ≡ length (bytes s)
  pub read_string_length :
      (n : ℕ) (xs : List ℕ) (s s' : Input)
      → read_string n s ≡ some (xs, s')
      → length (bytes s') + n ≡ length (bytes s)
