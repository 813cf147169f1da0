-- ===== src/Serial/Vector.antt =====
-- Strings and vectors: what is written, that it is read back, and the limits on a read.
use xbtc.Base.{
  subst, ℕ, zero, suc, ◌^◌, ◌≤◌, ◌<◌, ◌≡◌, refl, sym, ◌∙◌, none, some, Option, List, [], ◌∷◌, ◌++◌,
  length, ◌>>=◌, ltb, if◌then◌else◌, append_assoc, append-nil, le→ltb, lt→ltb, All, >>=-eq-some,
  Bool-cases, inl, inr, none-ne-some, some-pair_left,
}
use xbtc.Stream.{Streams, Reads, Parses, Emits, Reads-bind, Reads-eq, Emits-chain}
use xbtc.Serial.{
  read_compact_size, write_compact_size, read_string, write_string, read_items, read_vector,
  write_items, write_vector,
}
use xbtc.Serial.Compact.{compact_bytes, write_compact_size-Emits, read_compact_size-Parses}

unfoldable pub string_bytes : List ℕ → List ℕ
string_bytes xs = compact_bytes (length xs) ++ xs

unfoldable pub flatten_with : {A : Type 0} → (A → List ℕ) → List A → List ℕ
flatten_with encode [] = []
flatten_with encode (a ∷ rest) = encode a ++ flatten_with encode rest

unfoldable pub vector_bytes : {A : Type 0} → (A → List ℕ) → List A → List ℕ
vector_bytes encode items = compact_bytes (length items) ++ flatten_with encode items

module _ (xul : Streams) where
  open xul use {Input, Output, bytes, written-write_bytes, write_bytes, read_string_lem}

  pub write_string-Emits : (xs : List ℕ) → Emits xul (write_string xul xs) (string_bytes xs)
  unfolding write_string string_bytes
  write_string-Emits xs =
      Emits-chain xul (write_compact_size xul (length xs)) (write_bytes xs)
        (compact_bytes (length xs)) xs (write_compact_size-Emits xul (length xs))
        (written-write_bytes xs)

  -- A read of a count, and what follows it on both sides of the limit.
  read_counted :
      {A : Type 0} (limit n : ℕ) (a : A) (body rest : List ℕ) (s : Input)
      (next : ℕ → Input → Option (A × Input))
      → n ≤ limit
      → n < 2 ^ 64
      → ((s' : Input) → bytes s' ≡ body ++ rest → Reads xul (next n s') a rest)
      → bytes s ≡ (compact_bytes n ++ body) ++ rest
      → Reads xul
          (read_compact_size xul s >>= λ (m, s1). if ltb limit m then none else next m s1)
          a
          rest
  read_counted limit n a body rest s next le h k e =
      Reads-bind xul (read_compact_size xul s) _ n a (body ++ rest) rest
        (read_compact_size-Parses xul n h s (body ++ rest)
          (e ∙ append_assoc (compact_bytes n) body rest))
        (λ s' f. rw (le→ltb limit n le) (k s' f))

  read_too_many :
      {A : Type 0} (limit n : ℕ) (rest : List ℕ) (s : Input) (next : ℕ → Input → Option (A × Input))
      → limit < n
      → n < 2 ^ 64
      → bytes s ≡ compact_bytes n ++ rest
      → (read_compact_size xul s >>= λ (m, s1). if ltb limit m then none else next m s1) ≡ none
  read_too_many limit n rest s next lt h e =
      let (s', q, f) =
        Reads-eq xul (read_compact_size xul s) n rest (read_compact_size-Parses xul n h s rest e) in
      rw (q, lt→ltb limit n lt)

  pub read_string-Parses :
      (maxsize : ℕ) (xs : List ℕ)
      → length xs ≤ maxsize
      → length xs < 2 ^ 64
      → Parses xul (read_string xul maxsize) xs (string_bytes xs)
  unfolding read_string string_bytes
  read_string-Parses maxsize xs le h s rest =
      read_counted maxsize (length xs) xs xs rest s xul.read_string le h
        (λ s' f. read_string_lem xs s' rest f)

  -- readString fails on a string that is announced to be longer than its limit.
  pub read_string_too_long :
      (maxsize n : ℕ) (rest : List ℕ) (s : Input)
      → maxsize < n
      → n < 2 ^ 64
      → bytes s ≡ compact_bytes n ++ rest
      → read_string xul maxsize s ≡ none
  unfolding read_string
  read_string_too_long maxsize n rest s = read_too_many maxsize n rest s xul.read_string

  module _ {A : Type 0} (encode : A → List ℕ) where
    module _ (write : A → Output → Output) (one : (a : A) → Emits xul (write a) (encode a)) where
      write_items-Emits :
          (items : List A) → Emits xul (write_items xul write items) (flatten_with encode items)
      unfolding write_items flatten_with
      write_items-Emits [] o = sym (append-nil _)
      write_items-Emits (a ∷ items) o =
          Emits-chain xul (write a) (write_items xul write items) (encode a)
            (flatten_with encode items) (one a) (write_items-Emits items) o

      pub write_vector-Emits :
          (items : List A) → Emits xul (write_vector xul write items) (vector_bytes encode items)
      unfolding write_vector vector_bytes
      write_vector-Emits items =
          Emits-chain xul (write_compact_size xul (length items)) (write_items xul write items)
            (compact_bytes (length items)) (flatten_with encode items)
            (write_compact_size-Emits xul (length items)) (write_items-Emits items)

    module _ (read : Input → Option (A × Input)) where
      read_items-Parses :
          (items : List A)
          → All (λ a. Parses xul read a (encode a)) items
          → Parses xul (read_items xul read (length items)) items (flatten_with encode items)
      unfolding read_items flatten_with
      read_items-Parses [] h s rest e = (refl, e)
      read_items-Parses (a ∷ items) (h, hs) s rest e =
          Reads-bind xul (read s) _ a (a ∷ items) (flatten_with encode items ++ rest) rest
            (h s _ (e ∙ append_assoc (encode a) (flatten_with encode items) rest))
            λ s1 f.
              Reads-bind xul (read_items xul read (length items) s1) _ items (a ∷ items) rest rest
                (read_items-Parses items hs s1 rest f) (λ s2 g. (refl, g))

      pub read_vector-Parses :
          (maxcount : ℕ) (items : List A)
          → length items ≤ maxcount
          → length items < 2 ^ 64
          → All (λ a. Parses xul read a (encode a)) items
          → Parses xul (read_vector xul read maxcount) items (vector_bytes encode items)
      unfolding read_vector vector_bytes
      read_vector-Parses maxcount items le h hs s rest =
          read_counted maxcount (length items) items (flatten_with encode items) rest s
            (read_items xul read) le h (λ s' f. read_items-Parses items hs s' rest f)

  -- readVector fails on a list that is announced to be longer than its limit, whatever its items
  -- are.
  pub read_vector_too_many :
      {A : Type 0} (read : Input → Option (A × Input)) (maxcount n : ℕ) (rest : List ℕ) (s : Input)
      → maxcount < n
      → n < 2 ^ 64
      → bytes s ≡ compact_bytes n ++ rest
      → read_vector xul read maxcount s ≡ none
  unfolding read_vector
  read_vector_too_many read maxcount n rest s =
      read_too_many maxcount n rest s (read_items xul read)

  module _ {A : Type 0} (P : A → Type 0) (read : Input → Option (A × Input))
      (every : (s : Input) (a : A) (s' : Input) → read s ≡ some (a, s') → P a) where
    -- What holds of each item that can be read holds of the vectors that can.
    read_items-All :
        (count : ℕ) (s : Input) (items : List A) (s' : Input)
        → read_items xul read count s ≡ some (items, s')
        → All P items
    unfolding read_items
    read_items-All zero s items s' e = subst (All P) (some-pair_left e) tt
    read_items-All (suc count) s items s' e =
        let ((a, s1), q, e1) = >>=-eq-some (read s) _ (items, s') e in
        let ((as', s2), q2, e2) = >>=-eq-some (read_items xul read count s1) _ (items, s') e1 in
        subst (All P) (some-pair_left e2) (every s a s1 q, read_items-All count s1 as' s2 q2)

    pub read_vector-All :
        (maxcount : ℕ) (s : Input) (items : List A) (s' : Input)
        → read_vector xul read maxcount s ≡ some (items, s')
        → All P items
    unfolding read_vector
    read_vector-All maxcount s items s' e =
        let ((count, s1), q, e1) = >>=-eq-some (read_compact_size xul s) _ (items, s') e in
        elim (Bool-cases (ltb maxcount count)) [
          | inl over ↦ absurd (none-ne-some (rw over at e1))
          | inr within ↦ read_items-All count s1 items s' (rw within at e1)
        ]
