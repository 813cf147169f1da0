-- ===== src/Stream/Rules.antt =====
-- Rules for chains of reads and of writes.
use xbtc.Base.{
  ℕ, ◌≡◌, refl, sym, ◌∙◌, ap, Option, none, some, List, ◌++◌, ◌>>=◌, append_assoc, ◌<◌, ◌∷◌, [],
  arith,
}
use mathlib.Core.Path.{subst}
use xbtc.Stream.Defs.{Streams, ReadsAs, little_endian}

pub little_endian-byte : (op : ℕ) → op < 256 → little_endian 1 op ≡ op ∷ []
unfolding little_endian
little_endian-byte op h = ap (λ b. b ∷ []) (omega arith)

module _ (xul : Streams) where
  open xul use {Input, Output, bytes, written}

  -- The read `r` of `a` from a stream that holds the bytes `xs` first.
  abbrev pub Reads : {A : Type 0} → Option (A × Input) → A → List ℕ → Type 0
  Reads = ReadsAs bytes

  -- A reader that gives back `a` from every stream that begins with `xs`, and takes no more.
  abbrev pub Parses : {A : Type 0} → (Input → Option (A × Input)) → A → List ℕ → Type 0
  Parses read a xs = (s : Input) (rest : List ℕ) → bytes s ≡ xs ++ rest → Reads (read s) a rest

  -- A writer that appends `xs`.
  abbrev pub Emits : (Output → Output) → List ℕ → Type 0
  Emits write xs = (o : Output) → written (write o) ≡ written o ++ xs

  pub Reads-bind :
      {A B : Type 0} (r : Option (A × Input)) (k : A × Input → Option (B × Input)) (a : A) (b : B)
      (mid rest : List ℕ)
      → Reads r a mid
      → ((s : Input) → bytes s ≡ mid → Reads (k (a, s)) b rest)
      → Reads (r >>= k) b rest
  Reads-bind none k a b mid rest h g = absurd h
  Reads-bind (some (a', s)) k a b mid rest (e, f) g =
      subst (λ x. Reads (k (x, s)) b rest) (sym e) (g s f)

  pub Emits-chain :
      (f g : Output → Output) (xs ys : List ℕ)
      → Emits f xs
      → Emits g ys
      → Emits (λ o. g (f o)) (xs ++ ys)
  Emits-chain f g xs ys p q o = q (f o) ∙ ap (λ t. t ++ ys) (p o) ∙ append_assoc (written o) xs ys

  -- The stream after a read that is known to give `a`.
  pub Reads-eq :
      {A : Type 0} (r : Option (A × Input)) (a : A) (rest : List ℕ)
      → Reads r a rest
      → (s : Input) × (r ≡ some (a, s)) × (bytes s ≡ rest)
  Reads-eq none a rest h = absurd h
  Reads-eq (some (a', s)) a rest (e, f) = (s, ap (λ x. some (x, s)) e, f)

  pub Reads-some :
      {A : Type 0} (r : Option (A × Input)) (a : A) (s : Input) (rest : List ℕ)
      → r ≡ some (a, s)
      → bytes s ≡ rest
      → Reads r a rest
  Reads-some r a s rest e f = subst (λ x. Reads x a rest) (sym e) (refl, f)

  -- One read of a chain: the bytes `xs` come first, then those of the reads that follow.
  pub Reads-then :
      {A B : Type 0} (read : Input → Option (A × Input)) (k : A × Input → Option (B × Input))
      (a : A) (b : B) (xs mid rest : List ℕ) (s : Input)
      → Parses read a xs
      → bytes s ≡ xs ++ mid
      → ((s1 : Input) → bytes s1 ≡ mid → Reads (k (a, s1)) b rest)
      → Reads (read s >>= k) b rest
  Reads-then read k a b xs mid rest s p e g = Reads-bind (read s) k a b mid rest (p s mid e) g
