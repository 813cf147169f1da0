-- ===== src/Merkle/Levels.antt =====
-- The levels of a Merkle tree, as lists of hashes, for src/data/MerkleTree.cpp.
use xbtc.Base.{ℕ, ◌/◌, ◌%◌, ◌≤◌, ◌≡◌, refl, ap, List, [], ◌∷◌, ◌++◌, length, arith}

module _ (hash_pair : ℕ → ℕ → ℕ) where
  -- The next level, where the last of an odd number of values is combined with itself.
  unfoldable pub next_level : List ℕ → List ℕ
  next_level [] = []
  next_level (x ∷ []) = hash_pair x x ∷ []
  next_level (x ∷ y ∷ rest) = hash_pair x y ∷ next_level rest

  -- The root of a list of values that is not empty.
  pub data IsRoot : List ℕ → ℕ → Type 0 where
    top : {x : ℕ} → IsRoot (x ∷ []) x
    level : {xs : List ℕ} {r : ℕ} → 2 ≤ length xs → IsRoot (next_level xs) r → IsRoot xs r

  -- The pairs of a level, without the last of an odd number of values.
  unfoldable pub pairs : List ℕ → List ℕ
  pairs [] = []
  pairs (x ∷ []) = []
  pairs (x ∷ y ∷ rest) = hash_pair x y ∷ pairs rest

  pub length-pairs : (xs : List ℕ) → length (pairs xs) ≡ length xs / 2
  unfolding pairs
  length-pairs [] = refl
  length-pairs (x ∷ []) = refl
  length-pairs (x ∷ y ∷ rest) = omega (arith, length-pairs rest)

  pub next_level-even : (xs : List ℕ) → length xs % 2 ≡ 0 → next_level xs ≡ pairs xs
  unfolding next_level pairs
  next_level-even [] e = refl
  next_level-even (x ∷ []) e = absurd (omega (arith, e))
  next_level-even (x ∷ y ∷ rest) e =
      ap (λ zs. hash_pair x y ∷ zs) (next_level-even rest (omega (arith, e)))

  pub next_level-odd :
      (xs : List ℕ) (h : ℕ)
      → length xs % 2 ≡ 0
      → next_level (xs ++ (h ∷ [])) ≡ pairs xs ++ (hash_pair h h ∷ [])
  unfolding next_level pairs
  next_level-odd [] h e = refl
  next_level-odd (x ∷ []) h e = absurd (omega (arith, e))
  next_level-odd (x ∷ y ∷ rest) h e =
      ap (λ zs. hash_pair x y ∷ zs) (next_level-odd rest h (omega (arith, e)))

  pub pairs-single : (xs : List ℕ) (h : ℕ) → length xs % 2 ≡ 0 → pairs (xs ++ (h ∷ [])) ≡ pairs xs
  unfolding pairs
  pairs-single [] h e = refl
  pairs-single (x ∷ []) h e = absurd (omega (arith, e))
  pairs-single (x ∷ y ∷ rest) h e =
      ap (λ zs. hash_pair x y ∷ zs) (pairs-single rest h (omega (arith, e)))

  pub pairs-full :
      (xs : List ℕ) (x h : ℕ)
      → length xs % 2 ≡ 0
      → pairs ((xs ++ (x ∷ [])) ++ (h ∷ [])) ≡ pairs xs ++ (hash_pair x h ∷ [])
  unfolding pairs
  pairs-full [] x h e = refl
  pairs-full (y ∷ []) x h e = absurd (omega (arith, e))
  pairs-full (y ∷ z ∷ rest) x h e =
      ap (λ zs. hash_pair y z ∷ zs) (pairs-full rest x h (omega (arith, e)))
