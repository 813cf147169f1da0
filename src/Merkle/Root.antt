-- ===== src/Merkle/Root.antt =====
-- computeRoot of src/data/MerkleTree.cpp gives the root that is defined level by level.
use native.Mathlib.Nat.{pow-suc, mod-eq_of_lt}
use xbtc.Base.{
  append-nil, append_assoc, ◌++◌, ◌*◌, ℕ, zero, suc, ◌+◌, ◌^◌, ◌/◌, ◌%◌, ◌≤◌, ◌<◌, ◌≡◌, refl, sym,
  ◌∙◌, ap, subst, Bool, false, ◌||◌, some, List, [], ◌∷◌, length, length-append, ◌==◌, arith,
  Bool-cases, inl, inr,
}
use xbtc.Merkle.{nulls, store, store_all, combine, sweep, compute_root}
use xbtc.Merkle.Levels.{
  next_level, IsRoot, top, level, pairs, length-pairs, next_level-even, next_level-odd,
  pairs-single, pairs-full,
}

module _ (hash_pair : ℕ → ℕ → ℕ) where
  -- The array holds the last value of each level that has an odd number of values.
  unfoldable Stores : List ℕ → List ℕ → Type 0
  Stores [] xs = xs ≡ []
  Stores (x ∷ inner) xs =
      (length xs % 2 ≡ 1 → (init : List ℕ) × (xs ≡ init ++ (x ∷ [])))
      × Stores inner (pairs hash_pair xs)

  length-zero : (xs : List ℕ) → length xs ≡ 0 → xs ≡ []
  length-zero [] e = refl
  length-zero (x ∷ xs) e = absurd (omega (arith, e))

  length-snoc : (xs : List ℕ) (h : ℕ) → length (xs ++ (h ∷ [])) ≡ length xs + 1
  length-snoc xs h = length-append xs (h ∷ [])

  even_init :
      (xs init : List ℕ) (x : ℕ) → xs ≡ init ++ (x ∷ []) → length xs % 2 ≡ 1 → length init % 2 ≡ 0
  even_init xs init x e odd = omega (arith, ap length e, length-snoc init x, odd)

  store-Stores :
      (inner xs : List ℕ) (h count : ℕ) (mutated : Bool)
      → Stores inner xs
      → count ≡ length xs + 1
      → count < 2 ^ length inner
      → (inner' : List ℕ) × (mutated' : Bool) × (store hash_pair count h mutated inner
          ≡ some (inner', mutated'))
        × (length inner' ≡ length inner)
        × Stores inner' (xs ++ (h ∷ []))
  unfolding store Stores
  store-Stores [] xs h count mutated s e lt = absurd (omega (arith, e, lt))
  store-Stores (x ∷ inner) xs h count mutated (odd, s) e lt = elim (Bool-cases (count % 2 == 0)) [
    | inl even ↦
        let is_odd : length xs % 2 ≡ 1 = ground (arith, even, e) in
        let (init, last) = odd is_odd in
        let even' = even_init xs init x last is_odd in
        let size : count / 2 ≡ length (pairs hash_pair xs) + 1 =
          omega (arith, length-pairs hash_pair xs, e, is_odd) in
        let (inner', mutated', r, same, s') =
          store-Stores inner (pairs hash_pair xs) (hash_pair x h) (count / 2) (mutated || (x == h))
            s size (omega (arith, lt, pow-suc 2 (length inner))) in
        (
          x ∷ inner',
          mutated',
          rw (even, r) refl,
          ap suc same,
          (
            λ o. absurd (omega (arith, o, length-snoc xs h, is_odd)),
            subst (Stores inner')
                (ap (λ zs. zs ++ (hash_pair x h ∷ []))
                    (ap (pairs hash_pair) last ∙ pairs-single hash_pair init x even')
                  ∙ sym (
                      ap (λ zs. pairs hash_pair (zs ++ (h ∷ []))) last
                      ∙ pairs-full hash_pair init x h even'))
                s',
          ),
        )
    | inr o ↦
        let is_even : length xs % 2 ≡ 0 = ground (arith, o, e) in
        (
          h ∷ inner,
          mutated,
          rw o refl,
          refl,
          (λ p. (xs, refl), subst (Stores inner) (sym (pairs-single hash_pair xs h is_even)) s),
        )
  ]

  nulls-Stores : (n : ℕ) → Stores (nulls n) []
  unfolding Stores nulls pairs
  nulls-Stores zero = refl
  nulls-Stores (suc n) = (λ o. absurd (omega (arith, o)), nulls-Stores n)

  store_all-Stores :
      (leaves xs inner : List ℕ) (mutated : Bool)
      → Stores inner xs
      → length inner ≡ 32
      → length xs + length leaves < 2 ^ 32
      → (mutated' : Bool) × (inner' : List ℕ) × (store_all hash_pair leaves
            (length xs)
            mutated
            inner
          ≡ some (length xs + length leaves, mutated', inner'))
        × (length inner' ≡ 32)
        × Stores inner' (xs ++ leaves)
  unfolding store_all
  store_all-Stores [] xs inner mutated s size lt = (
    mutated,
    inner,
    ap (λ n. some (n, mutated, inner)) (omega arith),
    size,
    subst (Stores inner) (sym (append-nil xs)) s,
  )
  store_all-Stores (leaf ∷ leaves) xs inner mutated s size lt =
      let (inner1, mutated1, r, same, s1) =
        store-Stores inner xs leaf (length xs + 1) mutated s refl
          (subst (λ n. length xs + 1 < 2 ^ n) (sym size) (omega (arith, lt))) in
      let (mutated', inner', r', full, s') =
        store_all-Stores leaves (xs ++ (leaf ∷ [])) inner1 mutated1 s1 (same ∙ size)
          (omega (arith, lt, length-snoc xs leaf)) in
      (
        mutated',
        inner',
        rw r (
            subst
              (λ n.
                store_all hash_pair leaves n mutated1 inner1
                ≡ some (n + length leaves, mutated', inner'))
              (length-snoc xs leaf) r'
            ∙ ap (λ n. some (n, mutated', inner')) (omega arith)),
        full,
        subst (Stores inner') (append_assoc xs (leaf ∷ []) leaves) s',
      )

  -- The count of the next level, with one value more, is at most half of what there is room for.
  doubled_fits :
      (n count : ℕ)
      → count % 2 ≡ 1
      → 3 ≤ count
      → 2 * count ≤ 2 ^ suc n
      → 2 * ((count + 1) / 2) ≤ 2 ^ n
  doubled_fits zero count odd three lt = absurd (omega arith)
  doubled_fits (suc n) count odd three lt = omega (arith, odd, lt, pow-suc 2 n, pow-suc 2 (suc n))

  combine-IsRoot :
      (inner xs : List ℕ) (h count : ℕ)
      → Stores inner xs
      → count ≡ length xs + 1
      → 2 * count ≤ 2 ^ length inner
      → (r : ℕ) × (combine hash_pair count h inner ≡ some r) × IsRoot hash_pair (xs ++ (h ∷ [])) r
  unfolding combine Stores
  combine-IsRoot [] xs h count s e lt = absurd (omega (arith, e, lt))
  combine-IsRoot (x ∷ inner) xs h count (odd, s) e lt = elim (Bool-cases (count == 1)) [
    | inl one ↦
        let none_before : xs ≡ [] = length-zero xs (ground (arith, one, e)) in
        (h, rw one refl, subst (λ zs. IsRoot hash_pair (zs ++ (h ∷ [])) h) (sym none_before) top)
    | inr more ↦
        let many : 2 ≤ length (xs ++ (h ∷ [])) = ground (arith, more, e, length-snoc xs h) in
        elim (Bool-cases (count % 2 == 0)) [
          | inl even ↦
              let is_odd : length xs % 2 ≡ 1 = ground (arith, even, e) in
              let (init, last) = odd is_odd in
              let even' = even_init xs init x last is_odd in
              let (r, c, root) =
                combine-IsRoot inner (pairs hash_pair xs) (hash_pair x h) (count / 2) s
                  (omega (arith, length-pairs hash_pair xs, e, is_odd))
                  (omega (arith, lt, pow-suc 2 (length inner))) in
              let next : next_level hash_pair (xs ++ (h ∷ []))
                  ≡ pairs hash_pair xs ++ (hash_pair x h ∷ []) =
                next_level-even hash_pair (xs ++ (h ∷ [])) (omega (arith, length-snoc xs h, is_odd))
                ∙ (ap (λ zs. pairs hash_pair (zs ++ (h ∷ []))) last
                    ∙ pairs-full hash_pair init x h even')
                ∙ sym (
                    ap (λ zs. zs ++ (hash_pair x h ∷ []))
                      (ap (pairs hash_pair) last ∙ pairs-single hash_pair init x even')) in
              (
                r,
                rw (more, even) c,
                level many (subst (λ zs. IsRoot hash_pair zs r) (sym next) root),
              )
          | inr o ↦
              let is_even : length xs % 2 ≡ 0 = ground (arith, o, e) in
              let three : 3 ≤ count = ground (arith, more, o, e) in
              let is_odd : count % 2 ≡ 1 = omega (arith, e, is_even) in
              let kept : (count + 1) % 2 ^ length (x ∷ inner) ≡ count + 1 =
                mod-eq_of_lt (omega (arith, lt, three)) in
              let (r, c, root) =
                combine-IsRoot inner (pairs hash_pair xs) (hash_pair h h) ((count + 1) / 2) s
                  (omega (arith, length-pairs hash_pair xs, e, is_even))
                  (doubled_fits (length inner) count is_odd three lt) in
              (
                r,
                rw (more, o) (ap (λ n. combine hash_pair (n / 2) (hash_pair h h) inner) kept ∙ c),
                level many (
                    subst (λ zs. IsRoot hash_pair zs r)
                      (sym (next_level-odd hash_pair xs h is_even)) root),
              )
        ]
  ]

  sweep-IsRoot :
      (inner xs : List ℕ)
      → Stores inner xs
      → 0 < length xs
      → 2 * length xs ≤ 2 ^ length inner
      → (r : ℕ) × (sweep hash_pair (length xs) inner ≡ some r) × IsRoot hash_pair xs r
  unfolding sweep Stores
  sweep-IsRoot [] xs s pos lt = absurd (omega (arith, ap length s, pos))
  sweep-IsRoot (x ∷ inner) xs (odd, s) pos lt = elim (Bool-cases (length xs % 2 == 0)) [
    | inl even ↦
        let is_even : length xs % 2 ≡ 0 = ground (arith, even) in
        let half = length-pairs hash_pair xs in
        let (r, c, root) =
          sweep-IsRoot inner (pairs hash_pair xs) s (omega (arith, half, is_even, pos))
            (omega (arith, half, is_even, lt, pow-suc 2 (length inner))) in
        (
          r,
          rw even (ap (λ n. sweep hash_pair n inner) (sym half) ∙ c),
          level (omega (arith, is_even, pos)) (
              subst (λ zs. IsRoot hash_pair zs r) (sym (next_level-even hash_pair xs is_even))
                root),
        )
    | inr o ↦
        let is_odd : length xs % 2 ≡ 1 = ground (arith, o) in
        let (init, last) = odd is_odd in
        let even' = even_init xs init x last is_odd in
        let below : Stores (x ∷ inner) init = (
          λ p. absurd (omega (arith, p, even')),
          subst (Stores inner) (ap (pairs hash_pair) last ∙ pairs-single hash_pair init x even') s,
        ) in
        let (r, c, root) =
          combine-IsRoot (x ∷ inner) init x (length xs) below (ap length last ∙ length-snoc init x)
            lt in
        (r, rw o c, subst (λ zs. IsRoot hash_pair zs r) (sym last) root)
  ]

  -- For at least one leaf and at most 2 ^ 31, computeRoot stays within its array and gives the
  -- root that is defined level by level: the values of a level are combined in pairs, the last of
  -- an odd number with itself, until one is left.
  pub compute_root-IsRoot :
      (leaf : ℕ) (leaves : List ℕ)
      → length (leaf ∷ leaves) ≤ 2 ^ 31
      → (root : ℕ) × (mutated : Bool) × (compute_root hash_pair (leaf ∷ leaves)
          ≡ some (root, mutated))
        × IsRoot hash_pair (leaf ∷ leaves) root
  unfolding compute_root
  compute_root-IsRoot leaf leaves lt =
      let (mutated, inner, r, full, s) =
        store_all-Stores (leaf ∷ leaves) [] (nulls 32) false (nulls-Stores 32)
          (unfold nulls in refl) (omega (arith, lt)) in
      let (root, c, w) =
        sweep-IsRoot inner (leaf ∷ leaves) s (omega arith)
          (subst (λ n. 2 * length (leaf ∷ leaves) ≤ 2 ^ n) (sym full) (omega (arith, lt))) in
      let size : 0 + length (leaf ∷ leaves) ≡ length (leaf ∷ leaves) = omega arith in
      (root, mutated, rw (r, size, c) refl, w)
