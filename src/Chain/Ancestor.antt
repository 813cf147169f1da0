-- ===== src/Chain/Ancestor.antt =====
-- getAncestor finds the ancestor of a given height, by whichever pointers it goes.
use xbtc.Base.{
  ℕ, zero, suc, ◌-◌, ◌≤◌, ◌<◌, ◌≡◌, refl, sym, true, Option, none, some, arith, Bool-cases,
  Option-cases, inl, inr, le_or_lt, lt→ltb, le→ltb, subst,
}
use xbtc.Base.Bits.{bit_and_le}
use xbtc.Chain.Index.{
  Tree, invert_lowest_one, get_skip_height, follows_skip, ancestor_loop, get_ancestor,
}

invert_lowest_one-le : (n : ℕ) → invert_lowest_one n ≤ n - 1
unfolding invert_lowest_one
invert_lowest_one-le n = bit_and_le n (n - 1)

-- The skip pointer leads down.
pub get_skip_height-lt : (h : ℕ) → get_skip_height (suc h) < suc h
unfolding get_skip_height
get_skip_height-lt h = ground (
  arith,
  invert_lowest_one-le (suc h),
  invert_lowest_one-le (suc h - 1),
  invert_lowest_one-le (invert_lowest_one (suc h - 1)),
)

pub skip_below : (h : ℕ) → 1 ≤ h → get_skip_height h < h
skip_below zero k = absurd (omega arith)
skip_below (suc h) k = get_skip_height-lt h

follows_skip-le : (dest h : ℕ) → follows_skip dest h ≡ true → dest ≤ get_skip_height h
unfolding follows_skip
follows_skip-le dest h e = ground arith

-- `a` is `b`, or is reached from it by the parents.
pub data Ancestor (tree : Tree) (a : ℕ) : ℕ → Type 0 where
  self : Ancestor tree a a
  up : {b p : ℕ} → (tree b).previous ≡ some p → Ancestor tree a p → Ancestor tree a b

-- Heights count the blocks from the roots, and a skip pointer leads to the ancestor of its height.
pub record IsTree (tree : Tree) : Type 0 where
  pub root : (b : ℕ) → (tree b).previous ≡ none → (tree b).height ≡ 0
  pub child : (b p : ℕ) → (tree b).previous ≡ some p → (tree b).height ≡ suc (tree p).height
  pub skips :
      (b s : ℕ)
      → (tree b).skip ≡ some s
      → Ancestor tree s b × ((tree s).height ≡ get_skip_height (tree b).height)

module _ (tree : Tree) where
  pub Ancestor-trans : {a b c : ℕ} → Ancestor tree a b → Ancestor tree b c → Ancestor tree a c
  Ancestor-trans x self = x
  Ancestor-trans x (up e y) = up e (Ancestor-trans x y)

  pub Ancestor-le : {a b : ℕ} → IsTree tree → Ancestor tree a b → (tree a).height ≤ (tree b).height
  Ancestor-le w self = omega arith
  Ancestor-le {b = b} w (up {p = p} e y) = omega (arith, w.child b p e, Ancestor-le w y)

  -- A search from `walk` that ends at its ancestor of height `dest`.
  abbrev Finds : ℕ → ℕ → Option ℕ → Type 0
  Finds dest walk r = (a : ℕ) × (r ≡ some a) × Ancestor tree a walk × ((tree a).height ≡ dest)

  ancestor_loop-Finds :
      (w : IsTree tree) (fuel dest walk : ℕ)
      → dest ≤ (tree walk).height
      → (tree walk).height < fuel
      → Finds dest walk (ancestor_loop fuel tree dest walk (tree walk).height)
  unfolding ancestor_loop
  ancestor_loop-Finds w zero dest walk h f = absurd (omega arith)
  ancestor_loop-Finds w (suc fuel) dest walk h f = elim (le_or_lt (tree walk).height dest) [
    | inl low ↦
        rw (le→ltb dest (tree walk).height low, ancestor_loop) (walk, refl, self, (omega arith))
    | inr high ↦ elim (Option-cases (tree walk).previous) [
      | inl none_above ↦ absurd (omega (arith, w.root walk none_above))
      | inr (p, e) ↦
          let (a, r, x, y) =
            ancestor_loop-Finds w fuel dest p (omega (arith, w.child walk p e))
              (omega (arith, w.child walk p e)) in
          let below : (tree walk).height - 1 ≡ (tree p).height = omega (arith, w.child walk p e) in
          elim (Option-cases (tree walk).skip) [
            | inl unskipped ↦
                rw (lt→ltb dest (tree walk).height high, unskipped, e, below, ancestor_loop)
                  (a, r, up e x, y)
            | inr (s, d) ↦ elim (Bool-cases (follows_skip dest (tree walk).height)) [
              | inr stays ↦
                  rw (lt→ltb dest (tree walk).height high, d, stays, e, below, ancestor_loop)
                    (a, r, up e x, y)
              | inl follows ↦
                  let (above, level) = w.skips walk s d in
                  let (a', r', x', y') =
                    ancestor_loop-Finds w fuel dest s
                      (omega (arith, level, follows_skip-le dest (tree walk).height follows))
                      (omega (arith, level, skip_below (tree walk).height (omega arith))) in
                  rw (lt→ltb dest (tree walk).height high, d, follows, ← level, ancestor_loop)
                    (a', r', Ancestor-trans x' above, y')
            ]
          ]
    ]
  ]

  -- In a tree getAncestor finds the ancestor of every height up to the block's own, by whichever
  -- of the pointers it goes.
  pub get_ancestor-Ancestor :
      (w : IsTree tree) (block dest : ℕ)
      → dest ≤ (tree block).height
      → (a : ℕ) × (get_ancestor tree block dest ≡ some (some a))
        × Ancestor tree a block
        × ((tree a).height ≡ dest)
  unfolding get_ancestor
  get_ancestor-Ancestor w block dest h =
      let (a, r, x, y) =
        ancestor_loop-Finds w (suc (tree block).height) dest block h (omega arith) in
      (a, rw (le→ltb (tree block).height dest h, r, get_ancestor) refl, x, y)

  -- There is one ancestor at each height.
  pub Ancestor-unique :
      {a a' b : ℕ}
      → IsTree tree
      → Ancestor tree a b
      → Ancestor tree a' b
      → (tree a).height ≡ (tree a').height
      → a ≡ a'
  Ancestor-unique w self self h = refl
  Ancestor-unique {b = b} w self (up {p = p} e y) h =
      absurd (omega (arith, w.child b p e, Ancestor-le w y, h))
  Ancestor-unique {b = b} w (up {p = p} e x) self h =
      absurd (omega (arith, w.child b p e, Ancestor-le w x, h))
  Ancestor-unique {a' = a'} {b = b} w (up {p = p} e x) (up {p = q} f y) h =
      let same : p ≡ q = cc in Ancestor-unique w x (subst (λ z. Ancestor tree a' z) (sym same) y) h
