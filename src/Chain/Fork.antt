-- ===== src/Chain/Fork.antt =====
-- findLastCommonAncestor finds where two branches part.
use xbtc.Base.{
  ℕ, zero, suc, ◌+◌, ◌≤◌, ◌<◌, ◌≡◌, refl, sym, subst, true, false, Option, some, ◌==◌, arith,
  Bool-cases, inl, inr, ==_iff, lt→ltb, le→ltb, le_or_lt,
}
use xbtc.Chain.Index.{Tree}
use xbtc.Chain.Ancestor.{
  Ancestor, self, up, IsTree, Ancestor-le, Ancestor-trans, Ancestor-unique, get_ancestor-Ancestor,
}
use xbtc.Chain.Active.{common_loop, find_last_common_ancestor}

module _ (tree : Tree) (w : IsTree tree) where
  -- Of two ancestors the lower one is an ancestor of the other.
  pub Ancestor-between :
      {a z b : ℕ}
      → Ancestor tree a b
      → Ancestor tree z b
      → (tree z).height ≤ (tree a).height
      → Ancestor tree z a
  Ancestor-between self y h = y
  Ancestor-between {b = b} (up {p = p} e x) self h =
      absurd (omega (arith, w.child b p e, Ancestor-le tree w x))
  Ancestor-between {z = z} (up {p = p} e x) (up {p = q} f y) h =
      let same : q ≡ p = cc in Ancestor-between x (subst (λ t. Ancestor tree z t) same y) h

  -- The last common ancestor of two blocks: the others are its ancestors.
  unfoldable pub IsLastCommon : ℕ → ℕ → ℕ → Type 0
  IsLastCommon x y c =
      Ancestor tree c x
      × Ancestor tree c y
      × ((z : ℕ) → Ancestor tree z x → Ancestor tree z y → Ancestor tree z c)

  Meets : ℕ → ℕ → Option (Option ℕ) → Type 0
  unfolding IsLastCommon
  Meets x y r = (c : ℕ) × (r ≡ some (some c)) × IsLastCommon x y c

  differ : {x y : ℕ} → (x == y) ≡ false → x ≡ y → ⊥
  differ {x} {y} ne e = let eq : (x == y) ≡ true = (==_iff x y).1 e in cc

  -- Above two different blocks of a height, a common ancestor is one of their parents.
  parents_of :
      {x y z : ℕ}
      → (tree x).height ≡ (tree y).height
      → (x == y) ≡ false
      → Ancestor tree z x
      → Ancestor tree z y
      → (p : ℕ) × (q : ℕ) × ((tree x).previous ≡ some p)
        × ((tree y).previous ≡ some q)
        × Ancestor tree z p
        × Ancestor tree z q
  parents_of h ne (up {p = p} e x) (up {p = q} f y) = (p, q, e, f, x, y)
  parents_of {x} {y} h ne self v = absurd (differ ne (Ancestor-unique tree w v self h))
  parents_of {x} {y} h ne (up e u) self =
      absurd (differ ne (sym (Ancestor-unique tree w (up e u) self (sym h))))

  common_loop-Meets :
      (fuel x y z : ℕ)
      → (tree x).height ≡ (tree y).height
      → (tree x).height + 1 < fuel
      → Ancestor tree z x
      → Ancestor tree z y
      → Meets x y (common_loop fuel tree (some x) (some y))
  unfolding common_loop Meets IsLastCommon
  common_loop-Meets zero x y z h lt u v = absurd (omega arith)
  common_loop-Meets (suc fuel) x y z h lt u v = elim (Bool-cases (x == y)) [
    | inl same ↦
        let e : x ≡ y = (==_iff x y).0 same in
        (x, rw (same, common_loop) refl, (self, subst (λ t. Ancestor tree x t) e self, λ z' a b. a))
    | inr other ↦
        let (p, q, e, f, u', v') = parents_of h other u v in
        let level : (tree p).height ≡ (tree q).height =
          omega (arith, w.child x p e, w.child y q f) in
        let (c, r, (cx, cy, last)) =
          common_loop-Meets fuel p q z level (omega (arith, w.child x p e)) u' v' in
        (
          c,
          rw (other, e, f, common_loop) r,
          (
            up e cx,
            up f cy,
            λ z' a b.
                let (p', q', e', f', a', b') = parents_of h other a b in
                let first : p' ≡ p = cc in
                let second : q' ≡ q = cc in
                last z' (subst (λ t. Ancestor tree z' t) first a')
                  (subst (λ t. Ancestor tree z' t) second b'),
          ),
        )
  ]

  -- What is last in common with an ancestor that is high enough is so with the block.
  Meets-above :
      (x y a : ℕ) (r : Option (Option ℕ))
      → Ancestor tree a x
      → (tree a).height ≡ (tree y).height
      → Meets a y r
      → Meets x y r
  unfolding Meets IsLastCommon
  Meets-above x y a r u h (c, e, (ca, cy, last)) = (
    c,
    e,
    (
      Ancestor-trans tree ca u,
      cy,
      λ z p q. last z (Ancestor-between u p (omega (arith, Ancestor-le tree w q))) q,
    ),
  )

  Meets-swap : (x y : ℕ) (r : Option (Option ℕ)) → Meets x y r → Meets y x r
  unfolding Meets IsLastCommon
  Meets-swap x y r (c, e, (cx, cy, last)) = (c, e, (cy, cx, λ z p q. last z q p))

  -- Two blocks with a common ancestor have a last one, of which every common ancestor is an
  -- ancestor, and findLastCommonAncestor returns it.
  pub find_last_common_ancestor-IsLastCommon :
      (x y z : ℕ)
      → Ancestor tree z x
      → Ancestor tree z y
      → (c : ℕ) × (find_last_common_ancestor tree x y ≡ some (some c)) × IsLastCommon x y c
  unfolding find_last_common_ancestor Meets IsLastCommon
  find_last_common_ancestor-IsLastCommon x y z u v =
      elim (le_or_lt (tree x).height (tree y).height) [
        | inr high ↦
            let (a, r, anc, level) = get_ancestor-Ancestor tree w x (tree y).height (omega arith) in
            let below = Ancestor-between anc u (omega (arith, Ancestor-le tree w v)) in
            rw (lt→ltb (tree y).height (tree x).height high, r, find_last_common_ancestor)
              (Meets-above x y a _ anc level
                (common_loop-Meets (suc (suc (tree x).height)) a y z level (omega arith) below v))
        | inl low ↦ elim (le_or_lt (tree y).height (tree x).height) [
          | inl same ↦
              rw
                (
                  le→ltb (tree y).height (tree x).height low,
                  le→ltb (tree x).height (tree y).height same,
                  find_last_common_ancestor,
                )
                (common_loop-Meets (suc (suc (tree x).height)) x y z (omega arith) (omega arith) u
                  v)
          | inr high ↦
              let (a, r, anc, level) =
                get_ancestor-Ancestor tree w y (tree x).height (omega arith) in
              let below = Ancestor-between anc v (omega (arith, Ancestor-le tree w u)) in
              let met =
                common_loop-Meets (suc (suc (tree x).height)) x a z (sym level) (omega arith) u
                  below in
              rw
                (
                  le→ltb (tree y).height (tree x).height low,
                  lt→ltb (tree x).height (tree y).height high,
                  r,
                  find_last_common_ancestor,
                )
                (Meets-swap y x _ (Meets-above y x a _ anc level (Meets-swap x a _ met)))
        ]
      ]
