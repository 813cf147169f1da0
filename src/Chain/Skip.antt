-- ===== src/Chain/Skip.antt =====
-- buildSkip gives a block the skip pointer that getAncestor relies on.
use xbtc.Base.{
  ℕ, suc, ◌≡◌, refl, sym, ◌∙◌, ap, subst, Option, some, ◌==◌, arith, Bool-cases, Option-cases, inl,
  inr, ==_iff,
}
use xbtc.Chain.Index.{Tree, get_skip_height, set_skip, build_skip}
use xbtc.Chain.Ancestor.{Ancestor, self, up, IsTree, get_ancestor-Ancestor, skip_below}

module _ (tree : Tree) (block : ℕ) (s : Option ℕ) where
  previous-set_skip : (x : ℕ) → (set_skip tree block s x).previous ≡ (tree x).previous
  previous-set_skip x = elim (Bool-cases (x == block)) [ inl e ↦ rw e refl | inr e ↦ rw e refl ]

  height-set_skip : (x : ℕ) → (set_skip tree block s x).height ≡ (tree x).height
  height-set_skip x = elim (Bool-cases (x == block)) [ inl e ↦ rw e refl | inr e ↦ rw e refl ]

  Ancestor-set_skip : {a b : ℕ} → Ancestor tree a b → Ancestor (set_skip tree block s) a b
  Ancestor-set_skip self = self
  Ancestor-set_skip {b = b} (up e x) = up (previous-set_skip b ∙ e) (Ancestor-set_skip x)

  -- A tree stays one when the pointer is what it should be.
  IsTree-set_skip :
      IsTree tree
      → ((a : ℕ)
          → s ≡ some a
          → Ancestor tree a block × ((tree a).height ≡ get_skip_height (tree block).height))
      → IsTree (set_skip tree block s)
  IsTree-set_skip w good = record {
    root = λ b e. height-set_skip b ∙ w.root b (sym (previous-set_skip b) ∙ e);
    child = λ b p e.
        height-set_skip b
        ∙ w.child b p (sym (previous-set_skip b) ∙ e)
        ∙ ap suc (sym (height-set_skip p));
    skips = λ b a e. rw (height-set_skip b, height-set_skip a) (moved b a e);
  }
    where
      moved :
          (b a : ℕ)
          → (set_skip tree block s b).skip ≡ some a
          → Ancestor (set_skip tree block s) a b
            × ((tree a).height ≡ get_skip_height (tree b).height)
      moved b a e = elim (Bool-cases (b == block)) [
        | inl same ↦
            let at_block : b ≡ block = (==_iff b block).0 same in
            let (x, y) = good a (rw same at e) in rw at_block (Ancestor-set_skip x, y)
        | inr other ↦ let (x, y) = w.skips b a (rw other at e) in (Ancestor-set_skip x, y)
      ]

-- In a tree, buildSkip succeeds for every block and leaves a tree, with the skip pointers that
-- getAncestor relies on.
pub build_skip-IsTree :
    (tree : Tree) (block : ℕ)
    → IsTree tree
    → (tree' : Tree) × (build_skip tree block ≡ some tree') × IsTree tree'
unfolding build_skip
build_skip-IsTree tree block w = elim (Option-cases (tree block).previous) [
  | inl e ↦ (tree, rw (e, build_skip) refl, w)
  | inr (p, e) ↦
      let (a, r, x, y) = get_ancestor-Ancestor tree w p (get_skip_height (tree block).height) (
        omega (
          arith,
          w.child block p e,
          skip_below (tree block).height (omega (arith, w.child block p e)),
        )) in
      (
        set_skip tree block (some a),
        rw (e, r, build_skip) refl,
        IsTree-set_skip tree block (some a) w λ a' f.
            let same : a ≡ a' = cc in
            subst
              (λ z. Ancestor tree z block × ((tree z).height ≡ get_skip_height (tree block).height))
              same (up e x, y),
      )
]
