-- ===== src/Chain/Tip.antt =====
-- setTip leaves the chain of the new tip, whatever chain it starts from.
use xbtc.Base.{
  ℕ, zero, suc, ◌+◌, ◌≤◌, ◌<◌, ◌≡◌, refl, sym, ◌∙◌, ap, subst, true, Option, none, some, arith,
  Bool-cases, Option-cases, inl, inr, ==_iff, ==_refl, lt→==, ne→==, lt→ltb, le→ltb, le_or_lt,
  none-ne-some,
}
use xbtc.Chain.Index.{Tree}
use xbtc.Chain.Ancestor.{
  Ancestor, self, up, IsTree, Ancestor-le, Ancestor-trans, get_ancestor-Ancestor,
}
use xbtc.Chain.Active.{Chain, resize, put, is_block, tip_loop, set_tip, empty_chain}

-- The chain has every ancestor of `b` at its height.
abbrev Holds : Tree → Chain → ℕ → Type 0
Holds tree c b = (a : ℕ) → Ancestor tree a b → c.entry (tree a).height ≡ some a

-- Up to a height, an entry is of its height, and below it are its ancestors.
abbrev Grounded : Tree → Chain → ℕ → Type 0
Grounded tree c n = (h x : ℕ) → h ≤ n → c.entry h ≡ some x → ((tree x).height ≡ h) × Holds tree c x

module _ (tree : Tree) (w : IsTree tree) where
  -- A block above a height leaves what is there.
  put-low :
      (c : Chain) (b h : ℕ) → h < (tree b).height → (put (tree b).height b c).entry h ≡ c.entry h
  put-low c b h lt = rw (lt→== h (tree b).height lt) refl

  put-Grounded :
      (c : Chain) (b n : ℕ)
      → n < (tree b).height
      → Grounded tree c n
      → Grounded tree (put (tree b).height b c) n
  put-Grounded c b n lt g h x le e =
      let (y, z) = g h x le (sym (put-low c b h (omega arith)) ∙ e) in
      (y, λ a anc. put-low c b (tree a).height (omega (arith, Ancestor-le tree w anc, y)) ∙ z a anc)

  put-here : (c : Chain) (b : ℕ) → (put (tree b).height b c).entry (tree b).height ≡ some b
  put-here c b = rw (==_refl (tree b).height) refl

  put-high :
      (c : Chain) (b h : ℕ) → (tree b).height < h → (put (tree b).height b c).entry h ≡ c.entry h
  put-high c b h lt = rw (ne→== h (tree b).height (omega arith)) refl

  is_block-eq : (o : Option ℕ) (b : ℕ) → is_block o b ≡ true → o ≡ some b
  unfolding is_block
  is_block-eq none b e = cc
  is_block-eq (some x) b e = ap some ((==_iff x b).0 e)

  tip_loop-none : (fuel : ℕ) (c : Chain) → 0 < fuel → tip_loop fuel tree c none ≡ some c
  unfolding tip_loop
  tip_loop-none zero c h = absurd (omega arith)
  tip_loop-none (suc fuel) c h = refl

  -- A block is at its place when its parents are.
  Holds-root :
      (c : Chain) (b : ℕ)
      → (tree b).previous ≡ none
      → c.entry (tree b).height ≡ some b
      → Holds tree c b
  Holds-root c b e f a self = f
  Holds-root c b e f a (up g x) = cc

  Holds-child :
      (c : Chain) (b p : ℕ)
      → (tree b).previous ≡ some p
      → c.entry (tree b).height ≡ some b
      → Holds tree c p
      → Holds tree c b
  Holds-child c b p e f hp a self = f
  Holds-child c b p e f hp a (up {p = q} g x) =
      let same : q ≡ p = cc in hp a (subst (λ z. Ancestor tree a z) same x)

  -- What the loop leaves: the ancestors of the block in place, and the entries above it as they were.
  abbrev Sets : Chain → ℕ → Option Chain → Type 0
  Sets c b r =
      (c' : Chain) × (r ≡ some c')
      × (c'.size ≡ c.size)
      × Holds tree c' b
      × ((h : ℕ) → (tree b).height < h → c'.entry h ≡ c.entry h)

  tip_loop-Sets :
      (fuel : ℕ) (c : Chain) (b : ℕ)
      → (tree b).height + 1 < fuel
      → Grounded tree c (tree b).height
      → Sets c b (tip_loop fuel tree c (some b))
  unfolding tip_loop
  tip_loop-Sets zero c b lt g = absurd (omega arith)
  tip_loop-Sets (suc fuel) c b lt g = elim (Bool-cases (is_block (c.entry (tree b).height) b)) [
    | inl found ↦ (
      c,
      rw (found, tip_loop) refl,
      refl,
      (g (tree b).height b (omega arith) (is_block-eq (c.entry (tree b).height) b found)).1,
      λ h k. refl,
    )
    | inr new ↦ elim (Option-cases (tree b).previous) [
      | inl e ↦ (
        put (tree b).height b c,
        rw (new, e, tip_loop) (tip_loop-none fuel (put (tree b).height b c) (omega arith)),
        refl,
        Holds-root (put (tree b).height b c) b e (put-here c b),
        λ h k. put-high c b h k,
      )
      | inr (p, e) ↦
          let c1 = put (tree b).height b c in
          let (c', r, s, holds, above) = tip_loop-Sets fuel c1 p (omega (arith, w.child b p e)) (
            put-Grounded c b (tree p).height (omega (arith, w.child b p e))
              (λ h x le. g h x (omega (arith, w.child b p e)))) in
          (
            c',
            rw (new, e, tip_loop) r,
            s,
            Holds-child c' b p e
                (above (tree b).height (omega (arith, w.child b p e)) ∙ put-here c b) holds,
            λ h k. above h (omega (arith, w.child b p e)) ∙ put-high c b h k,
          )
    ]
  ]

  -- A chain in which an entry is of its height, and the block's ancestors are below it.
  pub record IsCoherent (c : Chain) : Type 0 where
    pub level : (h x : ℕ) → h < c.size → c.entry h ≡ some x → (tree x).height ≡ h
    pub below : (h x : ℕ) → h < c.size → c.entry h ≡ some x → Holds tree c x

  -- The chain of a tip: it ends at the tip's height, and has the tip's ancestors at their heights.
  pub record IsChain (c : Chain) (tip : ℕ) : Type 0 where
    pub size : c.size ≡ suc (tree tip).height
    pub holds : (a : ℕ) → Ancestor tree a tip → c.entry (tree a).height ≡ some a

  -- Nothing but the tip's ancestors is in its chain.
  pub IsChain-Ancestor :
      (c : Chain) (tip h x : ℕ)
      → IsChain c tip
      → h < c.size
      → c.entry h ≡ some x
      → Ancestor tree x tip × ((tree x).height ≡ h)
  IsChain-Ancestor c tip h x k lt e =
      let (a, r, anc, level) = get_ancestor-Ancestor tree w tip h (omega (arith, k.size)) in
      let here : c.entry h ≡ some a = ap c.entry (sym level) ∙ k.holds a anc in
      let same : a ≡ x = cc in
      subst (λ z. Ancestor tree z tip × ((tree z).height ≡ h)) same (anc, level)

  pub IsChain-IsCoherent : (c : Chain) (tip : ℕ) → IsChain c tip → IsCoherent c
  IsChain-IsCoherent c tip k = record {
    level = λ h x lt e. (IsChain-Ancestor c tip h x k lt e).1;
    below =
        λ h x lt e a anc. k.holds a (Ancestor-trans tree anc (IsChain-Ancestor c tip h x k lt e).0);
  }

  pub empty-IsCoherent : IsCoherent empty_chain
  empty-IsCoherent = record {
    level = λ h x lt e. absurd (omega arith);
    below = λ h x lt e. absurd (omega arith);
  }

  resize-entry : (c : Chain) (n h : ℕ) → h < c.size → h < n → (resize n c).entry h ≡ c.entry h
  unfolding resize
  resize-entry c n h lt k = rw (lt→ltb h c.size lt, lt→ltb h n k) refl

  resize-Grounded : (c : Chain) (n : ℕ) → IsCoherent c → Grounded tree (resize (suc n) c) n
  unfolding resize
  resize-Grounded c n k h x le e = elim (le_or_lt c.size h) [
    | inl beyond ↦ absurd (none-ne-some (rw (le→ltb h c.size beyond, resize) at e))
    | inr within ↦
        let f : c.entry h ≡ some x = sym (resize-entry c (suc n) h within (omega arith)) ∙ e in
        let level = k.level h x within f in
        (
          level,
          λ a anc.
              let low = Ancestor-le tree w anc in
              resize-entry c (suc n) (tree a).height (omega arith) (omega arith)
              ∙ k.below h x within f a anc,
        )
  ]

  -- From every coherent chain, such as the empty one, setTip ends, and leaves the chain of the new
  -- tip, with every ancestor of the tip at its height; it is coherent again.
  pub set_tip-IsChain :
      (c : Chain) (tip : ℕ)
      → IsCoherent c
      → (c' : Chain) × (set_tip tree c (some tip) ≡ some c') × IsChain c' tip × IsCoherent c'
  unfolding set_tip
  set_tip-IsChain c tip k =
      let (c', r, s, holds, above) =
        tip_loop-Sets (suc (suc (tree tip).height)) (resize (suc (tree tip).height) c) tip
          (omega arith) (resize-Grounded c (tree tip).height k) in
      let chain : IsChain c' tip = record { size = s; holds = holds } in
      (c', r, chain, IsChain-IsCoherent c' tip chain)
