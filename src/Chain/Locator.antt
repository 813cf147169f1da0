-- ===== src/Chain/Locator.antt =====
-- BlockChainImpl::getLocator of src/storage/BlockChain.cpp.
use xbtc.Base.{
  ℕ, zero, suc, ◌*◌, ◌-◌, ◌≤◌, ◌<◌, ◌≡◌, refl, ◌∙◌, ap, true, false, Option, none, some, ◌>>=◌,
  List, [], ◌∷◌, ltb, ◌==◌, if◌then◌else◌, arith, Bool-cases, Option-cases, inl, inr, lt→ltb,
  ==_iff, ltb→lt,
}
use xbtc.Chain.Index.{Tree, get_ancestor}
use xbtc.Chain.Ancestor.{Ancestor, IsTree, get_ancestor-Ancestor}
use xbtc.Chain.Active.{Chain, get_block, is_block, contains, get_tip}
use xbtc.Chain.Tip.{IsCoherent}

-- The loop, on fuel: `size` is how many blocks have been listed. A block stands for its hash.
unfoldable pub locator_loop : ℕ → Tree → Chain → ℕ → ℕ → Option ℕ → Option (List ℕ)
unfolding get_block contains get_ancestor
locator_loop zero tree c step size block = none
locator_loop (suc fuel) tree c step size none = some []
locator_loop (suc fuel) tree c step size (some b) =
    let height = (tree b).height - step in
    let step' = if ltb 10 (suc size) then step * 2 else step in
    let further =
      if contains tree c b then some (get_block c height) else get_ancestor tree b height in
    let rest = further >>= λ a. locator_loop fuel tree c step' (suc size) a in
    if (tree b).height == 0 then some (b ∷ []) else (rest >>= λ have. some (b ∷ have))

unfoldable pub locator_from : Tree → Chain → Option ℕ → Option (List ℕ)
unfolding locator_loop
locator_from tree c none = some []
locator_from tree c (some b) = locator_loop (suc (tree b).height) tree c 1 0 (some b)

-- getLocator; the locator of no block is that of the tip.
unfoldable pub get_locator : Tree → Chain → Option ℕ → Option (List ℕ)
unfolding locator_from get_tip
get_locator tree c none = get_tip c >>= λ tip. locator_from tree c tip
get_locator tree c (some b) = locator_from tree c (some b)

-- From a block the ancestors `step` blocks back, and so on to a block of height 0; the step is doubled
-- from the eleventh on.
pub data Locates (tree : Tree) : ℕ → ℕ → ℕ → List ℕ → Type 0 where
  genesis : {step size b : ℕ} → (tree b).height ≡ 0 → Locates tree step size b (b ∷ [])
  back :
      {step size b a : ℕ} {have : List ℕ}
      → 0 < (tree b).height
      → Ancestor tree a b
      → (tree a).height ≡ (tree b).height - step
      → Locates tree (if ltb 10 (suc size) then step * 2 else step) (suc size) a have
      → Locates tree step size b (b ∷ have)

next_step-pos : (step size : ℕ) → 0 < step → 0 < (if ltb 10 (suc size) then step * 2 else step)
next_step-pos step size s = elim (Bool-cases (ltb 10 (suc size))) [
  | inl e ↦ rw e (omega arith)
  | inr e ↦ rw e s
]

module _ (tree : Tree) (w : IsTree tree) (c : Chain) (k : IsCoherent tree w c) where
  further : ℕ → ℕ → Option (Option ℕ)
  further b height =
      if contains tree c b then some (get_block c height) else get_ancestor tree b height

  contains-entry :
      (b : ℕ)
      → contains tree c b ≡ true
      → ((tree b).height < c.size) × (c.entry (tree b).height ≡ some b)
  unfolding contains get_block is_block
  contains-entry b e = elim (Bool-cases (ltb (tree b).height c.size)) [
    | inr f ↦ let bad : false ≡ true = rw (f, get_block, is_block) at e in cc
    | inl f ↦ elim (Option-cases (c.entry (tree b).height)) [
      | inl g ↦ let bad : false ≡ true = rw (f, g, get_block, is_block) at e in cc
      | inr (x, g) ↦ (
        ltb→lt (tree b).height c.size f,
        g ∙ ap some ((==_iff x b).0 (rw (f, g, get_block, is_block) at e)),
      )
    ]
  ]

  -- The chain and the skip list give the same ancestor.
  further-Ancestor :
      (b height : ℕ)
      → height ≤ (tree b).height
      → (a : ℕ) × (further b height ≡ some (some a))
        × Ancestor tree a b
        × ((tree a).height ≡ height)
  unfolding further get_block
  further-Ancestor b height le =
      let (a, r, anc, level) = get_ancestor-Ancestor tree w b height le in
      elim (Bool-cases (contains tree c b)) [
        | inr e ↦ (a, rw e r, anc, level)
        | inl e ↦
            let (inside, here) = contains-entry b e in
            let at_a = k.below (tree b).height b inside here a anc in
            (
              a,
              rw (e, lt→ltb height c.size (omega arith), get_block, ← level) (ap some at_a),
              anc,
              level,
            )
      ]

  locator_loop-Locates :
      (fuel step size b : ℕ)
      → 0 < step
      → (tree b).height < fuel
      → (have : List ℕ) × (locator_loop fuel tree c step size (some b) ≡ some have)
        × Locates tree step size b have
  unfolding locator_loop further
  locator_loop-Locates zero step size b s f = absurd (omega arith)
  locator_loop-Locates (suc fuel) step size b s f = elim (Bool-cases ((tree b).height == 0)) [
    | inl e ↦ (b ∷ [], rw e refl, genesis ((==_iff (tree b).height 0).0 e))
    | inr e ↦
        let (a, r, anc, level) = further-Ancestor b ((tree b).height - step) (omega arith) in
        let high : 0 < (tree b).height = ground arith in
        let step' = if ltb 10 (suc size) then step * 2 else step in
        let (have, t, loc) =
          locator_loop-Locates fuel step' (suc size) a (next_step-pos step size s)
            (omega (arith, level)) in
        (b ∷ have, rw (e, r, t) refl, back high anc level loc)
  ]

  -- Over a coherent chain in a tree, getLocator ends for every block and lists the block, the
  -- ancestor one block back, and so on to a block of height 0, with a step that is doubled from
  -- the eleventh on, whether the chain or the skip list gives the ancestor.
  pub get_locator-Locates :
      (b : ℕ)
      → (have : List ℕ) × (get_locator tree c (some b) ≡ some have) × Locates tree 1 0 b have
  unfolding get_locator locator_from
  get_locator-Locates b =
      locator_loop-Locates (suc (tree b).height) 1 0 b (omega arith) (omega arith)
