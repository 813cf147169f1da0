-- ===== src/Net/Sync/Path.antt =====
-- The blocks between an ancestor and a block.
use xbtc.Base.{ℕ, zero, suc, ◌+◌, ◌≡◌, refl, ◌∙◌, ap, some, List, [], ◌∷◌, length, arith}
use xbtc.Chain.Index.{Tree}
use xbtc.Chain.Ancestor.{Ancestor, self, up, IsTree, Ancestor-unique}
use xbtc.Net.Sync.{fill_back}

-- From the block after `c` to the block `b`, each the parent of the next.
pub data Leads (tree : Tree) : ℕ → ℕ → List ℕ → Type 0 where
  here : {c : ℕ} → Leads tree c c []
  next :
      {c p b : ℕ} {blocks : List ℕ}
      → (tree p).previous ≡ some c
      → Leads tree p b blocks
      → Leads tree c b (p ∷ blocks)

module _ (tree : Tree) (w : IsTree tree) where
  pub length-Leads :
      {c b : ℕ} {blocks : List ℕ}
      → Leads tree c b blocks
      → (tree b).height ≡ (tree c).height + length blocks
  length-Leads here = omega arith
  length-Leads (next {c = c} {p = p} e l) = omega (arith, w.child p c e, length-Leads l)

  pub fill_back-Leads :
      (c b n x : ℕ) (blocks : List ℕ)
      → Ancestor tree c x
      → (tree x).height ≡ (tree c).height + suc n
      → Leads tree x b blocks
      → (all : List ℕ) × (fill_back (suc n) tree x blocks ≡ some all)
        × Leads tree c b all
        × (length all ≡ suc n + length blocks)
  unfolding fill_back
  fill_back-Leads c b n x blocks self h l = absurd (omega arith)
  fill_back-Leads c b zero x blocks (up {p = p} e a) h l =
      let same : p ≡ c = Ancestor-unique tree w self a (omega (arith, w.child x p e)) in
      (x ∷ blocks, refl, next (e ∙ ap some same) l, omega arith)
  fill_back-Leads c b (suc n) x blocks (up {p = p} e a) h l =
      let level = w.child x p e in
      let (all, r, l', size) = fill_back-Leads c b n p (x ∷ blocks) a (omega arith) (next e l) in
      (all, rw (e, fill_back) r, l', omega arith)
