-- ===== src/Chain/Runs.antt =====
-- The theorems on the block tree, at two branches of three blocks.
use xbtc.Base.{
  Option, ◌==◌, if◌then◌else◌, subst, sym, List, ℕ, zero, suc, ◌≡◌, refl, none, some, arith,
}
use xbtc.Chain.Index.{Tree, get_ancestor, build_skip, get_skip_height}
use xbtc.Chain.Ancestor.{Ancestor, self, up, IsTree, get_ancestor-Ancestor}
use xbtc.Chain.Skip.{build_skip-IsTree}
use xbtc.Chain.Active.{Chain, empty_chain, set_tip, find_last_common_ancestor}
use xbtc.Chain.Tip.{IsChain-IsCoherent, IsChain, IsCoherent, empty-IsCoherent, set_tip-IsChain}
use xbtc.Chain.Locator.{get_locator, Locates, get_locator-Locates}
use xbtc.Chain.Fork.{IsLastCommon, find_last_common_ancestor-IsLastCommon}

-- Blocks 1 and 2 are the children of block 0, and 3 is the child of 2.
abbrev forked : Tree
forked zero = record { height = 0; previous = none; skip = none }
forked (suc zero) = record { height = 1; previous = some 0; skip = some 0 }
forked (suc (suc zero)) = record { height = 1; previous = some 0; skip = some 0 }
forked (suc (suc (suc zero))) = record { height = 2; previous = some 2; skip = none }
forked (suc (suc (suc (suc n)))) = record { height = 0; previous = none; skip = none }

some-eq : {a b : ℕ} → some a ≡ some b → a ≡ b
some-eq e = cc

of_root : {p : ℕ} → 0 ≡ p → 1 ≡ suc (forked p).height
of_root e = rw (← e) refl

forked-root : (b : ℕ) → (forked b).previous ≡ none → (forked b).height ≡ 0
forked-root zero e = refl
forked-root (suc zero) e = cc
forked-root (suc (suc zero)) e = cc
forked-root (suc (suc (suc zero))) e = cc
forked-root (suc (suc (suc (suc b)))) e = refl

forked-child : (b p : ℕ) → (forked b).previous ≡ some p → (forked b).height ≡ suc (forked p).height
forked-child zero p e = cc
forked-child (suc zero) p e = of_root (some-eq e)
forked-child (suc (suc zero)) p e = of_root (some-eq e)
forked-child (suc (suc (suc zero))) p e = rw (← some-eq e) refl
forked-child (suc (suc (suc (suc b)))) p e = cc

forked-skips :
    (b s : ℕ)
    → (forked b).skip ≡ some s
    → Ancestor forked s b × ((forked s).height ≡ get_skip_height (forked b).height)
unfolding get_skip_height
forked-skips zero s e = cc
forked-skips (suc zero) s e = rw (← some-eq e) (up refl self, refl)
forked-skips (suc (suc zero)) s e = rw (← some-eq e) (up refl self, refl)
forked-skips (suc (suc (suc zero))) s e = cc
forked-skips (suc (suc (suc (suc b)))) s e = cc

forked-IsTree : IsTree forked
forked-IsTree = record { root = forked-root; child = forked-child; skips = forked-skips }

get_ancestor-Ancestor_example :
    (a : ℕ) × (get_ancestor forked 3 1 ≡ some (some a))
    × Ancestor forked a 3
    × ((forked a).height ≡ 1)
get_ancestor-Ancestor_example = get_ancestor-Ancestor forked forked-IsTree 3 1 (omega arith)

build_skip-IsTree_example : (tree' : Tree) × (build_skip forked 3 ≡ some tree') × IsTree tree'
build_skip-IsTree_example = build_skip-IsTree forked 3 forked-IsTree

set_tip-IsChain_example :
    (c' : Chain) × (set_tip forked empty_chain (some 3) ≡ some c')
    × IsChain forked forked-IsTree c' 3
    × IsCoherent forked forked-IsTree c'
set_tip-IsChain_example =
    set_tip-IsChain forked forked-IsTree empty_chain 3 (empty-IsCoherent forked forked-IsTree)

find_last_common_ancestor-IsLastCommon_example :
    (c : ℕ) × (find_last_common_ancestor forked 3 1 ≡ some (some c))
    × IsLastCommon forked forked-IsTree 3 1 c
find_last_common_ancestor-IsLastCommon_example =
    find_last_common_ancestor-IsLastCommon forked forked-IsTree 3 1 0 (up refl (up refl self))
      (up refl self)

-- The chain of block 1.
abbrev entries : ℕ → Option ℕ
entries zero = some 0
entries (suc h) = if h == 0 then some 1 else none

abbrev best : Chain
best = record { size = 2; entry = entries }

of_genesis : (a : ℕ) → Ancestor forked a 0 → best.entry (forked a).height ≡ some a
of_genesis a self = refl
of_genesis a (up e x) = cc

of_best : (a : ℕ) → Ancestor forked a 1 → best.entry (forked a).height ≡ some a
of_best a self = refl
of_best a (up e x) = of_genesis a (subst (Ancestor forked a) (sym (some-eq e)) x)

best-IsCoherent : IsCoherent forked forked-IsTree best
best-IsCoherent =
    IsChain-IsCoherent forked forked-IsTree best 1 (record { size = refl; holds = of_best })

get_locator-Locates_example :
    (have : List ℕ) × (get_locator forked best (some 3) ≡ some have) × Locates forked 1 0 3 have
get_locator-Locates_example = get_locator-Locates forked forked-IsTree best best-IsCoherent 3
