-- ===== src/Cache/Connect.antt =====
-- updateCoins: what connecting a block does to the best chain and to the coins.
use xbtc.Base.{
  ℕ, ◌≡◌, refl, sym, ◌∙◌, ap, Option, none, some, List, [], ◌∷◌, All, Option-cases, inl, inr,
  none-ne-some, arith,
}
use xbtc.Data.Transaction.{Transaction, is_coin_base}
use xbtc.Data.Block.{Block}
use xbtc.Chain.Ancestor.{IsTree}
use xbtc.Chain.Active.{Chain}
use xbtc.Coins.{CoinView}
use xbtc.Coins.Unspent.{Unspent}
use xbtc.Coins.Transfer.{IsFresh, IsApart, Accepts, applied}
use xbtc.Coins.Keeps.{Keeps}
use xbtc.Cache.{BlockIndex, BlockCache, deref, tree_of, Map, Node}
use xbtc.Cache.Index.{IsIndex}

abbrev node_of : BlockIndex → Node
node_of e = record { height = e.saved.height; previous = e.previous; skip = none }

abbrev no_node : Node
no_node = record { height = 0; previous = none; skip = none }

tree_of-some :
    (blocks : Map (Option BlockIndex)) (b : ℕ) (e : BlockIndex)
    → deref blocks b ≡ some e
    → tree_of blocks b ≡ node_of e
unfolding tree_of
tree_of-some blocks b e q = rw (q, tree_of) refl

tree_of-none :
    (blocks : Map (Option BlockIndex)) (b : ℕ) → deref blocks b ≡ none → tree_of blocks b ≡ no_node
unfolding tree_of
tree_of-none blocks b q = rw (q, tree_of) refl

no_skip : (blocks : Map (Option BlockIndex)) (b : ℕ) → (tree_of blocks b).skip ≡ none
no_skip blocks b = elim (Option-cases (deref blocks b)) [
  | inl q ↦ ap (λ (n : Node). n.skip) (tree_of-none blocks b q)
  | inr (e, q) ↦ ap (λ (n : Node). n.skip) (tree_of-some blocks b e q)
]

-- An index in form is a tree of blocks.
pub IsIndex-IsTree :
    (proof : ℕ → ℕ) (s : BlockCache)
    → IsIndex proof (deref s.blocks) s.best_header
    → IsTree (tree_of s.blocks)
IsIndex-IsTree proof s w = record {
  root = λ b q. elim (Option-cases (deref s.blocks b)) [
    | inl n ↦ rw (tree_of-none s.blocks b n) refl
    | inr (e, n) ↦
        let at_b = tree_of-some s.blocks b e n in rw at_b ((w.linked b e n).first (rw at_b at q)).0
  ];
  child = λ b p q. elim (Option-cases (deref s.blocks b)) [
    | inl n ↦ absurd (none-ne-some (rw (tree_of-none s.blocks b n) at q))
    | inr (e, n) ↦
        let at_b = tree_of-some s.blocks b e n in
        let (name, (d, at_p, follows)) = (w.linked b e n).after p (rw at_b at q) in
        rw (at_b, tree_of-some s.blocks p d at_p) (omega (arith, follows.height))
  ];
  skips = λ b k q. absurd (none-ne-some (sym (no_skip s.blocks b) ∙ q));
}

-- No transaction spends an output of its own or of a later one, and no hash has been spent from.
unfoldable pub Ordered : List Transaction → CoinView → Type 0
Ordered [] v = Unit {0}
Ordered (tx ∷ txs) v =
    IsFresh tx.hash v
    × IsApart tx.hash tx.inputs
    × All (λ later. IsApart later.hash tx.inputs) txs
    × Ordered txs v

-- The transactions, in turn, are accepted by the set.
unfoldable pub AcceptsAll : List Transaction → ℕ → Unspent → Type 0
AcceptsAll [] height u = Unit {0}
AcceptsAll (tx ∷ txs) height u =
    Accepts (is_coin_base tx) tx u × AcceptsAll txs height (applied tx height u)

unfoldable pub applied_all : List Transaction → ℕ → Unspent → Unspent
applied_all [] height u = u
applied_all (tx ∷ txs) height u = applied_all txs height (applied tx height u)
