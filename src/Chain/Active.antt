-- ===== src/Chain/Active.antt =====
-- BlockChainImpl of src/storage/BlockChain.cpp: the blocks of the best chain, by their heights.
use xbtc.Base.{ℕ, zero, suc, ◌-◌, Bool, false, Option, none, some, ◌>>=◌, ltb, ◌==◌, if◌then◌else◌}
use xbtc.Chain.Index.{Tree, get_ancestor}

-- m_blocks: its size, and its entries, which mean something below that. `none` is a null pointer.
pub record Chain : Type 0 where
  pub size : ℕ
  pub entry : ℕ → Option ℕ

abbrev pub empty_chain : Chain
empty_chain = record { size = 0; entry = λ h. none }

-- resize: what it adds is null.
unfoldable pub resize : ℕ → Chain → Chain
resize n c = record {
  size = n;
  entry = λ h. if ltb h c.size then (if ltb h n then c.entry h else none) else none;
}

abbrev pub put : ℕ → ℕ → Chain → Chain
put height block c = record c { entry = λ h. if h == height then some block else c.entry h }

unfoldable pub is_block : Option ℕ → ℕ → Bool
is_block none block = false
is_block (some b) block = b == block

unfoldable pub get_block : Chain → ℕ → Option ℕ
get_block c height = if ltb height c.size then c.entry height else none

unfoldable pub contains : Tree → Chain → ℕ → Bool
unfolding get_block is_block
contains tree c block = is_block (get_block c (tree block).height) block

unfoldable pub next : Tree → Chain → ℕ → Option ℕ
unfolding get_block
next tree c block = get_block c (suc (tree block).height)

-- getHeight and getTip: `none` is the failed assertion that there is a block.
unfoldable pub get_height : Chain → Option ℕ
get_height c = if c.size == 0 then none else some (c.size - 1)

unfoldable pub get_tip : Chain → Option (Option ℕ)
get_tip c = if c.size == 0 then none else some (c.entry (c.size - 1))

-- The loop of setTip, on fuel.
unfoldable pub tip_loop : ℕ → Tree → Chain → Option ℕ → Option Chain
unfolding is_block
tip_loop zero tree c block = none
tip_loop (suc fuel) tree c none = some c
tip_loop (suc fuel) tree c (some b) =
    let rest = tip_loop fuel tree (put (tree b).height b c) (tree b).previous in
    if is_block (c.entry (tree b).height) b then some c else rest

-- setTip: a block of height h is reached from by at most h more.
unfoldable pub set_tip : Tree → Chain → Option ℕ → Option Chain
unfolding tip_loop resize
set_tip tree c none = some empty_chain
set_tip tree c (some b) =
    tip_loop (suc (suc (tree b).height)) tree (resize (suc (tree b).height) c) (some b)

-- findLastCommonAncestor: the loop, on fuel, and the whole. `none` is the assertion that the branches meet.
unfoldable pub common_loop : ℕ → Tree → Option ℕ → Option ℕ → Option (Option ℕ)
common_loop zero tree x y = none
common_loop (suc fuel) tree none none = some none
common_loop (suc fuel) tree none (some y) = none
common_loop (suc fuel) tree (some x) none = none
common_loop (suc fuel) tree (some x) (some y) =
    let rest = common_loop fuel tree (tree x).previous (tree y).previous in
    if x == y then some (some x) else rest

unfoldable pub find_last_common_ancestor : Tree → ℕ → ℕ → Option (Option ℕ)
unfolding common_loop
find_last_common_ancestor tree x y =
    let rounds = suc (suc (tree x).height) in
    if ltb (tree y).height (tree x).height
    then (get_ancestor tree x (tree y).height >>= λ x'. common_loop rounds tree x' (some y))
    else if ltb (tree x).height (tree y).height
    then (get_ancestor tree y (tree x).height >>= λ y'. common_loop rounds tree (some x) y')
    else common_loop rounds tree (some x) (some y)
