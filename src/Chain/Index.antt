-- ===== src/Chain/Index.antt =====
-- The skip list of BlockIndex in src/data/Block.cpp: getSkipHeight and getAncestor. Blocks are ids of an
-- index that gives each its height, its parent and its skip pointer.
use xbtc.Base.{
  ℕ, zero, suc, ◌+◌, ◌-◌, Bool, not, ◌&&◌, ◌||◌, Option, none, some, ltb, leb, ◌==◌, if◌then◌else◌,
  bit_and,
}

-- The fields of a BlockIndex that lead through the tree. A block is named by its address: a number.
pub record Node : Type 0 where
  pub height : ℕ
  pub previous : Option ℕ
  pub skip : Option ℕ

abbrev pub Tree : Type 0
Tree = ℕ → Node

unfoldable pub invert_lowest_one : ℕ → ℕ
invert_lowest_one n = bit_and n (n - 1)

unfoldable pub get_skip_height : ℕ → ℕ
unfolding invert_lowest_one
get_skip_height height =
    if ltb height 2
    then 0
    else if not (bit_and height 1 == 0)
    then invert_lowest_one (invert_lowest_one (height - 1)) + 1
    else invert_lowest_one height

-- Whether getAncestor follows the skip pointer of a block: only if pprev->pskip is not better than
-- pskip->pprev.
unfoldable pub follows_skip : ℕ → ℕ → Bool
follows_skip dest height_walk =
    let height_skip = get_skip_height height_walk in
    let height_skip_prev = get_skip_height (height_walk - 1) in
    (height_skip == dest)
    || (ltb dest height_skip
        && not (ltb (height_skip_prev + 2) height_skip && leb dest height_skip_prev))

-- The loop of getAncestor, on fuel. `none` is a failed assertion: a block above the height has no parent.
unfoldable pub ancestor_loop : ℕ → Tree → ℕ → ℕ → ℕ → Option ℕ
ancestor_loop zero tree dest walk height_walk = none
ancestor_loop (suc fuel) tree dest walk height_walk =
    let parent : Option ℕ = elim (tree walk).previous [
      | none ↦ none
      | some p ↦ ancestor_loop fuel tree dest p (height_walk - 1)
    ] in
    if ltb dest height_walk
    then elim (tree walk).skip [
      | none ↦ parent
      | some s ↦
          if follows_skip dest height_walk
          then ancestor_loop fuel tree dest s (get_skip_height height_walk)
          else parent
    ]
    else some walk

-- getAncestor, for a height that is not negative; the inner option is nullptr.
unfoldable pub get_ancestor : Tree → ℕ → ℕ → Option (Option ℕ)
unfolding ancestor_loop
get_ancestor tree block dest =
    if ltb (tree block).height dest
    then some none
    else elim (ancestor_loop (suc (tree block).height) tree dest block (tree block).height) [
      | none ↦ none
      | some a ↦ some (some a)
    ]

abbrev pub set_skip : Tree → ℕ → Option ℕ → Tree
set_skip tree block s x = if x == block then record (tree x) { skip = s } else tree x

unfoldable pub build_skip : Tree → ℕ → Option Tree
unfolding get_ancestor get_skip_height
build_skip tree block = elim (tree block).previous [
  | none ↦ some tree
  | some p ↦ elim (get_ancestor tree p (get_skip_height (tree block).height)) [
    | none ↦ none
    | some s ↦ some (set_skip tree block s)
  ]
]
