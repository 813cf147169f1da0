-- ===== src/Net/Sync/Requests.antt =====
-- The blocks that a node has been asked for, from the request to the last answer.
use xbtc.Base.{
  ℕ, ◌≡◌, ◌≢◌, refl, sym, ◌∙◌, ap, true, false, not, ◌&&◌, ◌||◌, Option, some, ◌>>=◌, List, [], ◌∷◌,
  All, length, ◌==◌, ==_refl, ne→==, if◌then◌else◌, arith,
}
use xbtc.Cache.{has}
use xbtc.Net.Sync.{
  NodeSyncInfo, is_requesting_block, record_all, record_requesting_blocks, remove_block_record,
  without,
}

-- The answers, in the order in which they come.
unfoldable pub remove_all : List ℕ → NodeSyncInfo → Option NodeSyncInfo
unfolding remove_block_record
remove_all [] info = some info
remove_all (b ∷ order) info = remove_block_record b info >>= λ info'. remove_all order info'

unfoldable pub IsDistinct : List ℕ → Type 0
IsDistinct [] = Unit {0}
IsDistinct (x ∷ xs) = (has x xs ≡ false) × IsDistinct xs

abbrev pub SameBlocks : List ℕ → List ℕ → Type 0
SameBlocks xs ys = (b : ℕ) → has b xs ≡ has b ys

has-without : (b x : ℕ) (xs : List ℕ) → has b (without x xs) ≡ (has b xs && not (b == x))
has-without b x [] = refl
has-without b x (y ∷ ys) = ground (arith, has-without b x ys)

has-tail :
    (b x : ℕ) (order : List ℕ)
    → has x order ≡ false
    → (has b (x ∷ order) && not (b == x)) ≡ has b order
has-tail b x order new = ground (arith, new)

SameBlocks-empty : (xs : List ℕ) → SameBlocks xs [] → xs ≡ []
SameBlocks-empty [] w = refl
SameBlocks-empty (x ∷ xs) w = let z = w x in let e : true ≡ false = rw (==_refl x) at z in cc

remove_all-empties :
    (order : List ℕ) (info : NodeSyncInfo)
    → IsDistinct order
    → All (λ b. b ≢ 0) order
    → SameBlocks info.requesting_blocks order
    → remove_all order info ≡ some (record info { requesting_blocks = [] })
unfolding remove_all remove_block_record IsDistinct
remove_all-empties [] info d nz same = rw (SameBlocks-empty info.requesting_blocks same) refl
remove_all-empties (x ∷ order) info (new, d) (nx, nz) same =
    let here : has x info.requesting_blocks ≡ true = same x ∙ rw (==_refl x) refl in
    let left = without x info.requesting_blocks in
    let same' : SameBlocks left order = λ b.
      has-without b x info.requesting_blocks
      ∙ (ap (λ h. h && not (b == x)) (same b) ∙ has-tail b x order new) in
    rw (ne→== x 0 nx, here)
      (remove_all-empties order (record info { requesting_blocks = left }) d nz same')

has-insert :
    (b x : ℕ) (xs : List ℕ) → has b (if has x xs then xs else x ∷ xs) ≡ ((x == b) || has b xs)
has-insert b x xs = ground arith

has-pair :
    (b x : ℕ) (xs ys zs : List ℕ)
    → has b zs ≡ ((x == b) || has b ys)
    → (has b xs || has b zs) ≡ (((x == b) || has b xs) || has b ys)
has-pair b x xs ys zs e = rw e ground arith

has-record_all :
    (blocks requesting : List ℕ)
    → All (λ b. b ≢ 0) blocks
    → (result : List ℕ) × (record_all blocks requesting ≡ some result)
      × ((b : ℕ) → has b result ≡ (has b blocks || has b requesting))
unfolding record_all
has-record_all [] requesting nz = (requesting, refl, λ b. refl)
has-record_all (x ∷ blocks) requesting (nx, nz) =
    let (result, e, same) =
      has-record_all blocks (if has x requesting then requesting else x ∷ requesting) nz in
    (
      result,
      rw (ne→== x 0 nx) e,
      λ b.
          same b
          ∙ has-pair b x blocks requesting (if has x requesting then requesting else x ∷ requesting)
              (has-insert b x requesting),
    )

not-null : (blocks : List ℕ) → has 0 blocks ≡ false → All (λ b. b ≢ 0) blocks
not-null [] h = tt
not-null (x ∷ xs) h = (ground (arith, h), not-null xs (ground (arith, h)))

length-empty : (xs : List ℕ) → (length xs == 0) ≡ true → xs ≡ []
length-empty [] h = refl
length-empty (x ∷ xs) h = ground (arith, h)

idle-none : (info : NodeSyncInfo) → is_requesting_block info ≡ false → info.requesting_blocks ≡ []
unfolding is_requesting_block
idle-none info idle = length-empty info.requesting_blocks (ground (arith, idle))

-- A node of which nothing is asked is asked for blocks, none of which has a null hash: then
-- exactly these are asked of it, and the answers, one for each of the blocks and in any order, are
-- all taken and leave the node as it was.
pub requests_end :
    (blocks order : List ℕ) (info : NodeSyncInfo)
    → has 0 blocks ≡ false
    → is_requesting_block info ≡ false
    → IsDistinct order
    → SameBlocks blocks order
    → (info' : NodeSyncInfo) × (record_requesting_blocks blocks info ≡ some info')
      × SameBlocks info'.requesting_blocks blocks
      × (remove_all order info' ≡ some info)
unfolding record_requesting_blocks
requests_end blocks order info nz idle d same =
    let (result, e, has_result) = has-record_all blocks [] (not-null blocks nz) in
    let none_asked = idle-none info idle in
    let asked : SameBlocks result blocks = λ b. has_result b ∙ ground arith in
    let info' = record info { requesting_blocks = result } in
    (
      info',
      rw (none_asked, e) refl,
      asked,
      remove_all-empties order info' d (not-null order (sym (same 0) ∙ nz)) (λ b. asked b ∙ same b)
          ∙ ap (λ r. some (record info { requesting_blocks = r })) (sym none_asked),
    )
