-- ===== src/Merkle.antt =====
-- MerkleTree of src/data/MerkleTree.cpp, less the branch of a leaf, which no caller asks for. `hash_pair` is
-- hashSiblingLeaves, a digest.
pub mod Levels
pub mod Root
mod Runs
use xbtc.Base.{
  ℕ, zero, suc, ◌+◌, ◌/◌, ◌%◌, Bool, true, false, ◌||◌, Option, none, some, ◌>>=◌, List, [], ◌∷◌,
  map, length, ◌^◌, ◌==◌, if◌then◌else◌,
}
use xbtc.Data.Transaction.{Transaction}
use xbtc.Data.Block.{Block}

unfoldable pub nulls : ℕ → List ℕ
nulls zero = []
nulls (suc n) = 0 ∷ nulls n

module _ (hash_pair : ℕ → ℕ → ℕ) where
  -- The loop over the levels for a leaf. `inner` is the array from the level on, and `count` is shifted right by the level, so
  -- that the bit that the loop tests is the lowest one. `none` is a level beyond the array.
  unfoldable pub store : ℕ → ℕ → Bool → List ℕ → Option (List ℕ × Bool)
  store count h mutated [] = none
  store count h mutated (x ∷ inner) =
      let rest = store (count / 2) (hash_pair x h) (mutated || (x == h)) inner in
      if count % 2 == 0
      then (rest >>= λ (inner', mutated'). some (x ∷ inner', mutated'))
      else some (h ∷ inner, mutated)

  -- The loop over the leaves.
  unfoldable pub store_all : List ℕ → ℕ → Bool → List ℕ → Option (ℕ × Bool × List ℕ)
  store_all [] count mutated inner = some (count, mutated, inner)
  store_all (leaf ∷ leaves) count mutated inner = do
    (inner', mutated') ← store (count + 1) leaf mutated inner
    store_all leaves (count + 1) mutated' inner'

  -- The loops that combine `h` with the levels above it, or with itself where a level has no other value; the level
  -- is shifted out of `count` as before. A level has one bit of the uint32_t less than the one below, and the sum that
  -- raises `count` wraps; level 32 is beyond the array.
  unfoldable pub combine : ℕ → ℕ → List ℕ → Option ℕ
  combine count h [] = none
  combine count h (x ∷ inner) =
      let paired = combine (count / 2) (hash_pair x h) inner in
      let doubled = combine ((count + 1) % 2 ^ length (x ∷ inner) / 2) (hash_pair h h) inner in
      if count == 1 then some h else if count % 2 == 0 then paired else doubled

  -- The final sweep, which starts at the lowest level that has a value.
  unfoldable pub sweep : ℕ → List ℕ → Option ℕ
  sweep count [] = none
  sweep count (x ∷ inner) =
      let rest = sweep (count / 2) inner in
      if count % 2 == 0 then rest else combine count x (x ∷ inner)

  -- compute, and computeRoot.
  unfoldable pub compute_root : List ℕ → Option (ℕ × Bool)
  compute_root [] = some (0, false)
  compute_root (leaf ∷ leaves) = do
    (count, mutated, inner) ← store_all (leaf ∷ leaves) 0 false (nulls 32)
    root ← sweep count inner
    some (root, mutated)

  -- build. getHash asserts that the hash is not null.
  unfoldable pub leaves_of : List Transaction → Option (List ℕ)
  leaves_of [] = some []
  leaves_of (tx ∷ txs) =
      leaves_of txs >>= λ leaves. if tx.hash == 0 then none else some (tx.hash ∷ leaves)

  unfoldable pub build : Block → Option (ℕ × Bool)
  build block = leaves_of block.transactions >>= compute_root
