-- ===== src/Merkle/Runs.antt =====
-- The theorem on the root, at three leaves.
use xbtc.Base.{ℕ, ◌+◌, ◌*◌, ◌≡◌, Bool, some, [], ◌∷◌, arith}
use xbtc.Merkle.{compute_root}
use xbtc.Merkle.Levels.{IsRoot}
use xbtc.Merkle.Root.{compute_root-IsRoot}

abbrev hash_pair : ℕ → ℕ → ℕ
hash_pair x y = 100 * x + y

compute_root-IsRoot_example :
    (root : ℕ) × (mutated : Bool) × (compute_root hash_pair (1 ∷ 2 ∷ 3 ∷ []) ≡ some (root, mutated))
    × IsRoot hash_pair (1 ∷ 2 ∷ 3 ∷ []) root
compute_root-IsRoot_example = compute_root-IsRoot hash_pair 1 (2 ∷ 3 ∷ []) (omega arith)
