-- ===== src/Script/MultiSig.antt =====
-- checkMultiSig of ScriptFunctions.cpp: each signature takes the first key, from where the last one
-- stopped, that verifies it.
pub mod Matching
pub mod Machine
use xbtc.Base.{ℕ, suc, Bool, true, false, List, [], ◌∷◌, length, leb}

module _ {Sig Key : Type 0} (check : Sig → Key → Bool) where
  -- The `while` loop: the keys that are left behind the one that fits, and whether one does.
  unfoldable pub find_key : Sig → List Key → List Key × Bool
  find_key sig [] = ([], false)
  find_key sig (key ∷ keys) = elim (check sig key) [
    | true ↦ (keys, true)
    | false ↦ find_key sig keys
  ]

  -- The `for` loop: the number of signatures that pass.
  unfoldable pub count_passed : List Sig → List Key → ℕ
  count_passed [] keys = 0
  count_passed (sig ∷ sigs) keys =
      let (rest, found) = find_key sig keys in
      let more = count_passed sigs rest in elim found [ true ↦ suc more | false ↦ more ]

  unfoldable pub check_multi_sig : List Key → List Sig → Bool
  check_multi_sig keys sigs = leb (length sigs) (count_passed sigs keys)
