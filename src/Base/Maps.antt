-- ===== src/Base/Maps.antt =====
-- Maps from numbers, as lists without order.
use Prim.Native.Nat.{ℕ}
use mathlib.Core.Path.{◌≡◌, refl}
use mathlib.Core.Option.{Option, none, some}
use mathlib.Core.List.{List, [], ◌∷◌}
use native.Mathlib.Omega.{arith}
use xbtc.Base.Tests.{◌==◌, if◌then◌else◌}

abbrev pub Map {ℓ} : Type ℓ → Type ℓ
Map A = List (ℕ × A)

module _ {ℓ} {A : Type ℓ} where
  unfoldable pub get : Map A → ℕ → Option A
  get [] j = none
  get ((k, a) ∷ m) j = if k == j then some a else get m j

  -- m[k] = a.
  unfoldable pub put : ℕ → A → Map A → Map A
  put k a [] = (k, a) ∷ []
  put k a ((i, b) ∷ m) = if i == k then (k, a) ∷ m else (i, b) ∷ put k a m

  pub get-put :
      (k j : ℕ) (a : A) (m : Map A) → get (put k a m) j ≡ (if k == j then some a else get m j)
  unfolding get put
  get-put k j a [] = refl
  get-put k j a ((i, b) ∷ m) = ground (arith, get-put k j a m)
