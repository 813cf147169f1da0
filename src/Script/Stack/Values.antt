-- ===== src/Script/Stack/Values.antt =====
-- Values at a known place of the stack: get, pop and getValues.
use xbtc.Base.{
  ℕ, zero, suc, ◌+◌, ◌≤◌, ◌≡◌, refl, ◌∙◌, true, some, [], ◌∷◌, ◌++◌, length, length-append,
  append_assoc, arith,
}
use xbtc.Script.Stack.{Value, Stack, get, pop, values_loop, get_values, has_values}

pub get-append : (xs rest : Stack) (v : Value) → get (suc (length xs)) (xs ++ (v ∷ rest)) ≡ some v
unfolding get
get-append [] rest v = refl
get-append (x ∷ xs) rest v = get-append xs rest v

pub pop-append : (xs rest : Stack) → pop (length xs) (xs ++ rest) ≡ some rest
unfolding pop
pop-append [] rest = refl
pop-append (x ∷ xs) rest = pop-append xs rest

pub has_values-append : (xs rest : Stack) (n : ℕ) → n ≤ length xs → has_values n (xs ++ rest) ≡ true
unfolding has_values
has_values-append xs rest zero h = refl
has_values-append [] rest (suc n) h = absurd (omega arith)
has_values-append (x ∷ xs) rest (suc n) h = has_values-append xs rest n (omega arith)

values_loop-append :
    (below vs rest : Stack)
    → values_loop (length vs) (suc (length below)) (below ++ (vs ++ rest)) ≡ some vs
unfolding values_loop
values_loop-append below [] rest = refl
values_loop-append below (v ∷ vs) rest =
    let one : length (below ++ (v ∷ [])) ≡ suc (length below) =
      omega (arith, length-append below (v ∷ [])) in
    let next = values_loop-append (below ++ (v ∷ [])) vs rest in
    rw (get-append below (vs ++ rest) v, values_loop)
      (rw (rw (append_assoc below (v ∷ []) (vs ++ rest), one) at next) refl)

-- getValues finds the values that lie below others, when there is one more below them.
pub get_values-append :
    (below vs rest : Stack) (v : Value)
    → get_values (suc (length below)) (length vs) (below ++ (vs ++ (v ∷ rest))) ≡ some vs
unfolding get_values
get_values-append below vs rest v =
    rw
      (
        enough (suc (length below)) (omega arith),
        enough (suc (length below) + length vs) (omega arith),
      )
      (values_loop-append below vs (v ∷ rest))
  where
    enough :
        (n : ℕ)
        → n ≤ suc (length below + length vs)
        → has_values n (below ++ (vs ++ (v ∷ rest))) ≡ true
    enough n h =
        let split : (below ++ vs ++ (v ∷ [])) ++ rest ≡ below ++ (vs ++ (v ∷ rest)) =
          append_assoc (below ++ vs) (v ∷ []) rest ∙ append_assoc below vs (v ∷ rest) in
        rw (← split) (
          has_values-append (below ++ vs ++ (v ∷ [])) rest n
            (omega (arith, length-append (below ++ vs) (v ∷ []), length-append below vs)))
