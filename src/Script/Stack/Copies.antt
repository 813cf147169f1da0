-- ===== src/Script/Stack/Copies.antt =====
-- Stack::dup, against the order of the values that it copies.
use xbtc.Base.{
  ℕ, suc, ◌*◌, ◌≡◌, refl, sym, ◌∙◌, ap, some, List, [], ◌∷◌, ◌++◌, length, length-append,
  append_assoc, get_elem?, arith,
}
use mathlib.Core.List.{reverse, reverse_aux, reverse_aux-eq}
use xbtc.Script.Stack.{Value, get, dup, dup_loop}

get_elem?-append :
    (xs ys : List Value) (x : Value) (n : ℕ) → n ≡ length xs → get_elem? (xs ++ (x ∷ ys)) n ≡ some x
get_elem?-append [] ys x n e = rw e refl
get_elem?-append (y ∷ xs) ys x n e = rw e (get_elem?-append xs ys x (length xs) refl)

-- The loop, where the values that it has still to copy lie at twice their number.
dup_loop-reverse_aux :
    (i : ℕ) (below top rest : List Value)
    → length below ≡ i * 2
    → dup_loop (length top) i (below ++ (top ++ rest))
      ≡ some (reverse_aux top (below ++ (top ++ rest)))
unfolding dup_loop get
dup_loop-reverse_aux i below [] rest e = refl
dup_loop-reverse_aux i below (x ∷ top) rest e =
    let next =
      dup_loop-reverse_aux (suc i) (x ∷ (below ++ (x ∷ []))) top rest
        (omega (arith, length-append below (x ∷ []), e)) in
    rw (get_elem?-append below (top ++ rest) x (i * 2) (sym e), dup_loop)
      (rw (append_assoc below (x ∷ []) (top ++ rest)) at next)

-- Copying the values at the top of the stack by dup(count) pushes them in the reverse of their
-- order.
pub dup-reverse :
    (top rest : List Value) → dup (length top) (top ++ rest) ≡ some (reverse top ++ (top ++ rest))
unfolding dup
dup-reverse top rest =
    dup_loop-reverse_aux 0 [] top rest refl ∙ ap some (reverse_aux-eq top (top ++ rest))
