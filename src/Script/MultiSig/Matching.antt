-- ===== src/Script/MultiSig/Matching.antt =====
-- checkMultiSig decides whether the signatures fit some of the keys, in their order.
use xbtc.Base.{
  suc, ◌≤◌, ◌≡◌, ◌↔◌, refl, Bool, true, List, [], ◌∷◌, length, arith, leb→le, le→leb, Bool-cases,
  inl, inr,
}
use xbtc.Script.MultiSig.{find_key, count_passed, check_multi_sig}

module _ {Sig Key : Type 0} (check : Sig → Key → Bool) where
  -- A choice of keys, in order, one for each signature.
  pub data Matching : List Sig → List Key → Type 0 where
    done : {keys : List Key} → Matching [] keys
    take :
        {sig : Sig} {key : Key} {sigs : List Sig} {keys : List Key}
        → check sig key ≡ true
        → Matching sigs keys
        → Matching (sig ∷ sigs) (key ∷ keys)
    skip :
        {key : Key} {sigs : List Sig} {keys : List Key}
        → Matching sigs keys
        → Matching sigs (key ∷ keys)

  count-le : (sigs : List Sig) (keys : List Key) → count_passed check sigs keys ≤ length sigs
  unfolding count_passed
  count-le [] keys = omega arith
  count-le (sig ∷ sigs) keys = ground (arith, count-le sigs (find_key check sig keys).0)

  -- A first signature that is matched can as well take the first key that fits it.
  drop_first :
      {sig : Sig} {sigs : List Sig} {keys : List Key}
      → Matching (sig ∷ sigs) keys
      → Matching sigs keys
  drop_first (take c m) = skip m
  drop_first (skip m) = skip (drop_first m)

  greedy :
      (sig : Sig) (sigs : List Sig) (keys : List Key)
      → Matching (sig ∷ sigs) keys
      → ((find_key check sig keys).1 ≡ true) × Matching sigs (find_key check sig keys).0
  unfolding find_key
  greedy sig sigs keys (take c m) = rw (c, find_key) (refl, m)
  greedy sig sigs keys (skip {key = key} {keys = rest} m) = elim (Bool-cases (check sig key)) [
    | inl fits ↦ rw (fits, find_key) (refl, drop_first m)
    | inr fails ↦ rw (fails, find_key) (greedy sig sigs rest m)
  ]

  -- The key that find_key stops at can be taken.
  found-Matching :
      (sig : Sig) (sigs : List Sig) (keys : List Key)
      → (find_key check sig keys).1 ≡ true
      → Matching sigs (find_key check sig keys).0
      → Matching (sig ∷ sigs) keys
  unfolding find_key
  found-Matching sig sigs [] e m = cc
  found-Matching sig sigs (key ∷ keys) e m = elim (Bool-cases (check sig key)) [
    | inl fits ↦ take fits (rw (fits, find_key) at m)
    | inr fails ↦
        skip (found-Matching sig sigs keys (rw (fails, find_key) at e) (rw (fails, find_key) at m))
  ]

  sound :
      (sigs : List Sig) (keys : List Key)
      → length sigs ≤ count_passed check sigs keys
      → Matching sigs keys
  unfolding count_passed
  sound [] keys h = done
  sound (sig ∷ sigs) keys h = elim (Bool-cases (find_key check sig keys).1) [
    | inl found ↦ found-Matching sig sigs keys found (
        sound sigs (find_key check sig keys).0 (
          let h' : suc (length sigs) ≤ suc (count_passed check sigs (find_key check sig keys).0) =
            rw (found, count_passed) at h in
          omega arith))
    | inr missed ↦
        let h' : suc (length sigs) ≤ count_passed check sigs (find_key check sig keys).0 =
          rw (missed, count_passed) at h in
        absurd (omega (arith, count-le sigs (find_key check sig keys).0))
  ]

  complete :
      (sigs : List Sig) (keys : List Key)
      → Matching sigs keys
      → length sigs ≤ count_passed check sigs keys
  unfolding count_passed
  complete [] keys m = omega arith
  complete (sig ∷ sigs) keys m =
      let (found, rest) = greedy sig sigs keys m in
      rw (found, count_passed) (omega (arith, complete sigs (find_key check sig keys).0 rest))

  -- The check passes exactly when a key can be chosen for each signature that verifies it, with the
  -- keys in the order of the signatures.
  pub check_multi_sig-Matching :
      (keys : List Key) (sigs : List Sig)
      → (check_multi_sig check keys sigs ≡ true) ↔ Matching sigs keys
  unfolding check_multi_sig
  check_multi_sig-Matching keys sigs = (
    (λ e. sound sigs keys (leb→le (length sigs) (count_passed check sigs keys) e)),
    λ m. le→leb (length sigs) (count_passed check sigs keys) (complete sigs keys m),
  )
