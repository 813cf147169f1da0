-- ===== src/Script/MultiSig/Machine.antt =====
-- script_checkMultiSig on a stack that holds counts, keys and signatures.
use xbtc.Base.{
  ℕ, suc, ◌+◌, ◌≤◌, ◌<◌, ◌≡◌, refl, ◌∙◌, Bool, true, false, some, List, [], ◌∷◌, ◌++◌, length,
  length-append, append_assoc, lt→ltb, le→leb, arith, if◌then◌else◌, ◌↔◌, ◌^◌, Bool-cases, inl, inr,
}
use xbtc.Base.Int.{pos}
use xbtc.Script.Number.{number_bytes}
use xbtc.Script.Number.RoundTrip.{decode_script_number-number_bytes}
use xbtc.Script.Stack.{
  Value, Stack, v_true, v_false, get, pop, get_integer_value, get_values, has_values,
}
use xbtc.Script.Stack.Values.{get-append, pop-append, has_values-append, get_values-append}
use xbtc.Script.Vm.{Vm, script_check_multi_sig}
use xbtc.Script.MultiSig.{check_multi_sig}
use xbtc.Script.MultiSig.Matching.{Matching, check_multi_sig-Matching}

-- The arguments of the opcode, from the top: the number of the keys, the keys, the number of the
-- signatures, the signatures, and a value that is not used.
abbrev pub multi_sig_stack : List Value → List Value → Value → Stack → Stack
multi_sig_stack keys sigs dummy rest =
    number_bytes (pos (length keys))
    ∷ (keys ++ (number_bytes (pos (length sigs)) ∷ (sigs ++ (dummy ∷ rest))))

small_integer :
    (n : ℕ) (s : Stack) (k : ℕ)
    → n < 2 ^ 63
    → get k s ≡ some (number_bytes (pos n))
    → get_integer_value k s ≡ some (pos n)
unfolding get_integer_value
small_integer n s k h e = rw e (decode_script_number-number_bytes (pos n) (omega arith))

module _ (check : Value → Value → List ℕ → Bool) (keys sigs : List Value) (dummy : Value)
    (rest : Stack) where
  abbrev stack : Stack
  stack = multi_sig_stack keys sigs dummy rest

  abbrev top : Stack
  top = number_bytes (pos (length keys)) ∷ keys

  abbrev counted : Stack
  counted = top ++ (number_bytes (pos (length sigs)) ∷ [])

  length-counted : length counted ≡ suc (suc (length keys))
  length-counted = omega (arith, length-append keys (number_bytes (pos (length sigs)) ∷ []))

  counted-append : counted ++ (sigs ++ (dummy ∷ rest)) ≡ stack
  counted-append = append_assoc top (number_bytes (pos (length sigs)) ∷ []) (sigs ++ (dummy ∷ rest))

  signatures_of : get_values (suc (suc (suc (length keys)))) (length sigs) stack ≡ some sigs
  signatures_of =
      let found = get_values-append counted sigs rest dummy in
      rw (length-counted, counted-append) at found

  counts : has_values (suc (suc (length keys))) stack ≡ true
  counts =
      rw (← counted-append)
        (has_values-append counted (sigs ++ (dummy ∷ rest)) _ (omega (arith, length-counted)))

  rest_of : pop (suc (suc (length keys + length sigs))) stack ≡ some (dummy ∷ rest)
  rest_of =
      let all = counted ++ sigs in
      let size : length all ≡ suc (suc (length keys + length sigs)) =
        omega (arith, length-append counted sigs, length-counted) in
      let popped = pop-append all (dummy ∷ rest) in
      rw (size, append_assoc counted sigs (dummy ∷ rest), counted-append) at popped

  abbrev machine : ℕ → List ℕ → Stack → Vm
  machine err code s = record { stack = s; errcode = err; code = code }

  -- On fewer than 20 keys, and no more signatures than keys, OP_CHECKMULTISIG takes its arguments off the
  -- stack and leaves the result of checkMultiSig.
  pub script_check_multi_sig-stack :
      (err : ℕ) (code : List ℕ)
      → length keys < 20
      → length sigs ≤ length keys
      → script_check_multi_sig check 0xae (machine err code stack)
        ≡ some (
            machine err code (
              (if check_multi_sig (λ sig pubkey. check sig pubkey code) keys sigs
                then v_true
                else v_false)
              ∷ rest))
  unfolding script_check_multi_sig
  script_check_multi_sig-stack err code h k =
      let key_count : get_integer_value 1 stack ≡ some (pos (length keys)) =
        small_integer (length keys) stack 1 (omega arith) (
          get-append [] (keys ++ (number_bytes (pos (length sigs)) ∷ (sigs ++ (dummy ∷ rest))))
            (number_bytes (pos (length keys)))) in
      let sig_count : get_integer_value (suc (suc (length keys))) stack ≡ some (pos (length sigs)) =
        small_integer (length sigs) stack (suc (suc (length keys))) (omega arith)
          (get-append top (sigs ++ (dummy ∷ rest)) (number_bytes (pos (length sigs)))) in
      let pubkeys : get_values 2 (length keys) stack ≡ some keys =
        get_values-append (number_bytes (pos (length keys)) ∷ []) keys (sigs ++ (dummy ∷ rest))
          (number_bytes (pos (length sigs))) in
      rw
        (
          key_count,
          lt→ltb (length keys) 20 h,
          counts,
          sig_count,
          le→leb (length sigs) (length keys) k,
          pubkeys,
          signatures_of,
          rest_of,
          script_check_multi_sig,
        )
        refl

  -- On fewer than 20 keys, and no more signatures than keys, OP_CHECKMULTISIG leaves true exactly
  -- when a key that verifies it can be chosen for each signature, with the keys in the order of
  -- the signatures.
  pub script_check_multi_sig-Matching :
      (err : ℕ) (code : List ℕ)
      → length keys < 20
      → length sigs ≤ length keys
      → (script_check_multi_sig check 0xae (machine err code stack)
          ≡ some (machine err code (v_true ∷ rest)))
        ↔ Matching (λ sig pubkey. check sig pubkey code) sigs keys
  script_check_multi_sig-Matching err code h k =
      let (to, from) = check_multi_sig-Matching (λ sig pubkey. check sig pubkey code) keys sigs in
      elim (Bool-cases (check_multi_sig (λ sig pubkey. check sig pubkey code) keys sigs)) [
        | inl passes ↦
            ((λ e. to passes), λ m. script_check_multi_sig-stack err code h k ∙ rw passes refl)
        | inr fails ↦ (
          (λ e. absurd (differ (rw (script_check_multi_sig-stack err code h k, fails) at e))),
          λ m. absurd (different fails (from m)),
        )
      ]
    where
      differ :
          some (machine err code (v_false ∷ rest)) ≡ some (machine err code (v_true ∷ rest)) → ⊥
      differ e = cc

      different : {b : Bool} → b ≡ false → b ≡ true → ⊥
      different e f = cc
