-- ===== src/Script/Eval/KeyHash.antt =====
-- The script that pays to the hash of a key, through the whole machine.
use xbtc.Base.{
  ℕ, suc, ◌<◌, ◌≡◌, refl, ◌∙◌, ap, Bool, true, false, some, none, List, [], ◌∷◌, ◌++◌, length,
  if◌then◌else◌, arith, Bool-cases, inl, inr, length-append,
}
use xbtc.Stream.{Streams}
use xbtc.Script.Stack.{
  Value, v_true, v_false, eq_value, get, pop, dup, dup_loop, has_values, is_true,
}
use xbtc.Script.Vm.{
  Vm, script_err_equalverify, script_dup, script_hash, script_equal, script_check_sig, verify,
}
use xbtc.Script.Eval.{Run, functions, call, eval_function, eval_loop, eval}
use xbtc.Script.Eval.Rounds.{Round, round, push-Pushes, Pushes, push0-pushes, eval_loop-end}

-- OP_DUP OP_HASH160 <the hash> OP_EQUALVERIFY OP_CHECKSIG.
abbrev pub key_hash_script : Value → List ℕ
key_hash_script h = 0x76 ∷ 0xa9 ∷ (length h ∷ h) ++ (0x88 ∷ 0xac ∷ [])

-- A machine without an error.
abbrev pub machine : List ℕ → List Value → Vm
machine code stack = record { stack = stack; errcode = 0; code = code }

module _ (xul : Streams) (hash : ℕ → Value → Value) (check : Value → Value → List ℕ → Bool) where
  open xul use {Input, bytes, open_input, bytes-open_input}

  equal-true :
      (code : List ℕ) (h k : Value) (rest : List Value)
      → eq_value h k ≡ true
      → script_equal 0x88 (machine code (h ∷ k ∷ rest)) ≡ some (machine code rest)
  unfolding script_equal has_values get pop verify is_true
  equal-true code h k rest e = rw (e, script_equal, eq_value) refl

  equal-false :
      (code : List ℕ) (h k : Value) (rest : List Value)
      → eq_value h k ≡ false
      → script_equal 0x88 (machine code (h ∷ k ∷ rest))
        ≡ some (record { stack = v_false ∷ rest; errcode = script_err_equalverify; code = code })
  unfolding script_equal has_values get pop verify is_true
  equal-false code h k rest e = rw (e, script_equal, eq_value) refl

  check_sig-true :
      (code : List ℕ) (pubkey sig : Value) (rest : List Value)
      → check sig pubkey code ≡ true
      → script_check_sig check 0xac (machine code (pubkey ∷ sig ∷ rest))
        ≡ some (machine code (v_true ∷ rest))
  unfolding script_check_sig has_values get pop
  check_sig-true code pubkey sig rest e = rw (e, script_check_sig) refl

  check_sig-false :
      (code : List ℕ) (pubkey sig : Value) (rest : List Value)
      → check sig pubkey code ≡ false
      → script_check_sig check 0xac (machine code (pubkey ∷ sig ∷ rest)) ≡ none
  unfolding script_check_sig has_values get pop
  check_sig-false code pubkey sig rest e = rw (e, script_check_sig) refl

  -- The end of the script, once the signature and its key are on the stack.
  check_round :
      (fuel : ℕ) (code : List ℕ) (is : Input) (pubkey sig : Value) (rest : List Value)
      → bytes is ≡ 0xac ∷ []
      → eval_loop xul hash check (suc (suc fuel)) (machine code (pubkey ∷ sig ∷ rest)) (some is) ≡ (
          if check sig pubkey code then Run.finished (machine code (v_true ∷ rest)) else Run.failed)
  unfolding Round eval_function functions call
  check_round fuel code is pubkey sig rest e =
      let (is1, f, r) =
        round xul hash check (suc fuel) (machine code (pubkey ∷ sig ∷ rest)) is 0xac [] refl
          (omega arith) e in
      elim (Bool-cases (check sig pubkey code)) [
        | inl valid ↦
            r
            ∙ rw (check_sig-true code pubkey sig rest valid, valid)
                (eval_loop-end xul hash check fuel (machine code (v_true ∷ rest)) is1 f)
        | inr invalid ↦ r ∙ rw (check_sig-false code pubkey sig rest invalid, invalid) refl
      ]

  -- What the script does from the comparison of the hashes on.
  equal_round :
      (fuel : ℕ) (code : List ℕ) (is : Input) (h k pubkey sig : Value) (rest : List Value)
      → bytes is ≡ 0x88 ∷ 0xac ∷ []
      → eval_loop xul hash check
          (suc (suc (suc fuel)))
          (machine code (h ∷ k ∷ pubkey ∷ sig ∷ rest))
          (some is)
        ≡ (if eq_value h k
            then if check sig pubkey code
              then Run.finished (machine code (v_true ∷ rest))
              else Run.failed
            else Run.finished (record {
              stack = v_false ∷ pubkey ∷ sig ∷ rest;
              errcode = script_err_equalverify;
              code = code;
            }))
  unfolding Round eval_function functions call eval_loop
  equal_round fuel code is h k pubkey sig rest e =
      let (is1, f, r) =
        round xul hash check (suc (suc fuel)) (machine code (h ∷ k ∷ pubkey ∷ sig ∷ rest)) is 0x88
          (0xac ∷ []) refl (omega arith) e in
      elim (Bool-cases (eq_value h k)) [
        | inl same ↦
            r
            ∙ rw (equal-true code h k (pubkey ∷ sig ∷ rest) same, same)
                (check_round fuel code is1 pubkey sig rest f)
        | inr other ↦ r ∙ rw (equal-false code h k (pubkey ∷ sig ∷ rest) other, other) refl
      ]

  -- The rounds before: the copy of the key is hashed, and the hash of the script is pushed.
  push_round :
      (fuel : ℕ) (code : List ℕ) (is : Input) (h k pubkey sig : Value) (rest : List Value)
      → length h < 0x4c
      → bytes is ≡ (length h ∷ h) ++ (0x88 ∷ 0xac ∷ [])
      → eval_loop xul hash check
          (suc (suc (suc (suc fuel))))
          (machine code (k ∷ pubkey ∷ sig ∷ rest))
          (some is)
        ≡ (if eq_value h k
            then if check sig pubkey code
              then Run.finished (machine code (v_true ∷ rest))
              else Run.failed
            else Run.finished (record {
              stack = v_false ∷ pubkey ∷ sig ∷ rest;
              errcode = script_err_equalverify;
              code = code;
            }))
  unfolding Pushes
  push_round fuel code is h k pubkey sig rest lt e =
      let vm = machine code (k ∷ pubkey ∷ sig ∷ rest) in
      let (is1, f, r) =
        push-Pushes xul hash check (suc (suc (suc fuel))) vm is (length h) h
          (h ++ (0x88 ∷ 0xac ∷ [])) (0x88 ∷ 0xac ∷ []) refl (omega arith) e
          (λ is1 g. push0-pushes xul hash check vm is1 h (0x88 ∷ 0xac ∷ []) lt g) in
      r ∙ equal_round fuel code is1 h k pubkey sig rest f

  dup_round :
      (fuel : ℕ) (code : List ℕ) (is : Input) (h pubkey sig : Value) (rest : List Value)
      → length h < 0x4c
      → bytes is ≡ key_hash_script h
      → eval_loop xul hash check
          (suc (suc (suc (suc (suc (suc fuel))))))
          (machine code (pubkey ∷ sig ∷ rest))
          (some is)
        ≡ (if eq_value h (hash 3 pubkey)
            then if check sig pubkey code
              then Run.finished (machine code (v_true ∷ rest))
              else Run.failed
            else Run.finished (record {
              stack = v_false ∷ pubkey ∷ sig ∷ rest;
              errcode = script_err_equalverify;
              code = code;
            }))
  unfolding Round eval_function functions call script_dup script_hash dup dup_loop get pop
      has_values
  dup_round fuel code is h pubkey sig rest lt e =
      let tail = (length h ∷ h) ++ (0x88 ∷ 0xac ∷ []) in
      let (is1, f, r) =
        round xul hash check (suc (suc (suc (suc (suc fuel))))) (machine code (pubkey ∷ sig ∷ rest))
          is 0x76 (0xa9 ∷ tail) refl (omega arith) e in
      let (is2, g, q) =
        round xul hash check (suc (suc (suc (suc fuel))))
          (machine code (pubkey ∷ pubkey ∷ sig ∷ rest)) is1 0xa9 tail refl (omega arith) f in
      r ∙ q ∙ push_round fuel code is2 h (hash 3 pubkey) pubkey sig rest lt g

  -- Running the script that pays to the hash of a key (a hash of at most 75 bytes) on a key and a
  -- signature ends with the error of OP_EQUALVERIFY when the hash is not the key's, fails an
  -- assertion when the signature does not verify, and else leaves true in the place of the two.
  pub eval-key_hash_script :
      (h pubkey sig : Value) (rest : List Value) (old : List ℕ)
      → length h < 0x4c
      → eval xul hash check (key_hash_script h) (machine old (pubkey ∷ sig ∷ rest)) ≡ (
          if eq_value h (hash 3 pubkey)
          then if check sig pubkey (key_hash_script h)
            then Run.finished (machine (key_hash_script h) (v_true ∷ rest))
            else Run.failed
          else Run.finished (record {
            stack = v_false ∷ pubkey ∷ sig ∷ rest;
            errcode = script_err_equalverify;
            code = key_hash_script h;
          }))
  unfolding eval
  eval-key_hash_script h pubkey sig rest old lt =
      let code = key_hash_script h in
      let size : length (h ++ (0x88 ∷ 0xac ∷ [])) ≡ suc (suc (length h)) =
        omega (arith, length-append h (0x88 ∷ 0xac ∷ [])) in
      ap
        (λ (n : ℕ).
          eval_loop xul hash check (suc (suc (suc (suc n)))) (machine code (pubkey ∷ sig ∷ rest))
            (some (open_input code)))
        size
      ∙ dup_round (length h) code (open_input code) h pubkey sig rest lt (bytes-open_input code)
