-- ===== src/Script/Vm.antt =====
-- The script machine: src/script/ScriptVM.cpp, and the functions and the function table of
-- src/script/ScriptFunctions.cpp. `none` is a failed assertion (VM_CHECK asserts), which ends the process.
use xbtc.Base.{
  ℕ, suc, ◌+◌, ◌-◌, Bool, not, ◌&&◌, ◌||◌, Option, none, some, ◌>>=◌, List, [], ◌∷◌, length, ltb,
  leb, ◌==◌, if◌then◌else◌,
}
use xbtc.Base.Int.{ℤ, pos, negsuc, ltb_ℤ, ◌+ℤ◌, ◌-ℤ◌}
use xbtc.Script.Numeric.{unary_op, binary_op}
use xbtc.Script.MultiSig.{check_multi_sig}
use xbtc.Script.Stack.{
  Value, Stack, get, push, push_integer, push_bool, dup, pop, get_values, get_integer_value,
  is_true, has_values, eq_value,
}

-- ScriptError.
abbrev pub script_err_op_return : ℕ
script_err_op_return = 3

abbrev pub script_err_equalverify : ℕ
script_err_equalverify = 11

abbrev pub script_err_checkmultisigverify : ℕ
script_err_checkmultisigverify = 12

abbrev pub script_err_checksigverify : ℕ
script_err_checksigverify = 13

abbrev pub script_err_numequalverify : ℕ
script_err_numequalverify = 14

abbrev pub max_pubkeys_per_multisig : ℕ
max_pubkeys_per_multisig = 20

-- ScriptVM with its Env, less the checker.
pub record Vm : Type 0 where
  pub stack : Stack
  pub errcode : ℕ
  pub code : List ℕ

abbrev pub set_error : ℕ → Vm → Vm
set_error err vm = record vm { errcode = err }

abbrev pub with_stack : Vm → Stack → Vm
with_stack vm s = record vm { stack = s }

-- ScriptVM::verify.
unfoldable pub verify : ℕ → Vm → Option Vm
unfolding get is_true pop
verify err vm = get 1 vm.stack >>= λ v.
    if is_true v then (pop 1 vm.stack >>= λ s. some (with_stack vm s)) else some (set_error err vm)

-- The end of a function that has a VERIFY form.
abbrev verify_if : Bool → ℕ → Vm → Option Vm
verify_if b err vm = if b then verify err vm else some vm

-- VM_CHECK_PARAM_COUNT.
abbrev pub check_param_count : ℕ → Vm → Option Vm → Option Vm
check_param_count n vm rest = if has_values n vm.stack then rest else none

unfoldable pub script_integer : ℕ → Vm → Option Vm
unfolding ◌+ℤ◌ ◌-ℤ◌ push_integer
script_integer opcode vm =
    if (leb 0x51 opcode && leb opcode 0x60) || (opcode == 0x4f)
    then (push_integer (pos opcode -ℤ pos 0x51 +ℤ pos 1) vm.stack >>= λ s. some (with_stack vm s))
    else none

unfoldable pub script_equal : ℕ → Vm → Option Vm
unfolding get pop eq_value verify has_values
script_equal opcode vm = check_param_count 2 vm (do
  v1 ← get 1 vm.stack
  v2 ← get 2 vm.stack
  s ← pop 2 vm.stack
  verify_if (opcode == 0x88) script_err_equalverify (with_stack vm (push_bool (eq_value v1 v2) s)))

unfoldable pub script_numeric_unary_op : ℕ → Vm → Option Vm
unfolding get_integer_value pop unary_op push_integer has_values
script_numeric_unary_op opcode vm = check_param_count 1 vm (do
  val ← get_integer_value 1 vm.stack
  s ← pop 1 vm.stack
  r ← unary_op (opcode - 0x8b) val
  s' ← push_integer r s
  some (with_stack vm s'))

unfoldable pub script_numeric_binary_op : ℕ → Vm → Option Vm
unfolding get_integer_value pop binary_op push_integer has_values verify
script_numeric_binary_op opcode vm = check_param_count 2 vm (do
  x ← get_integer_value 2 vm.stack
  y ← get_integer_value 1 vm.stack
  s ← pop 2 vm.stack
  r ← binary_op (opcode - 0x93) x y
  s' ← push_integer r s
  verify_if (opcode == 0x9d) script_err_numequalverify (with_stack vm s'))

unfoldable pub script_within : Vm → Option Vm
unfolding get_integer_value pop has_values
script_within vm = check_param_count 3 vm (do
  x ← get_integer_value 3 vm.stack
  minval ← get_integer_value 2 vm.stack
  maxval ← get_integer_value 1 vm.stack
  s ← pop 3 vm.stack
  some (with_stack vm (push_bool (not (ltb_ℤ x minval) && ltb_ℤ x maxval) s)))

-- script_dup, script_dup2 and script_dup3, by the number of values.
unfoldable pub script_dup : ℕ → Vm → Option Vm
unfolding dup has_values
script_dup count vm =
    check_param_count count vm (dup count vm.stack >>= λ s. some (with_stack vm s))

-- script_drop and script_drop2, by the number of values.
unfoldable pub script_drop : ℕ → Vm → Option Vm
unfolding pop has_values
script_drop count vm =
    check_param_count count vm (pop count vm.stack >>= λ s. some (with_stack vm s))

unfoldable pub script_depth : Vm → Option Vm
unfolding push_integer
script_depth vm = push_integer (pos (length vm.stack)) vm.stack >>= λ s. some (with_stack vm s)

unfoldable pub script_size : Vm → Option Vm
unfolding push_integer get has_values
script_size vm =
    check_param_count 1 vm
      (do v ← get 1 vm.stack; s ← push_integer (pos (length v)) vm.stack; some (with_stack vm s))

unfoldable pub script_return : Vm → Option Vm
script_return vm = some (set_error script_err_op_return vm)

-- The hashers are the digests that OP_RIPEMD160 to OP_HASH256 stand for.
unfoldable pub script_hash : (ℕ → Value → Value) → ℕ → Vm → Option Vm
unfolding get pop has_values
script_hash hash opcode vm = check_param_count 1 vm (do
  v ← get 1 vm.stack
  s ← pop 1 vm.stack
  some (with_stack vm (push (hash (opcode - 0xa6) v) s)))

module _ (check : Value → Value → List ℕ → Bool) where
  -- A signature that does not verify fails an assertion, before the VERIFY form is reached.
  unfoldable pub script_check_sig : ℕ → Vm → Option Vm
  unfolding get pop has_values verify
  script_check_sig opcode vm = check_param_count 2 vm (do
    sig ← get 2 vm.stack
    pubkey ← get 1 vm.stack
    s ← pop 2 vm.stack
    let success = check sig pubkey vm.code in
        if success
        then verify_if (opcode == 0xad) script_err_checksigverify
            (with_stack vm (push_bool success s))
        else none)

  -- A count that is checked to be at least 0.
  abbrev pub count_of : ℤ → Option ℕ
  count_of (pos n) = some n
  count_of (negsuc n) = none

  -- The counts are on top of the keys and of the signatures; one more value below them is dropped.
  unfoldable pub script_check_multi_sig : ℕ → Vm → Option Vm
  unfolding get_integer_value get_values pop has_values verify check_multi_sig
  script_check_multi_sig opcode vm = check_param_count 1 vm (do
    key_count ← get_integer_value 1 vm.stack >>= count_of
    if not (ltb key_count max_pubkeys_per_multisig)
        then none
        else check_param_count (suc (suc key_count)) vm (do
          sig_count ← get_integer_value (suc (suc key_count)) vm.stack >>= count_of
          if not (leb sig_count key_count) then none else (do
            pubkeys ← get_values 2 key_count vm.stack
            signatures ← get_values (suc (suc (suc key_count))) sig_count vm.stack
            s ← pop (suc (suc (key_count + sig_count))) vm.stack
            let success =
                  check_multi_sig (λ sig pubkey. check sig pubkey vm.code) pubkeys signatures in
                verify_if (opcode == 0xaf) script_err_checkmultisigverify
                  (with_stack vm (push_bool success (elim s [ [] ↦ [] | v ∷ vs ↦ vs ]))))))
