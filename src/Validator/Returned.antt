-- ===== src/Validator/Returned.antt =====
-- A signature script that stops the machine (verifyTransactionInput of src/storage/Validator.cpp over ScriptVM::eval).
use xbtc.Base.{ℕ, ◌≡◌, refl, ◌∙◌, Bool, true, some, List, [], ◌∷◌, arith}
use xbtc.Stream.{Streams}
use xbtc.Script.Stack.{Value, get, is_true, push_integer}
use xbtc.Script.Vm.{Vm, script_err_op_return, script_integer, script_return}
use xbtc.Script.Eval.{Run, eval, eval_loop, eval_function, functions, call}
use xbtc.Script.Number.{number_bytes, last_byte, abs_bytes}
use xbtc.Base.Int.{◌+ℤ◌, ◌-ℤ◌}
use xbtc.Script.Eval.Rounds.{round, Round}
use xbtc.Validator.{verify_scripts}

module _ (xul : Streams) (hash : ℕ → Value → Value) (check : Value → Value → List ℕ → Bool) where
  open xul use {Input, open_input, bytes-open_input}

  -- OP_1 and OP_RETURN.
  abbrev pub true_return : List ℕ
  true_return = 0x51 ∷ 0x6a ∷ []

  abbrev stopped : List ℕ → Vm
  stopped code = record { stack = (1 ∷ []) ∷ []; errcode = script_err_op_return; code = code }

  -- A machine with an error reads nothing of the code.
  eval-stopped :
      (c : ℕ) (cs : List ℕ)
      → eval xul hash check (c ∷ cs) (stopped true_return) ≡ Run.finished (stopped (c ∷ cs))
  unfolding eval eval_loop
  eval-stopped c cs = refl

  push_one :
      (code : List ℕ) (is : Input)
      → eval_function xul hash check 0x51 (record { stack = []; errcode = 0; code = code }) is
        ≡ some (record { stack = (1 ∷ []) ∷ []; errcode = 0; code = code }, some is)
  unfolding eval_function functions call script_integer push_integer number_bytes ◌+ℤ◌ ◌-ℤ◌
      last_byte abs_bytes
  push_one code is = refl

  return_now :
      (vm : Vm) (is : Input)
      → eval_function xul hash check 0x6a vm is
        ≡ some (record vm { errcode = script_err_op_return }, some is)
  unfolding eval_function functions call script_return
  return_now vm is = refl

  eval-true_return :
      eval xul hash check true_return (record { stack = []; errcode = 0; code = [] })
      ≡ Run.finished (stopped true_return)
  unfolding eval Round
  eval-true_return =
      let vm0 : Vm = record { stack = []; errcode = 0; code = true_return } in
      let vm1 : Vm = record { stack = (1 ∷ []) ∷ []; errcode = 0; code = true_return } in
      let (is1, e1, r1) =
        round xul hash check 2 vm0 (open_input true_return) 0x51 (0x6a ∷ []) refl (omega arith)
          (bytes-open_input true_return) in
      let (is2, e2, r2) = round xul hash check 1 vm1 is1 0x6a [] refl (omega arith) e1 in
      r1 ∙ rw (push_one true_return is1) (r2 ∙ rw (return_now vm1 is2) (unfold eval_loop in refl))

  -- Every output whose script is not empty is spent by the signature script of OP_1 and OP_RETURN:
  -- the machine stops with an error, so that nothing of the script of the output is run, and the
  -- value that is left on the stack is true.
  pub verify_scripts-returned :
      (c : ℕ) (cs : List ℕ) → verify_scripts xul hash check true_return (c ∷ cs) ≡ some true
  unfolding verify_scripts get is_true
  verify_scripts-returned c cs = rw (eval-true_return, eval-stopped c cs) refl
