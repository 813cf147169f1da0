-- ===== src/Script/Eval/Fuel.antt =====
-- The rounds that ScriptVM::eval gives its loop are enough.
use xbtc.Base.{
  ℕ, zero, suc, ◌≤◌, ◌<◌, ◌≡◌, ◌≢◌, ap, Bool, true, false, Option, none, some, List, [], ◌∷◌,
  length, if◌then◌else◌, arith, Bool-cases, Option-cases, inl, inr, ◌==◌,
}
use xbtc.Stream.{Streams}
use xbtc.Script.Stack.{Value}
use xbtc.Script.Vm.{Vm}
use xbtc.Script.Eval.{
  State, Run, script_push0, script_pushdata, eval_function, eval_loop, eval, call, functions,
  Function,
}

module _ (xul : Streams) (hash : ℕ → Value → Value) (check : Value → Value → List ℕ → Bool) where
  open xul use {
    Input, bytes, open_input, bytes-open_input, read_uint, read_string, read_uint_length,
    read_string_length,
  }

  abbrev left : Input → ℕ
  left is = length (bytes is)

  -- A stream that holds no more than `n` bytes is left, if any.
  unfoldable Shrinks : ℕ → Option (State xul hash check) → Type 0
  Shrinks n none = Unit {0}
  Shrinks n (some (vm, none)) = Unit {0}
  Shrinks n (some (vm, some is)) = left is ≤ n

  if-Shrinks :
      (n : ℕ) (b : Bool) (x y : Option (State xul hash check))
      → Shrinks n x
      → Shrinks n y
      → Shrinks n (if b then x else y)
  if-Shrinks n true x y p q = p
  if-Shrinks n false x y p q = q

  script_push0-Shrinks :
      (opcode : ℕ) (vm : Vm) (is : Input)
      → Shrinks (left is) (script_push0 xul hash check opcode vm is)
  unfolding script_push0 Shrinks
  script_push0-Shrinks opcode vm is =
      if-Shrinks (left is) (opcode == 0) _ _ (omega arith)
        (elim (Option-cases (read_string opcode is)) [
          | inl e ↦ rw e tt
          | inr ((s, is'), e) ↦ rw e (omega (arith, read_string_length opcode s is is' e))
        ])

  script_pushdata-Shrinks :
      (width : ℕ) (vm : Vm) (is : Input)
      → Shrinks (left is) (script_pushdata xul hash check width vm is)
  unfolding script_pushdata Shrinks
  script_pushdata-Shrinks width vm is = elim (Option-cases (read_uint width is)) [
    | inl e ↦ rw (e, script_pushdata) tt
    | inr ((size, is1), e) ↦ elim (Option-cases (read_string size is1)) [
      | inl f ↦ rw (e, f, script_pushdata) tt
      | inr ((s, is2), f) ↦
          rw (e, f, script_pushdata)
            (omega
              (arith, read_uint_length width size is is1 e, read_string_length size s is1 is2 f))
    ]
  ]

  call-Shrinks :
      (f : Function) (op : ℕ) (vm : Vm) (is : Input)
      → Shrinks (left is) (call xul hash check f op vm is)
  unfolding call Shrinks
  call-Shrinks Function.push0 op vm is = script_push0-Shrinks op vm is
  call-Shrinks (Function.pushdata width) op vm is = script_pushdata-Shrinks width vm is
  call-Shrinks (Function.stack_function f) op vm is = elim (Option-cases (f op vm)) [
    | inl e ↦ rw (e, call) tt
    | inr (vm', e) ↦ rw (e, call) (omega arith)
  ]
  call-Shrinks Function.reserved op vm is = tt

  eval_function-Shrinks :
      (op : ℕ) (vm : Vm) (is : Input) → Shrinks (left is) (eval_function xul hash check op vm is)
  unfolding eval_function
  eval_function-Shrinks op vm is = call-Shrinks (functions xul hash check op) op vm is

  abbrev remaining : Option Input → ℕ
  remaining none = 0
  remaining (some is) = left is

  Shrinks-le :
      (n : ℕ) (vm : Vm) (code : Option Input) → Shrinks n (some (vm, code)) → remaining code ≤ n
  unfolding Shrinks
  Shrinks-le n vm none s = omega arith
  Shrinks-le n vm (some is) s = s

  -- What a round hands to the next ones, `again`.
  abbrev continue : (Vm → Option Input → Run) → Option (State xul hash check) → Run
  continue again none = Run.failed
  continue again (some (vm, code)) = again vm code

  continue-ends :
      (n fuel : ℕ) (again : Vm → Option Input → Run) (r : Option (State xul hash check))
      → ((vm : Vm) (code : Option Input) → remaining code < fuel → again vm code ≢ Run.out_of_fuel)
      → Shrinks n r
      → n < fuel
      → continue again r ≢ Run.out_of_fuel
  unfolding Shrinks
  continue-ends n fuel again none ih s lt e = cc
  continue-ends n fuel again (some (vm, code)) ih s lt e =
      ih vm code (omega (arith, Shrinks-le n vm code s)) e

  -- More rounds than there are bytes left are enough.
  eval_loop-ends :
      (fuel : ℕ) (vm : Vm) (code : Option Input)
      → remaining code < fuel
      → eval_loop xul hash check fuel vm code ≢ Run.out_of_fuel
  unfolding eval_loop
  eval_loop-ends zero vm code h e = absurd (omega arith)
  eval_loop-ends (suc fuel) vm none h e = cc
  eval_loop-ends (suc fuel) vm (some is) h e = elim (Bool-cases (vm.errcode == 0)) [
    | inr stopped ↦ finished-ne (rw (stopped, eval_loop) at e)
    | inl runs ↦ elim (Option-cases (read_uint 1 is)) [
      | inl ended ↦ finished-ne (rw (runs, ended, eval_loop) at e)
      | inr ((op, is1), read) ↦
          continue-ends (left is1) fuel (eval_loop xul hash check fuel)
            (eval_function xul hash check op vm is1) (eval_loop-ends fuel)
            (eval_function-Shrinks op vm is1) (omega (arith, read_uint_length 1 op is is1 read))
            (rw (runs, read, eval_loop) at e)
    ]
  ]
    where
      finished-ne : {vm' : Vm} → Run.finished vm' ≡ Run.out_of_fuel → ⊥
      finished-ne f = cc

  -- A script never uses up the rounds that eval gives its loop, one more than the script has
  -- bytes.
  pub eval-ends : (code : List ℕ) (vm : Vm) → eval xul hash check code vm ≢ Run.out_of_fuel
  unfolding eval
  eval-ends [] vm e = cc
  eval-ends (c ∷ cs) vm e =
      eval_loop-ends (suc (length (c ∷ cs))) (record vm { code = c ∷ cs })
        (some (open_input (c ∷ cs))) (omega (arith, ap length (bytes-open_input (c ∷ cs)))) e
