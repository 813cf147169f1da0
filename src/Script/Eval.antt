-- ===== src/Script/Eval.antt =====
-- The functions that read from the code, the table of functions and the loop of ScriptVM::eval:
-- src/script/ScriptFunctions.cpp and src/script/ScriptVM.cpp.
pub mod Fuel
pub mod Rounds
pub mod Push
pub mod Integers
pub mod KeyHash
use xbtc.Base.{
  ℕ, zero, suc, Bool, true, false, not, ◌&&◌, ◌||◌, Option, none, some, ◌>>=◌, List, [], ◌∷◌,
  length, ltb, leb, ◌==◌, if◌then◌else◌, none-ne-some,
}
use xbtc.Stream.{Streams}
use xbtc.Script.Stack.{Value, Stack, push}
use xbtc.Script.Vm.{
  Vm, set_error, with_stack, script_integer, script_equal, script_numeric_unary_op,
  script_numeric_binary_op, script_within, script_dup, script_drop, script_depth, script_size,
  script_return, script_hash, script_check_sig, script_check_multi_sig,
}

-- The functions of the table: those that read from the code, and those that only change the machine.
pub data Function : Type 0 where
  push0 : Function
  pushdata : ℕ → Function
  stack_function : (ℕ → Vm → Option Vm) → Function
  reserved : Function

-- How a run ends: `failed` is a failed assertion.
pub data Run : Type 0 where
  finished : Vm → Run
  failed : Run
  out_of_fuel : Run

module _ (xul : Streams) (hash : ℕ → Value → Value) (check : Value → Value → List ℕ → Bool) where
  open xul use {Input, open_input, read_uint, read_string}

  -- The machine and its code stream; `none` is a stream that has gone bad.
  abbrev pub State : Type 0
  State = Vm × Option Input

  unfoldable pub script_push0 : ℕ → Vm → Input → Option State
  script_push0 opcode vm is =
      if opcode == 0
      then some (with_stack vm (push [] vm.stack), some is)
      else elim (read_string opcode is) [
        | none ↦ some (set_error 1 vm, none)
        | some (s, is') ↦ some (with_stack vm (push s vm.stack), some is')
      ]

  -- script_pushdata, by the number of bytes of SizeT.
  unfoldable pub script_pushdata : ℕ → Vm → Input → Option State
  script_pushdata width vm is = elim (read_uint width is >>= λ (size, is'). read_string size is') [
    | none ↦ some (vm, none)
    | some (s, is') ↦ some (with_stack vm (push s vm.stack), some is')
  ]

  abbrev in_range : ℕ → ℕ → ℕ → Bool
  in_range first last opcode = leb first opcode && leb opcode last

  -- The table that the constructor of ScriptFunctionTable fills.
  unfoldable pub functions : ℕ → Function
  functions opcode =
      if ltb opcode 0x4c
      then push0
      else if opcode == 0x4c
      then pushdata 1
      else if opcode == 0x4d
      then pushdata 2
      else if opcode == 0x4e
      then pushdata 4
      else if (opcode == 0x4f) || in_range 0x51 0x60 opcode
      then stack_function script_integer
      else if opcode == 0x61
      then stack_function (λ op vm. some vm)
      else if opcode == 0x6a
      then stack_function (λ op. script_return)
      else if opcode == 0x6d
      then stack_function (λ op. script_drop 2)
      else if opcode == 0x6e
      then stack_function (λ op. script_dup 2)
      else if opcode == 0x6f
      then stack_function (λ op. script_dup 3)
      else if opcode == 0x74
      then stack_function (λ op. script_depth)
      else if opcode == 0x75
      then stack_function (λ op. script_drop 1)
      else if opcode == 0x76
      then stack_function (λ op. script_dup 1)
      else if opcode == 0x82
      then stack_function (λ op. script_size)
      else if in_range 0x87 0x88 opcode
      then stack_function script_equal
      else if in_range 0x8b 0x92 opcode
      then stack_function script_numeric_unary_op
      else if in_range 0x93 0xa4 opcode
      then stack_function script_numeric_binary_op
      else if opcode == 0xa5
      then stack_function (λ op. script_within)
      else if in_range 0xa6 0xaa opcode
      then stack_function (script_hash hash)
      else if in_range 0xac 0xad opcode
      then stack_function (script_check_sig check)
      else if in_range 0xae 0xaf opcode
      then stack_function (script_check_multi_sig check)
      else reserved

  -- A call of a function of the table; script_reserved fails an assertion.
  unfoldable pub call : Function → ℕ → Vm → Input → Option State
  unfolding script_push0 script_pushdata
  call push0 opcode vm is = script_push0 opcode vm is
  call (pushdata width) opcode vm is = script_pushdata width vm is
  call (stack_function f) opcode vm is = f opcode vm >>= λ vm'. some (vm', some is)
  call reserved opcode vm is = none

  -- ScriptFunctionTable::eval.
  unfoldable pub eval_function : ℕ → Vm → Input → Option State
  unfolding functions call
  eval_function opcode vm is = call (functions opcode) opcode vm is

  -- The loop of eval on fuel.
  unfoldable pub eval_loop : ℕ → Vm → Option Input → Run
  unfolding eval_function
  eval_loop zero vm code = out_of_fuel
  eval_loop (suc fuel) vm none = finished vm
  eval_loop (suc fuel) vm (some is) =
      if vm.errcode == 0
      then elim (read_uint 1 is) [
        | none ↦ finished vm
        | some (op, is') ↦ elim (eval_function op vm is') [
          | none ↦ failed
          | some (vm', code) ↦ eval_loop fuel vm' code
        ]
      ]
      else finished vm

  -- ScriptVM::eval: an empty script fails an assertion. Each round reads a byte, so that one more round
  -- than there are bytes is enough.
  unfoldable pub eval : List ℕ → Vm → Run
  unfolding eval_loop
  eval [] vm = failed
  eval (c ∷ cs) vm =
      eval_loop (suc (length (c ∷ cs))) (record vm { code = c ∷ cs }) (some (open_input (c ∷ cs)))
