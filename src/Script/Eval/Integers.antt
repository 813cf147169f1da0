-- ===== src/Script/Eval/Integers.antt =====
-- Scripts that push an integer.
use xbtc.Base.{
  ℕ, zero, suc, Option, ◌^◌, ◌+◌, ◌<◌, ◌∙◌, ap, ◌++◌, [], ◌∷◌, true, false, some, Bool-cases, inl,
  inr, leb, ◌==◌, ◌&&◌, ◌||◌, ◌≤◌, ◌≡◌, refl, arith, List, Bool, suc,
}
use xbtc.Stream.{Streams, little_endian, little_endian-byte}
use xbtc.Base.Int.{ℤ, pos, negsuc, magnitude, ◌+ℤ◌, ◌-ℤ◌}
use xbtc.Script.Number.{number_bytes, encode_script_number}
use xbtc.Script.Number.RoundTrip.{encode_script_number-fits}
use xbtc.Script.Number.Bytes.{length-number_bytes}
use xbtc.Script.Writer.{write_script_string, write_script_number, write_script_integer}
use xbtc.Script.Eval.Rounds.{Pushes, pushed, push-Pushes, eval-Pushes}
use xbtc.Script.Eval.Push.{eval-write_script_string}
use xbtc.Script.Stack.{Value, push_integer}
use xbtc.Script.Vm.{Vm, script_integer}
use xbtc.Script.Eval.{Function, functions, Vm, eval, eval_function, call, Run, script_push0}

module _ (xul : Streams) (hash : ℕ → Value → Value) (check : Value → Value → List ℕ → Bool) where
  open xul use {
    Input, Output, bytes, written, write_uint, open_output, written-write_uint, written-open_output,
  }

  functions-integer :
      (n : ℕ)
      → 1 ≤ n
      → n ≤ 16
      → functions xul hash check (n + 0x50) ≡ Function.stack_function script_integer
  unfolding functions
  functions-integer n h k = ground arith

  integer_of : (n : ℕ) → pos (n + 0x50) -ℤ pos 0x51 +ℤ pos 1 ≡ pos n
  unfolding ◌+ℤ◌ ◌-ℤ◌
  integer_of n = ground arith

  script_integer-small :
      (n : ℕ) (vm : Vm)
      → 1 ≤ n
      → n ≤ 16
      → script_integer (n + 0x50) vm ≡ some (pushed xul hash check vm (number_bytes (pos n)))
  unfolding script_integer push_integer
  script_integer-small n vm h k =
      let encoded = encode_script_number-fits (pos n) (omega arith) in
      let in_range : (leb 0x51 (n + 0x50) && leb (n + 0x50) 0x60) || (n + 0x50 == 0x4f) ≡ true =
        ground arith in
      rw (in_range, integer_of n, encoded) refl

  small_function :
      (n : ℕ) (vm : Vm) (is : Input)
      → 1 ≤ n
      → n ≤ 16
      → eval_function xul hash check (n + 0x50) vm is
        ≡ some (pushed xul hash check vm (number_bytes (pos n)), some is)
  unfolding eval_function call
  small_function n vm is h k = rw (functions-integer n h k, script_integer-small n vm h k) refl

  zero_function :
      (vm : Vm) (is : Input)
      → eval_function xul hash check 0 vm is
        ≡ some (pushed xul hash check vm (number_bytes (pos 0)), some is)
  unfolding eval_function functions call script_push0 number_bytes
  zero_function vm is = refl

  minus_function :
      (vm : Vm) (is : Input)
      → eval_function xul hash check 0x4f vm is
        ≡ some (pushed xul hash check vm (number_bytes (negsuc 0)), some is)
  unfolding eval_function functions call script_integer push_integer ◌+ℤ◌ ◌-ℤ◌
  minus_function vm is = refl

  -- An opcode that stands for an integer.
  opcode-Pushes :
      (fuel : ℕ) (vm : Vm) (is : Input) (op : ℕ) (val : ℤ)
      → vm.errcode ≡ 0
      → op < 256
      → bytes is ≡ op ∷ []
      → (eval_function-eq : (is1 : Input)
          → eval_function xul hash check op vm is1
            ≡ some (pushed xul hash check vm (number_bytes val), some is1))
      → Pushes xul hash check fuel vm is (number_bytes val) []
  opcode-Pushes fuel vm is op val ok lt e f =
      push-Pushes xul hash check fuel vm is op (number_bytes val) [] [] ok lt e
        λ is1 g. (is1, g, f is1)

  eval-opcode :
      (op : ℕ) (val : ℤ) (vm : Vm)
      → vm.errcode ≡ 0
      → op < 256
      → ((code : List ℕ) (is1 : Input)
          → eval_function xul hash check op (record vm { code = code }) is1
            ≡ some (record vm { stack = number_bytes val ∷ vm.stack; code = code }, some is1))
      → eval xul hash check (written (write_uint 1 op open_output)) vm
        ≡ Run.finished (record vm {
          stack = number_bytes val ∷ vm.stack;
          code = written (write_uint 1 op open_output);
        })
  eval-opcode op val vm ok lt f =
      rw
        (written-write_uint 1 op open_output
          ∙ ap (λ xs. xs ++ little_endian 1 op) written-open_output
          ∙ little_endian-byte op lt)
        (eval-Pushes xul hash check (op ∷ []) vm (number_bytes val) tt λ fuel is e.
          opcode-Pushes fuel (record vm { code = op ∷ [] }) is op val ok lt e (f (op ∷ [])))

  -- What a writer puts down, and that it pushes the encoding of an integer.
  PushesNumber : ℤ → Vm → Option Output → Type 0
  PushesNumber val vm result =
      (v : Value) × (o : Output) × (encode_script_number val ≡ some v)
      × (result ≡ some o)
      × (eval xul hash check (written o) vm
          ≡ Run.finished (record vm { stack = v ∷ vm.stack; code = written o }))

  number-PushesNumber :
      (val : ℤ) (vm : Vm)
      → vm.errcode ≡ 0
      → magnitude val < 2 ^ 63
      → PushesNumber val vm (write_script_number xul val open_output)
  unfolding write_script_number PushesNumber
  number-PushesNumber val vm ok lt =
      let v = number_bytes val in
      let e = encode_script_number-fits val lt in
      (
        v,
        write_script_string xul v open_output,
        e,
        rw e refl,
        eval-write_script_string xul hash check v vm ok (omega (arith, length-number_bytes val)),
      )

  opcode-PushesNumber :
      (op : ℕ) (val : ℤ) (vm : Vm)
      → vm.errcode ≡ 0
      → op < 256
      → magnitude val < 2 ^ 63
      → ((code : List ℕ) (is1 : Input)
          → eval_function xul hash check op (record vm { code = code }) is1
            ≡ some (record vm { stack = number_bytes val ∷ vm.stack; code = code }, some is1))
      → PushesNumber val vm (some (write_uint 1 op open_output))
  unfolding PushesNumber
  opcode-PushesNumber op val vm ok lt fits f = (
    number_bytes val,
    write_uint 1 op open_output,
    encode_script_number-fits val fits,
    refl,
    eval-opcode op val vm ok lt f,
  )

  -- For a machine without an error and an integer of 64 bits but the least, the integer has an
  -- encoding, ScriptIntegerWriter succeeds, and evaluating what it writes pushes that encoding and
  -- does nothing else, whether an opcode stands for the integer or not.
  pub eval-write_script_integer :
      (val : ℤ) (vm : Vm)
      → vm.errcode ≡ 0
      → magnitude val < 2 ^ 63
      → (v : Value) × (o : Output) × (encode_script_number val ≡ some v)
        × (write_script_integer xul val open_output ≡ some o)
        × (eval xul hash check (written o) vm
            ≡ Run.finished (record vm { stack = v ∷ vm.stack; code = written o }))
  unfolding write_script_integer PushesNumber
  eval-write_script_integer (pos zero) vm ok lt =
      opcode-PushesNumber 0 (pos 0) vm ok (omega arith) (omega arith)
        λ code is1. zero_function (record vm { code = code }) is1
  eval-write_script_integer (pos (suc n)) vm ok lt =
      elim (Bool-cases (leb 1 (suc n) && leb (suc n) 16)) [
        | inl small ↦
            rw (small, write_script_integer)
              (opcode-PushesNumber (suc n + 0x50) (pos (suc n)) vm ok (ground arith) lt λ code is1.
                small_function (suc n) (record vm { code = code }) is1 (omega arith) (ground arith))
        | inr other ↦
            let filled : (suc n == 0) ≡ false = ground arith in
            rw (other, filled, write_script_integer) (number-PushesNumber (pos (suc n)) vm ok lt)
      ]
  eval-write_script_integer (negsuc zero) vm ok lt =
      opcode-PushesNumber 0x4f (negsuc 0) vm ok (omega arith) (omega arith)
        λ code is1. minus_function (record vm { code = code }) is1
  eval-write_script_integer (negsuc (suc n)) vm ok lt =
      let filled : (suc n == 0) ≡ false = ground arith in
      rw (filled, write_script_integer) (number-PushesNumber (negsuc (suc n)) vm ok lt)
