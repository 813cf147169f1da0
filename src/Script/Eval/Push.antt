-- ===== src/Script/Eval/Push.antt =====
-- Scripts that push one value, from their writers.
use xbtc.Base.{
  NonEmpty, ℕ, ◌^◌, ◌<◌, ◌≡◌, refl, sym, ◌∙◌, ap, Bool, false, take, take-append, ◌%◌, List, [],
  ◌∷◌, ◌++◌, length, if◌then◌else◌, arith, Bool-cases, inl, inr, ltb, leb, append_assoc, lt→ltb,
  le_or_lt, le→ltb, le→leb, lt→leb, append-nil,
}
use xbtc.Stream.{Streams, little_endian, little_endian-byte, Emits, Emits-chain}
use xbtc.Script.Stack.{Value}
use xbtc.Script.Vm.{Vm}
use xbtc.Script.Writer.{write_script_string}
use xbtc.Script.Eval.{Run, functions, call, eval_function, eval, Function}
use xbtc.Script.Eval.Rounds.{Pushes, push-Pushes, push0-pushes, pushdata-pushes, eval-Pushes}

module _ (xul : Streams) (hash : ℕ → Value → Value) (check : Value → Value → List ℕ → Bool) where
  open xul use {
    Input, Output, write_uint, write_bytes, bytes, open_input, bytes-open_input, read_uint,
    read_string, read_uint_lem, read_uint_short, read_string_lem, written, written-write_uint,
    written-write_bytes, open_output, written-open_output,
  }

  size_bytes : ℕ → List ℕ
  size_bytes n =
      if ltb n 0x4c
      then n ∷ []
      else if leb n 0xff
      then 0x4c ∷ little_endian 1 n
      else if leb n 0xffff
      then 0x4d ∷ little_endian 2 n
      else 0x4e ∷ little_endian 4 n

  -- What the writer of a string puts down.
  pub script_string_bytes : Value → List ℕ
  unfolding size_bytes
  script_string_bytes v = size_bytes (length v) ++ v

  opcode-Emits :
      (op width n : ℕ)
      → op < 256
      → Emits xul (λ o. write_uint width n (write_uint 1 op o)) (op ∷ little_endian width n)
  opcode-Emits op width n h o =
      Emits-chain xul (write_uint 1 op) (write_uint width n) (little_endian 1 op)
        (little_endian width n) (written-write_uint 1 op) (written-write_uint width n) o
      ∙ ap (λ xs. written o ++ (xs ++ little_endian width n)) (little_endian-byte op h)

  write_script_string-Emits :
      (v : Value)
      → length v < 2 ^ 31
      → Emits xul (write_script_string xul v) (script_string_bytes v)
  unfolding write_script_string script_string_bytes size_bytes
  write_script_string-Emits v lt o = elim (le_or_lt 0x4c (length v)) [
    | inr short ↦
        rw (as_int, not_negative, whole, lt→ltb (length v) 0x4c short, write_script_string)
          (tail (write_uint 1 (length v) o) (length v ∷ []) (
            written-write_uint 1 (length v) o
            ∙ ap (λ xs. written o ++ xs) (little_endian-byte (length v) (omega arith))))
    | inl long ↦ elim (le_or_lt (length v) 0xff) [
      | inl one ↦
          rw
            (
              as_int,
              not_negative,
              whole,
              le→ltb (length v) 0x4c long,
              le→leb (length v) 0xff one,
              write_script_string,
            )
            (tail _ _ (opcode-Emits 0x4c 1 (length v) (omega arith) o))
      | inr more ↦ elim (le_or_lt (length v) 0xffff) [
        | inl two ↦
            rw
              (
                as_int,
                not_negative,
                whole,
                le→ltb (length v) 0x4c long,
                lt→leb (length v) 0xff more,
                le→leb (length v) 0xffff two,
                write_script_string,
              )
              (tail _ _ (opcode-Emits 0x4d 2 (length v) (omega arith) o))
        | inr four ↦
            rw
              (
                as_int,
                not_negative,
                whole,
                le→ltb (length v) 0x4c long,
                lt→leb (length v) 0xff more,
                lt→leb (length v) 0xffff four,
                write_script_string,
              )
              (tail _ _ (opcode-Emits 0x4e 4 (length v) (omega arith) o))
      ]
    ]
  ]
    where
      as_int : length v % 2 ^ 32 ≡ length v
      as_int = omega arith

      not_negative : leb (2 ^ 31) (length v) ≡ false
      not_negative = lt→leb (2 ^ 31) (length v) lt

      whole : take (length v) v ≡ v
      whole = ap (take (length v)) (sym (append-nil v)) ∙ take-append v []

      tail :
          (o' : Output) (xs : List ℕ)
          → written o' ≡ written o ++ xs
          → written (write_bytes v o') ≡ written o ++ (xs ++ v)
      tail o' xs e = written-write_bytes v o' ∙ ap (λ ys. ys ++ v) e ∙ append_assoc (written o) xs v

  pub script_string-Pushes :
      (fuel : ℕ) (vm : Vm) (is : Input) (v : Value) (rest : List ℕ)
      → vm.errcode ≡ 0
      → length v < 2 ^ 32
      → bytes is ≡ script_string_bytes v ++ rest
      → Pushes xul hash check fuel vm is v rest
  unfolding script_string_bytes size_bytes
  script_string-Pushes fuel vm is v rest ok lt e = elim (le_or_lt 0x4c (length v)) [
    | inr short ↦
        push-Pushes xul hash check fuel vm is (length v) v (v ++ rest) rest ok (omega arith)
          (rw (lt→ltb (length v) 0x4c short) at e)
          λ is1 f. push0-pushes xul hash check vm is1 v rest short f
    | inl long ↦ elim (le_or_lt (length v) 0xff) [
      | inl one ↦
          data_of 0x4c 1 (omega arith) (omega arith)
            (rw (le→ltb (length v) 0x4c long, le→leb (length v) 0xff one) at e)
            (unfold functions in refl)
      | inr more ↦ elim (le_or_lt (length v) 0xffff) [
        | inl two ↦
            data_of 0x4d 2 (omega arith) (omega arith)
              (rw
                (
                  le→ltb (length v) 0x4c long,
                  lt→leb (length v) 0xff more,
                  le→leb (length v) 0xffff two,
                )
                at e)
              (unfold functions in refl)
        | inr four ↦
            data_of 0x4e 4 (omega arith) (omega arith)
              (rw
                (
                  le→ltb (length v) 0x4c long,
                  lt→leb (length v) 0xff more,
                  lt→leb (length v) 0xffff four,
                )
                at e)
              (unfold functions in refl)
      ]
    ]
  ]
    where
      data_of :
          (op width : ℕ)
          → length v < 256 ^ width
          → op < 256
          → bytes is ≡ ((op ∷ little_endian width (length v)) ++ v) ++ rest
          → functions xul hash check op ≡ Function.pushdata width
          → Pushes xul hash check fuel vm is v rest
      data_of op width fits byte f table =
          push-Pushes xul hash check fuel vm is op v (little_endian width (length v) ++ (v ++ rest))
            rest ok byte
            (f ∙ ap (λ xs. op ∷ xs) (append_assoc (little_endian width (length v)) v rest))
            λ is1 g.
              let (is2, h, c) = pushdata-pushes xul hash check width vm is1 v rest fits g in
              (is2, h, unfold eval_function call in rw (table, eval_function) c)

  NonEmpty-script_string_bytes : (v : Value) → NonEmpty (script_string_bytes v)
  unfolding script_string_bytes size_bytes
  NonEmpty-script_string_bytes v = elim (Bool-cases (ltb (length v) 0x4c)) [
    | inl a ↦ rw (a, script_string_bytes) tt
    | inr a ↦ elim (Bool-cases (leb (length v) 0xff)) [
      | inl b ↦ rw (a, b, script_string_bytes) tt
      | inr b ↦ elim (Bool-cases (leb (length v) 0xffff)) [
        | inl c ↦ rw (a, b, c, script_string_bytes) tt
        | inr c ↦ rw (a, b, c, script_string_bytes) tt
      ]
    ]
  ]

  pub eval-write_script_string :
      (v : Value) (vm : Vm)
      → vm.errcode ≡ 0
      → length v < 2 ^ 31
      → eval xul hash check (written (write_script_string xul v open_output)) vm
        ≡ Run.finished (record vm {
          stack = v ∷ vm.stack;
          code = written (write_script_string xul v open_output);
        })
  eval-write_script_string v vm ok lt =
      rw
        (write_script_string-Emits v lt open_output
          ∙ ap (λ xs. xs ++ script_string_bytes v) written-open_output)
        (eval-Pushes xul hash check (script_string_bytes v) vm v (NonEmpty-script_string_bytes v)
          λ fuel is e.
            script_string-Pushes fuel (record vm { code = script_string_bytes v }) is v [] ok
              (omega arith) (e ∙ sym (append-nil (script_string_bytes v))))
