-- ===== src/Script/Eval/Rounds.antt =====
-- The rounds of the loop of ScriptVM::eval, and those that push a value.
use xbtc.Base.{
  NonEmpty, ℕ, suc, ◌^◌, ◌<◌, ◌≡◌, refl, sym, ◌∙◌, ap, Bool, true, false, none, some, List, [], ◌∷◌,
  ◌++◌, length, arith, Bool-cases, inl, inr, ◌==◌, lt→ltb,
}
use xbtc.Stream.{Streams, Reads-eq, little_endian, little_endian-byte}
use xbtc.Script.Stack.{Value}
use xbtc.Script.Vm.{Vm}
use xbtc.Script.Eval.{
  Run, script_push0, script_pushdata, functions, call, eval_function, eval_loop, eval,
}

module _ (xul : Streams) (hash : ℕ → Value → Value) (check : Value → Value → List ℕ → Bool) where
  open xul use {
    Input, Output, write_uint, write_bytes, bytes, open_input, bytes-open_input, read_uint,
    read_string, read_uint_lem, read_uint_short, read_string_lem, written, written-write_uint,
    written-write_bytes, open_output, written-open_output,
  }

  -- One round of the loop: an opcode, and its function on what follows.
  unfoldable pub Round : ℕ → Vm → Input → ℕ → List ℕ → Type 0
  Round fuel vm is op rest =
      (is' : Input) × (bytes is' ≡ rest)
      × (eval_loop xul hash check (suc fuel) vm (some is)
          ≡ elim (eval_function xul hash check op vm is') [
            | none ↦ Run.failed
            | some (vm', code) ↦ eval_loop xul hash check fuel vm' code
          ])

  pub round :
      (fuel : ℕ) (vm : Vm) (is : Input) (op : ℕ) (rest : List ℕ)
      → vm.errcode ≡ 0
      → op < 256
      → bytes is ≡ op ∷ rest
      → Round fuel vm is op rest
  unfolding Round eval_loop
  round fuel vm is op rest ok lt e =
      let one : bytes is ≡ little_endian 1 op ++ rest =
        e ∙ ap (λ xs. xs ++ rest) (sym (little_endian-byte op lt)) in
      let (is', r, f) =
        Reads-eq xul (read_uint 1 is) op rest (read_uint_lem 1 op is rest (omega arith) one) in
      let runs : (vm.errcode == 0) ≡ true = ap (λ (x : ℕ). x == 0) ok in
      (is', f, rw (runs, r, eval_loop) refl)

  -- The end of the code.
  pub eval_loop-end :
      (fuel : ℕ) (vm : Vm) (is : Input)
      → bytes is ≡ []
      → eval_loop xul hash check (suc fuel) vm (some is) ≡ Run.finished vm
  unfolding eval_loop
  eval_loop-end fuel vm is e = elim (Bool-cases (vm.errcode == 0)) [
    | inl runs ↦ rw (runs, read_uint_short 1 is (omega (arith, ap length e)), eval_loop) refl
    | inr stopped ↦ rw (stopped, eval_loop) refl
  ]

  abbrev pub pushed : Vm → Value → Vm
  pushed vm v = record vm { stack = v ∷ vm.stack }

  -- A round that pushes `v`, and goes on with `rest`.
  unfoldable pub Pushes : ℕ → Vm → Input → Value → List ℕ → Type 0
  Pushes fuel vm is v rest =
      (is' : Input) × (bytes is' ≡ rest)
      × (eval_loop xul hash check (suc fuel) vm (some is)
          ≡ eval_loop xul hash check fuel (pushed vm v) (some is'))

  -- A round whose function pushes a string of the code.
  pub push-Pushes :
      (fuel : ℕ) (vm : Vm) (is : Input) (op : ℕ) (v : Value) (after rest : List ℕ)
      → vm.errcode ≡ 0
      → op < 256
      → bytes is ≡ op ∷ after
      → ((is1 : Input)
          → bytes is1 ≡ after
          → (is2 : Input) × (bytes is2 ≡ rest)
            × (eval_function xul hash check op vm is1 ≡ some (pushed vm v, some is2)))
      → Pushes fuel vm is v rest
  unfolding Pushes Round
  push-Pushes fuel vm is op v after rest ok lt e f =
      let (is1, g, r) = round fuel vm is op after ok lt e in
      let (is2, h, c) = f is1 g in (is2, h, r ∙ rw c refl)

  pub push0-pushes :
      (vm : Vm) (is : Input) (v : Value) (rest : List ℕ)
      → length v < 0x4c
      → bytes is ≡ v ++ rest
      → (is2 : Input) × (bytes is2 ≡ rest)
        × (eval_function xul hash check (length v) vm is ≡ some (pushed vm v, some is2))
  unfolding eval_function functions call script_push0
  push0-pushes vm is [] rest lt e = (is, e, refl)
  push0-pushes vm is (c ∷ cs) rest lt e =
      let (is', r, f) =
        Reads-eq xul (read_string (length (c ∷ cs)) is) (c ∷ cs) rest
          (read_string_lem (c ∷ cs) is rest e) in
      let filled : (length (c ∷ cs) == 0) ≡ false = ground arith in
      (is', f, rw (lt→ltb (length (c ∷ cs)) 0x4c lt, filled, r) refl)

  pub pushdata-pushes :
      (width : ℕ) (vm : Vm) (is : Input) (v : Value) (rest : List ℕ)
      → length v < 256 ^ width
      → bytes is ≡ little_endian width (length v) ++ (v ++ rest)
      → (is2 : Input) × (bytes is2 ≡ rest)
        × (script_pushdata xul hash check width vm is ≡ some (pushed vm v, some is2))
  unfolding script_pushdata
  pushdata-pushes width vm is v rest lt e =
      let (is1, r, f) =
        Reads-eq xul (read_uint width is) (length v) (v ++ rest)
          (read_uint_lem width (length v) is (v ++ rest) lt e) in
      let (is2, r', g) =
        Reads-eq xul (read_string (length v) is1) v rest (read_string_lem v is1 rest f) in
      (is2, g, rw (r, r', script_pushdata) refl)

  -- A script of one round that pushes.
  pub eval-Pushes :
      (xs : List ℕ) (vm : Vm) (v : Value)
      → NonEmpty xs
      → ((fuel : ℕ) (is : Input) → bytes is ≡ xs → Pushes fuel (record vm { code = xs }) is v [])
      → eval xul hash check xs vm ≡ Run.finished (record vm { stack = v ∷ vm.stack; code = xs })
  unfolding eval Pushes
  eval-Pushes [] vm v n p = absurd n
  eval-Pushes (c ∷ cs) vm v n p =
      let (is', f, r) = p (length (c ∷ cs)) (open_input (c ∷ cs)) (bytes-open_input (c ∷ cs)) in
      r ∙ eval_loop-end (length cs) (record vm { stack = v ∷ vm.stack; code = c ∷ cs }) is' f
