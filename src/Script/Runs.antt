-- ===== src/Script/Runs.antt =====
-- The theorems on scripts, at concrete values and scripts.
use xbtc.Base.{ℕ, ◌≡◌, ◌≢◌, ◌↔◌, refl, some, ◌>>=◌, Bool, List, [], ◌∷◌, ◌++◌, arith, if◌then◌else◌}
use xbtc.Base.Int.{negsuc}
use mathlib.Core.List.{reverse}
use xbtc.Stream.{bytes_streams}
use xbtc.Script.Number.{encode_script_number, decode_script_number}
use xbtc.Script.Number.RoundTrip.{decode_script_number-encode_script_number}
use xbtc.Script.Stack.{Value, eq_value, v_true, v_false, dup}
use xbtc.Script.Stack.Copies.{dup-reverse}
use xbtc.Script.Vm.{Vm, script_check_multi_sig, script_err_equalverify}
use xbtc.Script.MultiSig.Matching.{Matching}
use xbtc.Script.MultiSig.Machine.{multi_sig_stack, script_check_multi_sig-Matching}
use xbtc.Script.Writer.{write_script_integer}
use xbtc.Script.Eval.{Run, eval}
use xbtc.Script.Eval.Fuel.{eval-ends}
use xbtc.Script.Eval.Integers.{eval-write_script_integer}
use xbtc.Script.Eval.KeyHash.{key_hash_script, machine, eval-key_hash_script}
open bytes_streams use {Output, written, open_output}

-- A digest and a signature scheme to run with: a signature is the key itself.
abbrev digest : ℕ → Value → Value
digest i v = i ∷ v

abbrev same_key : Value → Value → List ℕ → Bool
same_key sig pubkey code = eq_value sig pubkey

abbrev start : Vm
start = record { stack = (7 ∷ []) ∷ []; errcode = 0; code = [] }

decode_script_number-encode_script_number_example :
    (encode_script_number (negsuc 254) >>= decode_script_number) ≡ some (negsuc 254)
decode_script_number-encode_script_number_example =
    decode_script_number-encode_script_number (negsuc 254) (omega arith)

dup-reverse_example :
    dup 2 ((1 ∷ []) ∷ (2 ∷ []) ∷ [])
    ≡ some (reverse ((1 ∷ []) ∷ (2 ∷ []) ∷ []) ++ ((1 ∷ []) ∷ (2 ∷ []) ∷ []))
dup-reverse_example = dup-reverse ((1 ∷ []) ∷ (2 ∷ []) ∷ []) []

eval-ends_example : eval bytes_streams digest same_key (0x51 ∷ 0x76 ∷ []) start ≢ Run.out_of_fuel
eval-ends_example = eval-ends bytes_streams digest same_key (0x51 ∷ 0x76 ∷ []) start

eval-write_script_integer_example :
    (v : Value) × (o : Output) × (encode_script_number (negsuc 299) ≡ some v)
    × (write_script_integer bytes_streams (negsuc 299) open_output ≡ some o)
    × (eval bytes_streams digest same_key (written o) start
        ≡ Run.finished (record start { stack = v ∷ (7 ∷ []) ∷ []; code = written o }))
eval-write_script_integer_example =
    eval-write_script_integer bytes_streams digest same_key (negsuc 299) start refl (omega arith)

abbrev pubkey : Value
pubkey = 8 ∷ 9 ∷ []

abbrev paid_to : Value
paid_to = 3 ∷ 8 ∷ 9 ∷ []

eval-key_hash_script_example :
    eval bytes_streams digest same_key (key_hash_script paid_to) (machine [] (pubkey ∷ pubkey ∷ []))
    ≡ (if eq_value paid_to (digest 3 pubkey)
        then if same_key pubkey pubkey (key_hash_script paid_to)
          then Run.finished (machine (key_hash_script paid_to) (v_true ∷ []))
          else Run.failed
        else Run.finished (record {
          stack = v_false ∷ pubkey ∷ pubkey ∷ [];
          errcode = script_err_equalverify;
          code = key_hash_script paid_to;
        }))
eval-key_hash_script_example =
    eval-key_hash_script bytes_streams digest same_key paid_to pubkey pubkey [] [] (omega arith)

abbrev two_of_three : List Value
two_of_three = (1 ∷ []) ∷ (2 ∷ []) ∷ (3 ∷ []) ∷ []

abbrev two : List Value
two = (1 ∷ []) ∷ (3 ∷ []) ∷ []

script_check_multi_sig-Matching_example :
    (script_check_multi_sig same_key 0xae
        (record { stack = multi_sig_stack two_of_three two [] []; errcode = 0; code = [] })
      ≡ some (record { stack = v_true ∷ []; errcode = 0; code = [] }))
    ↔ Matching (λ sig key. same_key sig key []) two two_of_three
script_check_multi_sig-Matching_example =
    script_check_multi_sig-Matching same_key two_of_three two [] [] 0 [] (omega arith) (omega arith)
