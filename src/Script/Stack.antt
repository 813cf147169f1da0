-- ===== src/Script/Stack.antt =====
-- class Stack and the reading of its values: src/script/ScriptFunction.hpp, and getValues, getBoolValue
-- and getIntegerValue of src/script/ScriptVM.cpp. A value is the list of its bytes; the list has the top
-- of the stack first, so that index -k of the source is entry k - 1. `none` is a failed assertion.
pub mod Copies
pub mod Values
use xbtc.Base.{
  ℕ, zero, suc, ◌+◌, ◌-◌, ◌*◌, Bool, true, false, not, ◌&&◌, Option, none, some, ◌>>=◌, List, [],
  ◌∷◌, length, drop, get_elem?, ltb, leb, ◌==◌, if◌then◌else◌,
}
use xbtc.Base.Int.{ℤ, pos}
use xbtc.Script.Number.{encode_script_number, decode_script_number}

abbrev pub Value : Type 0
Value = List ℕ

abbrev pub Stack : Type 0
Stack = List Value

-- get(-k); no caller asks for index 0.
unfoldable pub get : ℕ → Stack → Option Value
get zero s = none
get (suc k) s = get_elem? s k

abbrev pub push : Value → Stack → Stack
push v s = v ∷ s

unfoldable pub push_integer : ℤ → Stack → Option Stack
unfolding encode_script_number
push_integer val s = encode_script_number val >>= λ v. some (push v s)

-- The strings that stand for true and false: vTrue is one byte OP_TRUE.
abbrev pub v_true : Value
v_true = 0x51 ∷ []

abbrev pub v_false : Value
v_false = []

abbrev pub push_bool : Bool → Stack → Stack
push_bool val s = push (if val then v_true else v_false) s

-- The rounds of dup(count) from round `i` on: push(-i*2 - 1).
unfoldable pub dup_loop : ℕ → ℕ → Stack → Option Stack
unfolding get
dup_loop zero i s = some s
dup_loop (suc rounds) i s = get (suc (i * 2)) s >>= λ v. dup_loop rounds (suc i) (push v s)

unfoldable pub dup : ℕ → Stack → Option Stack
dup count s = dup_loop count 0 s

unfoldable pub pop : ℕ → Stack → Option Stack
pop zero s = some s
pop (suc n) [] = none
pop (suc n) (v ∷ s) = pop n s

-- size() >= n.
unfoldable pub has_values : ℕ → Stack → Bool
has_values zero s = true
has_values (suc n) [] = false
has_values (suc n) (v ∷ s) = has_values n s

unfoldable pub eq_value : Value → Value → Bool
eq_value [] [] = true
eq_value [] (d ∷ ds) = false
eq_value (c ∷ cs) [] = false
eq_value (c ∷ cs) (d ∷ ds) = (c == d) && eq_value cs ds

-- The loop of getValues, downwards from index -k.
unfoldable pub values_loop : ℕ → ℕ → Stack → Option (List Value)
unfolding get
values_loop zero k s = some []
values_loop (suc count) k s = do v ← get k s; vs ← values_loop count (suc k) s; some (v ∷ vs)

-- getValues at index -k: the result false is `none` too, since every caller asserts it is not.
unfoldable pub get_values : ℕ → ℕ → Stack → Option (List Value)
unfolding has_values values_loop
get_values k count s =
    if has_values k s
    then (if has_values (k + count) s then values_loop count k s else none)
    else none

-- Whether a value stands for true: some byte is not 0, and it is not the negative zero.
unfoldable pub is_true : Value → Bool
is_true [] = false
is_true (ch ∷ []) = not (ch == 0) && not (ch == 0x80)
is_true (ch ∷ c ∷ cs) = if ch == 0 then is_true (c ∷ cs) else true

unfoldable pub get_integer_value : ℕ → Stack → Option ℤ
unfolding get
get_integer_value k s = get k s >>= decode_script_number
