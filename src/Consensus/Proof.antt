-- ===== src/Consensus/Proof.antt =====
-- The work that a block proves (GetBlockProof of src/storage/Consensus.cpp).
use xbtc.Base.{
  ◌>>=◌, length, ◌||◌, ℕ, ◌+◌, ◌-◌, ◌/◌, ◌%◌, ◌^◌, ◌<◌, ◌≡◌, refl, sym, ◌∙◌, ap, Bool, true, false,
  not, some, leb, ◌==◌, if◌then◌else◌, arith, Bool-cases, inl, inr, List, [], ◌∷◌,
}
use xbtc.Arith.{is_zero, equals, base_uint, add, complement, divide}
use native.Mathlib.Nat.{mod-eq_of_lt, div-lt_self, add-div_right}
use xbtc.Arith.Divide.{modulus-size, value-divide}
use xbtc.Arith.Value.{
  value, modulus, value-add_loop, length-add_loop, add_loop-IsWords, length-complement,
  complement-IsWords, value-complement,
}
use xbtc.Arith.Words.{IsNumber}
use xbtc.Arith.Compact.{target, set_compact}
use xbtc.Arith.Compact.Target.{base_uint-value, base_uint-IsNumber, set_compact-target}
use xbtc.Consensus.{get_block_proof}
use xbtc.Consensus.Target.{is_target}

is_zero-value : (xs : List ℕ) → is_zero xs ≡ (value xs == 0)
unfolding is_zero value
is_zero-value [] = refl
is_zero-value (x ∷ xs) = rw (is_zero-value xs) (ground arith)

equals-value : (xs : List ℕ) → IsNumber 8 xs → equals xs 0 ≡ (value xs == 0)
unfolding equals value
equals-value [] w = refl
equals-value (x ∷ []) w = ground arith
equals-value (x ∷ y ∷ xs) w = rw (is_zero-value xs) (ground arith)

quotient : (k : ℕ) → 0 < k → k < 2 ^ 256 → (2 ^ 256 - k) / k + 1 ≡ 2 ^ 256 / k
quotient k pos h = sym (
    ap (λ n. n / k) {x = 2 ^ 256} {y = 2 ^ 256 - k + k} (omega (arith, h))
    ∙ add-div_right (2 ^ 256 - k) pos)

add-IsNumber : (n : ℕ) (a b : List ℕ) → IsNumber n a → IsNumber n b → IsNumber n (add a b)
unfolding add
add-IsNumber n a b wa wb = record {
  words = add_loop-IsWords 0 a b;
  size = length-add_loop 0 a b (wa.size ∙ sym wb.size) ∙ wa.size;
}

complement-IsNumber : (n : ℕ) (a : List ℕ) → IsNumber n a → IsNumber n (complement a)
complement-IsNumber n a w = record {
  words = complement-IsWords a;
  size = length-complement a ∙ w.size;
}

value-add : (a b : List ℕ) → length a ≡ length b → value (add a b) ≡ (value a + value b) % modulus a
unfolding add
value-add a b e =
    value-add_loop 0 a b e
    ∙ ap (λ n. n % modulus a) {x = 0 + value a + value b} {y = value a + value b} (omega arith)

-- With a target of the least and the greatest that a number of 256 bits leaves room for.
proof-value :
    (t : List ℕ)
    → IsNumber 8 t
    → 0 < value t
    → value t + 1 < 2 ^ 256
    → (q : List ℕ) × (divide (complement t) (add t (base_uint 1)) ≡ some q)
      × (value (add q (base_uint 1)) ≡ 2 ^ 256 / (value t + 1))
proof-value t w pos room =
    let one = base_uint 1 in
    let one_is = base_uint-IsNumber 1 in
    let n1 = add-IsNumber 8 t one w one_is in
    let n2 = complement-IsNumber 8 t w in
    let whole = modulus-size 8 t w.size in
    let v1 : value (add t one) ≡ value t + 1 =
      value-add t one (w.size ∙ sym one_is.size)
      ∙ ap (λ m. (value t + value one) % m) whole
      ∙ ap (λ b. (value t + b) % 2 ^ 256) (base_uint-value 1 (omega arith))
      ∙ mod-eq_of_lt room in
    let v2 : value (complement t) ≡ 2 ^ 256 - (value t + 1) =
      omega (arith, value-complement t w.words, whole, room) in
    let (q, r, wq, vq) = value-divide 8 (complement t) (add t one) n2 n1 (omega (arith, v1)) in
    let more : value q + 1 ≡ 2 ^ 256 / (value t + 1) =
      ap (λ n. n + 1)
        (vq ∙ ap (λ n. n / value (add t one)) v2 ∙ ap (λ n. (2 ^ 256 - (value t + 1)) / n) v1)
      ∙ quotient (value t + 1) (omega arith) (omega (arith, room)) in
    let less : 2 ^ 256 / (value t + 1) < 2 ^ 256 = div-lt_self (omega arith) (omega (arith, pos)) in
    (
      q,
      r,
      value-add q one (wq.size ∙ sym one_is.size)
          ∙ ap (λ m. (value q + value one) % m) (modulus-size 8 q wq.size)
          ∙ ap (λ b. (value q + b) % 2 ^ 256) (base_uint-value 1 (omega arith))
          ∙ ap (λ b. b % 2 ^ 256) more
          ∙ mod-eq_of_lt less,
    )

unproven : ℕ → Bool
unproven bits = let c = set_compact bits in c.negative || (c.overflow || equals c.number 0)

unproven-is_target : (bits : ℕ) → unproven bits ≡ not (is_target bits)
unfolding unproven
unproven-is_target bits =
    let t = (set_compact bits).number in
    let (w, over, same, sign) = set_compact-target bits in
    elim (Bool-cases (leb (2 ^ 256) (target bits))) [
      | inl e ↦ rw (over, e) (ground (arith, e))
      | inr e ↦
          let zero_test : equals t 0 ≡ (target bits == 0) =
            equals-value t w ∙ ap (λ n. n == 0) (same (over ∙ e)).0 in
          rw (over, e, sign, zero_test) (ground (arith, e))
    ]

get_block_proof-unproven :
    (bits : ℕ) (b : Bool)
    → unproven bits ≡ b
    → get_block_proof bits ≡ (
        if b
        then some (base_uint 0)
        else divide
            (complement (set_compact bits).number)
            (add (set_compact bits).number (base_uint 1))
          >>= λ q. some (add q (base_uint 1)))
unfolding get_block_proof unproven
get_block_proof-unproven bits b e =
    ap
      (λ c.
        if c
        then some (base_uint 0)
        else divide (complement (set_compact bits).number)
            (add (set_compact bits).number (base_uint 1))
          >>= λ q. some (add q (base_uint 1)))
      e

-- GetBlockProof ends without a division by zero, whatever the bits are. Its result is 0 for bits
-- that stand for no target (0, a number of more than 256 bits, or the sign bit), and else 2 ^ 256
-- divided by one more than the target, although no arith_uint256 holds 2 ^ 256.
pub get_block_proof-value :
    (bits : ℕ)
    → (r : List ℕ) × (get_block_proof bits ≡ some r)
      × (value r ≡ (if is_target bits then 2 ^ 256 / (target bits + 1) else 0))
get_block_proof-value bits = elim (Bool-cases (is_target bits)) [
  | inr e ↦ (
    base_uint 0,
    get_block_proof-unproven bits true (unproven-is_target bits ∙ ap not e),
    rw e (base_uint-value 0 (omega arith)),
  )
  | inl e ↦
      let t = (set_compact bits).number in
      let (w, over, same, sign) = set_compact-target bits in
      let fits : leb (2 ^ 256) (target bits) ≡ false = ground (arith, e) in
      let (v, room) = same (over ∙ fits) in
      let pos : 0 < target bits = ground (arith, e) in
      let (q, r, vq) = proof-value t w (omega (arith, v, pos)) (omega (arith, v, room)) in
      (
        add q (base_uint 1),
        get_block_proof-unproven bits false (unproven-is_target bits ∙ ap not e) ∙ rw r refl,
        vq ∙ ap (λ n. 2 ^ 256 / (n + 1)) v ∙ rw e refl,
      )
]
