-- ===== src/Arith/Value.antt =====
-- The number that a list of words stands for, and what the operations on words do to it.
use Prim.Native.Nat.{compare, Ordering, lt, eq, gt}
use native.Mathlib.Omega.{compare-lt, compare-eq, compare-gt}
use native.Mathlib.Nat.{
  mod-eq_of_lt, mod-add-div, mod-lt, mul_assoc, add-mod-mod, mul-add, mul_comm,
}
use xbtc.Base.{
  ℕ, suc, ◌+◌, ◌-◌, ◌*◌, ◌/◌, ◌%◌, ◌^◌, ◌≤◌, ◌<◌, ◌≡◌, refl, sym, ◌∙◌, ap, List, [], ◌∷◌, All,
  length, ◌==◌, if◌then◌else◌, arith, Bool-cases, inl, inr,
}
use xbtc.Arith.Powers.{mod_is}
use xbtc.Arith.{
  complement, increment, negate, add, add_loop, subtract, multiply_word, compare_words,
}

unfoldable pub value : List ℕ → ℕ
value [] = 0
value (x ∷ xs) = x + 2 ^ 32 * value xs

unfoldable pub modulus : List ℕ → ℕ
modulus [] = 1
modulus (x ∷ xs) = 2 ^ 32 * modulus xs

abbrev pub IsWords : List ℕ → Type 0
IsWords xs = All (λ x. x < 2 ^ 32) xs

-- The remainder by a number of one more word.
pub mod_word :
    (n v m : ℕ)
    → 0 < m
    → (n + 2 ^ 32 * v) % (2 ^ 32 * m) ≡ n % 2 ^ 32 + 2 ^ 32 * ((n / 2 ^ 32 + v) % m)
mod_word n v m h =
    let t = n / 2 ^ 32 + v in
    mod_is (n + 2 ^ 32 * v) (2 ^ 32 * m) (t / m) (n % 2 ^ 32 + 2 ^ 32 * (t % m))
      (omega (arith, mod-lt t h)) (omega (arith, mod-add-div t m, mul_assoc (2 ^ 32) m (t / m)))

pub modulus_pos : (xs : List ℕ) → 0 < modulus xs
unfolding modulus
modulus_pos [] = omega arith
modulus_pos (x ∷ xs) = omega (arith, modulus_pos xs)

pub value_bound : (xs : List ℕ) → IsWords xs → value xs < modulus xs
unfolding value modulus
value_bound [] w = omega arith
value_bound (x ∷ xs) (h, w) = omega (arith, value_bound xs w)

pub modulus-length : (xs ys : List ℕ) → length xs ≡ length ys → modulus xs ≡ modulus ys
unfolding modulus
modulus-length [] [] e = refl
modulus-length [] (y ∷ ys) e = omega (arith, e)
modulus-length (x ∷ xs) [] e = omega (arith, e)
modulus-length (x ∷ xs) (y ∷ ys) e = ap (λ n. 2 ^ 32 * n) (modulus-length xs ys (omega (arith, e)))

pub value-add_loop :
    (carry : ℕ) (xs ys : List ℕ)
    → length xs ≡ length ys
    → value (add_loop carry xs ys) ≡ (carry + value xs + value ys) % modulus xs
unfolding value modulus add_loop
value-add_loop carry [] [] e = omega arith
value-add_loop carry [] (y ∷ ys) e = omega (arith, e)
value-add_loop carry (x ∷ xs) [] e = omega (arith, e)
value-add_loop carry (x ∷ xs) (y ∷ ys) e =
    let n = carry + x + y in
    let m = modulus xs in
    ap (λ v. n % 2 ^ 32 + 2 ^ 32 * v)
      (value-add_loop (n / 2 ^ 32) xs ys (omega (arith, e)) ∙ ap (λ v. v % m) (omega arith))
    ∙ sym (mod_word n (value xs + value ys) m (modulus_pos xs))
    ∙ ap (λ v. v % (2 ^ 32 * m)) (omega arith)

pub value-complement :
    (xs : List ℕ) → IsWords xs → value (complement xs) + value xs + 1 ≡ modulus xs
unfolding value modulus complement
value-complement [] w = refl
value-complement (x ∷ xs) (h, w) = omega (arith, value-complement xs w)

pub complement-IsWords : (xs : List ℕ) → IsWords (complement xs)
unfolding complement
complement-IsWords [] = tt
complement-IsWords (x ∷ xs) = (omega arith, complement-IsWords xs)

pub length-complement : (xs : List ℕ) → length (complement xs) ≡ length xs
unfolding complement
length-complement [] = refl
length-complement (x ∷ xs) = ap suc (length-complement xs)

pub length-increment : (xs : List ℕ) → length (increment xs) ≡ length xs
unfolding increment
length-increment [] = refl
length-increment (x ∷ xs) = ground (arith, length-increment xs)

pub increment-IsWords : (xs : List ℕ) → IsWords xs → IsWords (increment xs)
unfolding increment
increment-IsWords [] w = tt
increment-IsWords (x ∷ xs) (h, w) = elim (Bool-cases ((x + 1) % 2 ^ 32 == 0)) [
  | inl e ↦ rw e (omega arith, increment-IsWords xs w)
  | inr e ↦ rw e (omega arith, w)
]

pub value-increment :
    (xs : List ℕ) → IsWords xs → value (increment xs) ≡ (value xs + 1) % modulus xs
unfolding value modulus increment
value-increment [] w = omega arith
value-increment (x ∷ xs) (h, w) =
    let ih = value-increment xs w in
    let m = modulus xs in
    let step : value
          (if (x + 1) % 2 ^ 32 == 0 then (x + 1) % 2 ^ 32 ∷ increment xs else (x + 1) % 2 ^ 32 ∷ xs)
        ≡ (x + 1) % 2 ^ 32 + 2 ^ 32 * (((x + 1) / 2 ^ 32 + value xs) % m) =
      elim (Bool-cases ((x + 1) % 2 ^ 32 == 0)) [
        | inl e ↦
            rw e (
              ap (λ v. (x + 1) % 2 ^ 32 + 2 ^ 32 * v) (ih ∙ ap (λ v. v % m) (ground (arith, e, h))))
        | inr e ↦ rw e (
            ap (λ v. (x + 1) % 2 ^ 32 + 2 ^ 32 * v)
              (sym (mod-eq_of_lt (value_bound xs w)) ∙ ap (λ v. v % m) (ground (arith, e, h))))
      ] in
    step
    ∙ sym (mod_word (x + 1) (value xs) m (modulus_pos xs))
    ∙ ap (λ v. v % (2 ^ 32 * m)) (omega arith)

pub length-negate : (xs : List ℕ) → length (negate xs) ≡ length xs
unfolding negate
length-negate xs = length-increment (complement xs) ∙ length-complement xs

minus_mod : (m a b c : ℕ) → b ≤ a → a < m → c + b + 1 ≡ m → (0 + a + (c + 1) % m) % m ≡ a - b
minus_mod m a b c h small e =
    ap (λ n. n % m) {x = 0 + a + (c + 1) % m} (omega arith)
    ∙ add-mod-mod a (c + 1) m
    ∙ mod_is (a + (c + 1)) m 1 (a - b) (omega arith) (omega (arith, e, h))

pub value-subtract :
    (a b : List ℕ)
    → IsWords a
    → IsWords b
    → length a ≡ length b
    → value b ≤ value a
    → value (subtract a b) ≡ value a - value b
unfolding subtract add negate
value-subtract a b wa wb e h =
    let m = modulus a in
    let same : modulus (complement b) ≡ m =
      modulus-length (complement b) a (length-complement b ∙ sym e) in
    value-add_loop 0 a (negate b) (e ∙ sym (length-negate b))
    ∙ ap (λ n. (0 + value a + n) % m)
        (value-increment (complement b) (complement-IsWords b)
          ∙ ap (λ k. (value (complement b) + 1) % k) same)
    ∙ minus_mod m (value a) (value b) (value (complement b)) h (value_bound a wa)
        (value-complement b wb ∙ modulus-length b a (sym e))

pub add_loop-IsWords : (carry : ℕ) (xs ys : List ℕ) → IsWords (add_loop carry xs ys)
unfolding add_loop
add_loop-IsWords carry [] ys = tt
add_loop-IsWords carry (x ∷ xs) [] = tt
add_loop-IsWords carry (x ∷ xs) (y ∷ ys) =
    (mod-lt (carry + x + y) (omega arith), add_loop-IsWords ((carry + x + y) / 2 ^ 32) xs ys)

pub length-add_loop :
    (carry : ℕ) (xs ys : List ℕ) → length xs ≡ length ys → length (add_loop carry xs ys) ≡ length xs
unfolding add_loop
length-add_loop carry [] ys e = refl
length-add_loop carry (x ∷ xs) [] e = omega (arith, e)
length-add_loop carry (x ∷ xs) (y ∷ ys) e =
    ap suc (length-add_loop ((carry + x + y) / 2 ^ 32) xs ys (omega (arith, e)))

-- What the result of a comparison says of two numbers.
unfoldable pub Compares : Ordering → ℕ → ℕ → Type 0
Compares lt a b = a < b
Compares eq a b = a ≡ b
Compares gt a b = b < a

compare-Compares : (o : Ordering) (x y : ℕ) → compare x y ≡ o → Compares o x y
unfolding Compares
compare-Compares lt x y e = compare-lt x y e
compare-Compares eq x y e = compare-eq x y e
compare-Compares gt x y e = compare-gt x y e

higher-Compares :
    (o p : Ordering) (x y v w : ℕ)
    → x < 2 ^ 32
    → y < 2 ^ 32
    → Compares o v w
    → Compares p x y
    → Compares (elim o [ lt ↦ lt | gt ↦ gt | eq ↦ p ]) (x + 2 ^ 32 * v) (y + 2 ^ 32 * w)
unfolding Compares
higher-Compares lt p x y v w hx hy h q = omega (arith, h)
higher-Compares gt p x y v w hx hy h q = omega (arith, h)
higher-Compares eq lt x y v w hx hy h q = omega (arith, h, q)
higher-Compares eq eq x y v w hx hy h q = omega (arith, h, q)
higher-Compares eq gt x y v w hx hy h q = omega (arith, h, q)

pub compare_words-Compares :
    (a b : List ℕ)
    → IsWords a
    → IsWords b
    → length a ≡ length b
    → Compares (compare_words a b) (value a) (value b)
unfolding compare_words value
compare_words-Compares [] [] wa wb e = (unfold Compares in refl)
compare_words-Compares [] (y ∷ ys) wa wb e = absurd (omega (arith, e))
compare_words-Compares (x ∷ xs) [] wa wb e = absurd (omega (arith, e))
compare_words-Compares (x ∷ xs) (y ∷ ys) (hx, wa) (hy, wb) e =
    higher-Compares (compare_words xs ys) (compare x y) x y (value xs) (value ys) hx hy
      (compare_words-Compares xs ys wa wb (omega (arith, e)))
      (compare-Compares (compare x y) x y refl)

spread_word : (b carry x v : ℕ) → carry + b * x + 2 ^ 32 * (b * v) ≡ carry + b * (x + 2 ^ 32 * v)
spread_word b carry x v =
    omega (
      arith,
      mul-add b x (2 ^ 32 * v),
      mul_comm b (2 ^ 32 * v),
      mul_assoc (2 ^ 32) v b,
      mul_comm v b,
    )

pub value-multiply_word :
    (b carry : ℕ) (xs : List ℕ)
    → value (multiply_word b carry xs) ≡ (carry + b * value xs) % modulus xs
unfolding value modulus multiply_word
value-multiply_word b carry [] = omega arith
value-multiply_word b carry (x ∷ xs) =
    let n = carry + b * x in
    let m = modulus xs in
    let v = value xs in
    ap (λ k. n % 2 ^ 32 + 2 ^ 32 * k) (value-multiply_word b (n / 2 ^ 32) xs)
    ∙ sym (mod_word n (b * v) m (modulus_pos xs))
    ∙ ap (λ k. k % (2 ^ 32 * m)) (spread_word b carry x v)
