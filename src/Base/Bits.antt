-- ===== src/Base/Bits.antt =====
-- Masks, single bits and disjoint unions of bits as arithmetic, at every width.
use Prim.Native.Nat.{
  ℕ, zero, suc, ◌+◌, ◌-◌, ◌*◌, ◌/◌, ◌%◌, ◌^◌, ◌≤◌, ◌<◌, min, max, bit_and, bit_or, digits,
  bit_and-bitwise, bit_or-bitwise,
}
use mathlib.Core.Path.{◌≡◌, refl, sym, ◌∙◌, ap}
use native.Mathlib.Numerals.{towards_suc}
use native.Mathlib.Nat.{
  pow-suc, mul_assoc, mul_comm, div-div-eq-div-mul, mod-add-div, add-mul-mod_self_right,
  mod-eq_of_lt, mod-lt, le_refl,
}
use native.Mathlib.Omega.{arith}

-- The recursion behind the native operations does not depend on its fuel, once that is enough.
module _ (base : ℕ → ℕ) (digit : ℕ → ℕ → ℕ) where
  digits-canonical :
      (bound n a b : ℕ) → n ≤ bound → a ≤ n → digits base digit n a b ≡ digits base digit a a b
  digits-canonical zero zero zero b p q = refl
  digits-canonical zero zero (suc a) b p q = elim q [ ]
  digits-canonical zero (suc n) a b p q = elim p [ ]
  digits-canonical (suc bound) zero zero b p q = refl
  digits-canonical (suc bound) zero (suc a) b p q = elim q [ ]
  digits-canonical (suc bound) (suc n) zero b p q = refl
  digits-canonical (suc bound) (suc n) (suc a) b p q =
      ap (λ (t : ℕ). t * 2 + digit (suc a % 2) (b % 2))
        (digits-canonical bound n (suc a / 2) (b / 2) (omega arith) (omega arith)
          ∙ sym (digits-canonical bound a (suc a / 2) (b / 2) (omega arith) (omega arith)))

  -- One equation for the lowest digit.
  lowest_digit :
      (a b : ℕ)
      → digits base digit (suc a) (suc a) b
        ≡ digits base digit (suc a / 2) (suc a / 2) (b / 2) * 2 + digit (suc a % 2) (b % 2)
  lowest_digit a b =
      ap (λ (t : ℕ). t * 2 + digit (suc a % 2) (b % 2))
        (digits-canonical a a (suc a / 2) (b / 2) (le_refl a) (omega arith))

pub and_digit : (a b : ℕ) → bit_and a b ≡ bit_and (a / 2) (b / 2) * 2 + min (a % 2) (b % 2)
and_digit zero b = omega (arith, bit_and-bitwise 0 b, bit_and-bitwise 0 (b / 2))
and_digit (suc a) b =
    bit_and-bitwise (suc a) b
    ∙ lowest_digit (λ x. 0) min a b
    ∙ ap (λ (t : ℕ). t * 2 + min (suc a % 2) (b % 2)) (sym (bit_and-bitwise (suc a / 2) (b / 2)))

pub or_digit : (a b : ℕ) → bit_or a b ≡ bit_or (a / 2) (b / 2) * 2 + max (a % 2) (b % 2)
or_digit zero b = omega (arith, bit_or-bitwise 0 b, bit_or-bitwise 0 (b / 2))
or_digit (suc a) b =
    bit_or-bitwise (suc a) b
    ∙ lowest_digit (λ x. x) max a b
    ∙ ap (λ (t : ℕ). t * 2 + max (suc a % 2) (b % 2)) (sym (bit_or-bitwise (suc a / 2) (b / 2)))

pub pow_double : (k : ℕ) → 2 ^ suc k ≡ 2 ^ k * 2
pow_double k = pow-suc 2 k

pub pow_pos : (k : ℕ) → 0 < 2 ^ k
pow_pos zero = omega arith
pow_pos (suc k) = omega (arith, pow_pos k, pow_double k)

-- The lowest digit of a remainder by an even number.
mod_double : (a m : ℕ) → 0 < m → a % (m * 2) ≡ a / 2 % m * 2 + a % 2
mod_double a m h =
    ap (λ (x : ℕ). x % (m * 2)) split
    ∙ add-mul-mod_self_right (a / 2 % m * 2 + a % 2) (a / 2 / m) (m * 2)
    ∙ mod-eq_of_lt (omega (arith, mod-lt (a / 2) {m = m} h))
  where
    split : a ≡ a / 2 % m * 2 + a % 2 + a / 2 / m * (m * 2)
    split = omega (arith, mod-add-div (a / 2) m, sym (mul_assoc (a / 2 / m) m 2))

and-zero_bound : (n a : ℕ) → a ≤ n → bit_and a 0 ≡ 0
and-zero_bound n zero h = omega (arith, bit_and-bitwise 0 0)
and-zero_bound zero (suc a) h = elim h [ ]
and-zero_bound (suc n) (suc a) h =
    omega (arith, and_digit (suc a) 0, and-zero_bound n (suc a / 2) (omega arith))

pub bit_and-zero : (a : ℕ) → bit_and a 0 ≡ 0
bit_and-zero a = and-zero_bound a a (le_refl a)

-- A mask of `k` ones.
pub bit_and_mask : (k a : ℕ) → bit_and a (2 ^ k - 1) ≡ a % 2 ^ k
bit_and_mask zero a = omega (arith, bit_and-zero a)
bit_and_mask (suc k) a =
    ap (bit_and a) {x = 2 ^ suc k - 1} mask
    ∙ and_digit a ((2 ^ k - 1) * 2 + 1)
    ∙ omega (
      arith,
      ap (bit_and (a / 2)) half,
      bit_and_mask k (a / 2),
      mod_double a (2 ^ k) (pow_pos k),
      pow_double k,
      ap (λ (m : ℕ). a % m) (pow_double k),
    )
  where
    mask : 2 ^ suc k - 1 ≡ (2 ^ k - 1) * 2 + 1
    mask = omega (arith, pow_pos k, pow_double k)

    half : ((2 ^ k - 1) * 2 + 1) / 2 ≡ 2 ^ k - 1
    half = omega arith

-- A single bit.
pub bit_and_bit : (k a : ℕ) → bit_and a (2 ^ k) ≡ a / 2 ^ k % 2 * 2 ^ k
bit_and_bit zero a = omega (arith, and_digit a 1, bit_and-zero (a / 2))
bit_and_bit (suc k) a =
    ap (bit_and a) (pow_double k)
    ∙ and_digit a (2 ^ k * 2)
    ∙ omega (
      arith,
      ap (bit_and (a / 2)) half,
      bit_and_bit k (a / 2),
      ap (λ (t : ℕ). t % 2 * 2 ^ suc k) (ap (λ (m : ℕ). a / m) (pow_double k) ∙ quotient),
      ap (λ (t : ℕ). a / 2 / 2 ^ k % 2 * t) (pow_double k),
    )
  where
    half : 2 ^ k * 2 / 2 ≡ 2 ^ k
    half = omega arith

    quotient : a / (2 ^ k * 2) ≡ a / 2 / 2 ^ k
    quotient = ap (λ (m : ℕ). a / m) (mul_comm (2 ^ k) 2) ∙ sym (div-div-eq-div-mul a 2 (2 ^ k))

-- Bits that do not meet add up.
pub bit_or_disjoint : (k a b : ℕ) → a < 2 ^ k → bit_or a (b * 2 ^ k) ≡ a + b * 2 ^ k
bit_or_disjoint zero zero b h = omega (arith, bit_or-bitwise 0 (b * 1))
bit_or_disjoint zero (suc a) b h = absurd (omega arith)
bit_or_disjoint (suc k) a b h =
    ap (bit_or a) upper
    ∙ or_digit a (b * 2 ^ k * 2)
    ∙ omega (
      arith,
      ap (bit_or (a / 2)) half,
      bit_or_disjoint k (a / 2) b (omega (arith, pow_double k)),
      upper,
    )
  where
    upper : b * 2 ^ suc k ≡ b * 2 ^ k * 2
    upper = ap (λ (t : ℕ). b * t) (pow_double k) ∙ sym (mul_assoc b (2 ^ k) 2)

    half : b * 2 ^ k * 2 / 2 ≡ b * 2 ^ k
    half = omega arith

or-comm_bound : (n a b : ℕ) → a ≤ n → b ≤ n → bit_or a b ≡ bit_or b a
or-comm_bound zero zero zero p q = refl
or-comm_bound zero zero (suc b) p q = elim q [ ]
or-comm_bound zero (suc a) b p q = elim p [ ]
or-comm_bound (suc n) a b p q =
    omega (
      arith,
      or_digit a b,
      or_digit b a,
      or-comm_bound n (a / 2) (b / 2) (omega arith) (omega arith),
    )

pub bit_or_comm : (a b : ℕ) → bit_or a b ≡ bit_or b a
bit_or_comm a b = or-comm_bound (a + b) a b (omega arith) (omega arith)

and-le_bound : (n a b : ℕ) → b ≤ n → bit_and a b ≤ b
and-le_bound n a zero h = omega (arith, bit_and-zero a)
and-le_bound zero a (suc b) h = absurd (omega arith)
and-le_bound (suc n) a (suc b) h =
    omega (arith, and_digit a (suc b), and-le_bound n (a / 2) (suc b / 2) (omega arith))

pub bit_and_le : (a b : ℕ) → bit_and a b ≤ b
bit_and_le a b = and-le_bound b a b (le_refl b)

pub shift_eight : (n : ℕ) → 2 ^ (n + 8) ≡ 256 * 2 ^ n
shift_eight n = simp towards_suc (omega arith)

pub byte_shift : (i : ℕ) → 2 ^ (8 * (i + 1)) ≡ 256 * 2 ^ (8 * i)
byte_shift i = ap (λ (n : ℕ). 2 ^ n) {x = 8 * (i + 1)} (omega arith) ∙ shift_eight (8 * i)

pub shift_suc : (n : ℕ) → 2 ^ (8 * suc n) ≡ 256 * 2 ^ (8 * n)
shift_suc n = ap (λ (m : ℕ). 2 ^ m) {x = 8 * suc n} (omega arith) ∙ shift_eight (8 * n)

pub byte_below : (b i : ℕ) → b < 256 → b * 2 ^ (8 * i) + 2 ^ (8 * i) ≤ 2 ^ (8 * (i + 1))
byte_below b i h = rw (byte_shift i) (grind arith)
