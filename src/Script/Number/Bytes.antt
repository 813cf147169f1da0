-- ===== src/Script/Number/Bytes.antt =====
-- The bytes of a script number as the digits of its value.
use xbtc.Base.{
  ℕ, zero, suc, ◌+◌, ◌*◌, ◌/◌, ◌%◌, ◌^◌, ◌≤◌, ◌<◌, ◌≡◌, refl, ◌∙◌, ap, some, none, List, [], ◌∷◌,
  ◌++◌, length, length-append, ◌==◌, ltb, bit_and, bit_or, if◌then◌else◌, arith, Bool-cases, inl,
  inr, All, lt→ltb, ==_iff,
}
use xbtc.Base.Int.{ℤ, magnitude, is_negative}
use xbtc.Base.Bits.{
  bit_and_bit, bit_or_disjoint, pow_pos, byte_below, byte_shift, shift_eight, shift_suc,
}
use native.Mathlib.Nat.{mod-eq_of_lt, div-eq_of_lt, add-div_right, pow-le-pow_right}
use native.Mathlib.Numerals.{towards_suc}
use xbtc.Script.Number.{abs_bytes, last_byte, mark_negative, number_bytes, decode_loop}

-- The number of which a string is the little-endian form.
abbrev pub value : List ℕ → ℕ
value [] = 0
value (b ∷ bs) = b + 256 * value bs

abbrev pub IsByte : ℕ → Type 0
IsByte b = b < 256

pub sign_suc : (n : ℕ) → 2 ^ (8 * suc n + 7) ≡ 256 * 2 ^ (8 * n + 7)
sign_suc n = ap (λ (m : ℕ). 2 ^ m) {x = 8 * suc n + 7} (omega arith) ∙ shift_eight (8 * n + 7)

pub abs_bytes-value :
    (fuel v : ℕ)
    → v < 2 ^ (8 * fuel)
    → (value (abs_bytes fuel v) ≡ v)
      × (length (abs_bytes fuel v) ≤ fuel)
      × All IsByte (abs_bytes fuel v)
unfolding abs_bytes
abs_bytes-value zero v h = (omega arith, omega arith, tt)
abs_bytes-value (suc fuel) v h = ground (arith, byte_shift fuel, abs_bytes-value fuel (v / 256))

pub byte_fits : (b i : ℕ) → b < 256 → i < 8 → b * 2 ^ (8 * i) < 2 ^ 64
byte_fits b i h hi = omega (
  arith,
  byte_below b i h,
  pow_pos (8 * i),
  pow-le-pow_right {n = 2} (omega arith) {i = 8 * (i + 1)} {j = 64} (omega arith),
)

-- One round puts the byte in its place.
pub decode_byte :
    (b i temp : ℕ)
    → temp < 2 ^ (8 * i)
    → b < 256
    → i < 8
    → (if b == 0
        then some temp
        else if ltb i 8
        then some (bit_or temp (b * 2 ^ (8 * i) % 2 ^ 64))
        else none)
      ≡ some (temp + b * 2 ^ (8 * i))
decode_byte b i temp h w hi = elim (Bool-cases (b == 0)) [
  | inl empty ↦ rw empty (ap some (rw ((==_iff b 0).0 empty) (omega arith)))
  | inr filled ↦
      rw
        (
          filled,
          lt→ltb i 8 hi,
          mod-eq_of_lt {n = b * 2 ^ (8 * i)} {m = 2 ^ 64} (byte_fits b i w hi),
        )
        (ap some (bit_or_disjoint (8 * i) temp b h))
]

-- The value is read off the bytes from any place on, as long as they fit 64 bits.
pub decode_loop-value :
    (bs : List ℕ) (i temp : ℕ)
    → temp < 2 ^ (8 * i)
    → All IsByte bs
    → i + length bs ≤ 8
    → decode_loop i temp bs ≡ some (temp + value bs * 2 ^ (8 * i))
unfolding decode_loop
decode_loop-value [] i temp h w fits = ap some (omega arith)
decode_loop-value (b ∷ bs) i temp h (w, ws) fits = rw (decode_byte b i temp h w (omega arith)) (
    decode_loop-value bs (i + 1) (temp + b * 2 ^ (8 * i)) (omega (arith, byte_below b i w)) ws
      (omega arith)
    ∙ ap some (rw (byte_shift i) (omega arith)))

-- What the two forms of the sign do to the value, and where they stand.
pub value-append : (bs : List ℕ) (c : ℕ) → value (bs ++ c ∷ []) ≡ value bs + c * 2 ^ (8 * length bs)
value-append [] c = omega arith
value-append (b ∷ bs) c =
    omega (arith, value-append bs c, ap (λ (m : ℕ). c * m) (shift_suc (length bs)))

pub last_byte-append : (bs : List ℕ) (c : ℕ) → last_byte (bs ++ c ∷ []) ≡ c
unfolding last_byte
last_byte-append [] c = refl
last_byte-append (b ∷ []) c = refl
last_byte-append (b ∷ b' ∷ bs) c = last_byte-append (b' ∷ bs) c

-- A last byte below 128 leaves the top bit free.
pub last_byte-small :
    (b : ℕ) (bs : List ℕ)
    → All IsByte (b ∷ bs)
    → last_byte (b ∷ bs) < 128
    → value (b ∷ bs) < 2 ^ (8 * length bs + 7)
unfolding last_byte
last_byte-small b [] w h = omega arith
last_byte-small b (c ∷ bs) (w, ws) h =
    omega (arith, last_byte-small c bs ws h, sign_suc (length bs))

pub value-lt : (bs : List ℕ) → All IsByte bs → value bs < 2 ^ (8 * length bs)
value-lt [] w = omega arith
value-lt (b ∷ bs) (w, ws) = omega (arith, value-lt bs ws, shift_suc (length bs))

pub value-mark_negative :
    (b : ℕ) (bs : List ℕ)
    → last_byte (b ∷ bs) < 128
    → (value (mark_negative (b ∷ bs)) ≡ value (b ∷ bs) + 2 ^ (8 * length bs + 7))
      × (last_byte (mark_negative (b ∷ bs)) ≡ last_byte (b ∷ bs) + 128)
      × (length (mark_negative (b ∷ bs)) ≡ suc (length bs))
unfolding last_byte mark_negative
value-mark_negative b [] h =
    let top : bit_or b 0x80 ≡ b + 128 = bit_or_disjoint 7 b 1 h in (omega arith, top, omega arith)
value-mark_negative b (c ∷ []) h =
    let (v, l, n) = value-mark_negative c [] h in (omega (arith, sign_suc 0), l, omega arith)
value-mark_negative b (c ∷ d ∷ bs) h =
    let (v, l, n) = value-mark_negative c (d ∷ bs) h in
    (omega (arith, sign_suc (length (d ∷ bs))), l, omega arith)

pub shift_seven : (n : ℕ) → 2 ^ (n + 7) ≡ 128 * 2 ^ n
shift_seven n = simp towards_suc (omega arith)

pub top_bit : (k v : ℕ) → v < 2 ^ k → bit_and (v + 2 ^ k) (2 ^ k) ≡ 2 ^ k
top_bit k v h =
    bit_and_bit k (v + 2 ^ k)
    ∙ ap (λ (x : ℕ). x % 2 * 2 ^ k)
        (add-div_right v {k = 2 ^ k} (pow_pos k) ∙ ap (λ (x : ℕ). x + 1) (div-eq_of_lt h))
    ∙ omega arith

length-mark_negative : (s : List ℕ) → length (mark_negative s) ≡ length s
unfolding mark_negative
length-mark_negative [] = refl
length-mark_negative (b ∷ []) = refl
length-mark_negative (b ∷ c ∷ s) = ap suc (length-mark_negative (c ∷ s))

length-abs_bytes : (fuel v : ℕ) → length (abs_bytes fuel v) ≤ fuel
unfolding abs_bytes
length-abs_bytes zero v = omega arith
length-abs_bytes (suc fuel) v = ground (arith, length-abs_bytes fuel (v / 256))

pub length-number_bytes : (val : ℤ) → length (number_bytes val) ≤ 9
unfolding number_bytes
length-number_bytes val = ground (
  arith,
  length-abs_bytes 8 (magnitude val),
  length-mark_negative (abs_bytes 8 (magnitude val)),
  length-append (abs_bytes 8 (magnitude val)) ((if is_negative val then 0x80 else 0) ∷ []),
)
