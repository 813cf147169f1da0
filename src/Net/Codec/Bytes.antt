-- ===== src/Net/Codec/Bytes.antt =====
-- Numbers and their bytes, and the parts of a header.
use xbtc.Base.{
  ℕ, zero, suc, ◌+◌, ◌-◌, ◌*◌, ◌/◌, ◌%◌, ◌^◌, ◌≤◌, ◌<◌, ◌≡◌, refl, sym, ◌∙◌, ap, List, [], ◌∷◌,
  ◌++◌, length, take, drop, All, arith, append_assoc, take-append-drop, length-take, length-drop,
  ◌/◌,
}
use native.Mathlib.Nat.{pow-suc, mul_comm}
use xbtc.Stream.{little_endian}
use xbtc.Net.Codec.{from_bytes}

abbrev pub IsBytes : List ℕ → Type 0
IsBytes = All (λ b. b < 256)

pow_suc_256 : (k : ℕ) → 256 ^ suc k ≡ 256 * 256 ^ k
pow_suc_256 k = pow-suc 256 k ∙ mul_comm (256 ^ k) 256

pub from_bytes-lt : (xs : List ℕ) → IsBytes xs → from_bytes xs < 256 ^ length xs
unfolding from_bytes
from_bytes-lt [] w = omega arith
from_bytes-lt (x ∷ xs) (b, w) = omega (arith, from_bytes-lt xs w, pow_suc_256 (length xs))

pub little_endian-from_bytes :
    (xs : List ℕ) → IsBytes xs → little_endian (length xs) (from_bytes xs) ≡ xs
unfolding from_bytes little_endian
little_endian-from_bytes [] w = refl
little_endian-from_bytes (x ∷ xs) (b, w) =
    let low : (x + 256 * from_bytes xs) % 256 ≡ x = omega arith in
    let high : (x + 256 * from_bytes xs) / 256 ≡ from_bytes xs = omega arith in
    rw (low, high, little_endian-from_bytes xs w) refl

pub from_bytes-little_endian : (k v : ℕ) → v < 256 ^ k → from_bytes (little_endian k v) ≡ v
unfolding from_bytes little_endian
from_bytes-little_endian zero v h = omega arith
from_bytes-little_endian (suc k) v h =
    omega (arith, from_bytes-little_endian k (v / 256) (omega (arith, pow_suc_256 k)))

pub length-little_endian : (k v : ℕ) → length (little_endian k v) ≡ k
unfolding little_endian
length-little_endian zero v = refl
length-little_endian (suc k) v = ap suc (length-little_endian k (v / 256))

pub little_endian-IsBytes : (k v : ℕ) → IsBytes (little_endian k v)
unfolding little_endian
little_endian-IsBytes zero v = tt
little_endian-IsBytes (suc k) v = (omega arith, little_endian-IsBytes k (v / 256))

pub IsBytes-append : (xs ys : List ℕ) → IsBytes xs → IsBytes ys → IsBytes (xs ++ ys)
IsBytes-append [] ys v w = w
IsBytes-append (x ∷ xs) ys (b, v) w = (b, IsBytes-append xs ys v w)

pub IsBytes-left : (xs ys : List ℕ) → IsBytes (xs ++ ys) → IsBytes xs
IsBytes-left [] ys w = tt
IsBytes-left (x ∷ xs) ys (b, w) = (b, IsBytes-left xs ys w)

pub IsBytes-right : (xs ys : List ℕ) → IsBytes (xs ++ ys) → IsBytes ys
IsBytes-right [] ys w = w
IsBytes-right (x ∷ xs) ys (b, w) = IsBytes-right xs ys w

pub IsBytes-drop : (n : ℕ) (xs : List ℕ) → IsBytes xs → IsBytes (drop n xs)
IsBytes-drop zero xs w = w
IsBytes-drop (suc n) [] w = tt
IsBytes-drop (suc n) (x ∷ xs) (b, w) = IsBytes-drop n xs w

pub IsBytes-take : (n : ℕ) (xs : List ℕ) → IsBytes xs → IsBytes (take n xs)
IsBytes-take zero xs w = tt
IsBytes-take (suc n) [] w = tt
IsBytes-take (suc n) (x ∷ xs) (b, w) = (b, IsBytes-take n xs w)

-- Both parts of a list that is cut within its first part.
pub drop-append_le {ℓ} :
    {A : Type ℓ} (n : ℕ) (xs ys : List A) → n ≤ length xs → drop n (xs ++ ys) ≡ drop n xs ++ ys
drop-append_le zero xs ys h = refl
drop-append_le (suc n) [] ys h = absurd (omega arith)
drop-append_le (suc n) (x ∷ xs) ys h = drop-append_le n xs ys (omega arith)

pub take-append_le {ℓ} :
    {A : Type ℓ} (n : ℕ) (xs ys : List A) → n ≤ length xs → take n (xs ++ ys) ≡ take n xs
take-append_le zero xs ys h = refl
take-append_le (suc n) [] ys h = absurd (omega arith)
take-append_le (suc n) (x ∷ xs) ys h = ap (◌∷◌ x) (take-append_le n xs ys (omega arith))

-- The four parts of a header, and what follows it.
pub record Split (buf : List ℕ) : Type 0 where
  pub magic : List ℕ
  pub command : List ℕ
  pub len : List ℕ
  pub checksum : List ℕ
  pub rest : List ℕ
  pub whole : buf ≡ magic ++ (command ++ (len ++ (checksum ++ rest)))
  pub length-magic : length magic ≡ 4
  pub length-command : length command ≡ 12
  pub length-len : length len ≡ 4
  pub length-checksum : length checksum ≡ 4

pub take_of : (n : ℕ) (xs : List ℕ) → n ≤ length xs → length (take n xs) ≡ n
take_of n xs h = omega (arith, length-take n xs)

unfoldable pub split : (buf : List ℕ) → 24 ≤ length buf → Split buf
split buf h =
    let b1 = drop 4 buf in
    let b2 = drop 12 b1 in
    let b3 = drop 4 b2 in
    let h1 : length b1 ≡ length buf - 4 = length-drop 4 buf in
    let h2 : length b2 ≡ length b1 - 12 = length-drop 12 b1 in
    let h3 : length b3 ≡ length b2 - 4 = length-drop 4 b2 in
    record {
      magic = take 4 buf;
      command = take 12 b1;
      len = take 4 b2;
      checksum = take 4 b3;
      rest = drop 4 b3;
      whole =
          sym (take-append-drop 4 buf)
          ∙ ap (λ t. take 4 buf ++ t)
              (sym (take-append-drop 12 b1)
                ∙ ap (λ t. take 12 b1 ++ t)
                    (sym (take-append-drop 4 b2)
                      ∙ ap (λ t. take 4 b2 ++ t) (sym (take-append-drop 4 b3))));
      length-magic = take_of 4 buf (omega arith);
      length-command = take_of 12 b1 (omega arith);
      length-len = take_of 4 b2 (omega arith);
      length-checksum = take_of 4 b3 (omega arith);
    }

-- The same parts, when more follows.
unfoldable pub Split-append : (buf ys : List ℕ) → Split buf → Split (buf ++ ys)
Split-append buf ys s = record {
  magic = s.magic;
  command = s.command;
  len = s.len;
  checksum = s.checksum;
  rest = s.rest ++ ys;
  whole = ap (λ t. t ++ ys) s.whole ∙ simp append_assoc;
  length-magic = s.length-magic;
  length-command = s.length-command;
  length-len = s.length-len;
  length-checksum = s.length-checksum;
}
