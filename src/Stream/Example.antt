-- ===== src/Stream/Example.antt =====
-- Streams over plain byte lists: the laws can be met.
use xbtc.Base.{
  ℕ, zero, suc, ◌+◌, ◌*◌, ◌/◌, ◌^◌, ◌<◌, ◌≡◌, refl, ◌∙◌, Option, none, some, List, [], ◌∷◌, ◌++◌,
  length, length-append, take, drop, take-append, drop-append, arith, ◌>>=◌, leb, lt→leb, le→leb,
  if◌then◌else◌, Bool-cases, ap, inl, length-drop, leb→le, inr, none-ne-some, some-pair_right,
  Option-cases,
}
use xbtc.Stream.Defs.{Streams, ReadsAs, little_endian}
use native.Mathlib.Nat.{pow-suc, mul_comm}

unfoldable pub read_uint : ℕ → List ℕ → Option (ℕ × List ℕ)
read_uint zero xs = some (0, xs)
read_uint (suc k) [] = none
read_uint (suc k) (x ∷ xs) = read_uint k xs >>= λ (v, rest). some (x + 256 * v, rest)

unfoldable pub read_string : ℕ → List ℕ → Option (List ℕ × List ℕ)
read_string n xs = if leb n (length xs) then some (take n xs, drop n xs) else none

pow_suc_256 : (k : ℕ) → 256 ^ suc k ≡ 256 * 256 ^ k
pow_suc_256 k = pow-suc 256 k ∙ mul_comm (256 ^ k) 256

pub read_uint_eq :
    (k v : ℕ) (rest : List ℕ)
    → v < 256 ^ k
    → read_uint k (little_endian k v ++ rest) ≡ some (v, rest)
unfolding read_uint little_endian
read_uint_eq zero v rest h = ground arith
read_uint_eq (suc k) v rest h =
    rw (read_uint_eq k (v / 256) rest (omega (arith, pow_suc_256 k))) (ground arith)

pub read_uint_lem :
    (k v : ℕ) (s rest : List ℕ)
    → v < 256 ^ k
    → s ≡ little_endian k v ++ rest
    → ReadsAs (λ xs. xs) (read_uint k s) v rest
read_uint_lem k v s rest h e = rw (e, read_uint_eq k v rest h) (refl, refl)

pub read_uint_short : (k : ℕ) (s : List ℕ) → length s < k → read_uint k s ≡ none
unfolding read_uint little_endian
read_uint_short zero s h = absurd (omega arith)
read_uint_short (suc k) [] h = refl
read_uint_short (suc k) (x ∷ s) h = rw (read_uint_short k s (omega arith))

pub read_string_lem :
    (xs s rest : List ℕ) → s ≡ xs ++ rest → ReadsAs (λ xs. xs) (read_string (length xs) s) xs rest
unfolding read_string
read_string_lem xs s rest e =
    rw (e, le→leb (length xs) (length (xs ++ rest)) (omega (arith, length-append xs rest)))
      (take-append xs rest, drop-append xs rest)

pub read_string_short : (n : ℕ) (s : List ℕ) → length s < n → read_string n s ≡ none
unfolding read_string
read_string_short n s h = rw (lt→leb n (length s) h)

pub read_uint_length :
    (k v : ℕ) (s s' : List ℕ) → read_uint k s ≡ some (v, s') → length s' + k ≡ length s
unfolding read_uint
read_uint_length zero v s s' h = let e : s ≡ s' = cc in omega (arith, ap length e)
read_uint_length (suc k) v [] s' h = cc
read_uint_length (suc k) v (x ∷ s) s' h = elim (Option-cases (read_uint k s)) [
  | inl e ↦ absurd (none-ne-some (rw (e, read_uint) at h))
  | inr ((v1, s1), e) ↦
      omega
        (arith, read_uint_length k v1 s s1 e, ap length (some-pair_right (rw (e, read_uint) at h)))
]

pub read_string_length :
    (n : ℕ) (xs s s' : List ℕ) → read_string n s ≡ some (xs, s') → length s' + n ≡ length s
unfolding read_string
read_string_length n xs s s' h = elim (Bool-cases (leb n (length s))) [
  | inl fits ↦
      omega (
        arith,
        length-drop n s,
        ap length (some-pair_right (rw fits at h)),
        leb→le n (length s) fits,
      )
  | inr short ↦ absurd (none-ne-some (rw short at h))
]

unfoldable pub bytes_streams : Streams
unfolding read_uint read_string
bytes_streams = record {
  Input = List ℕ;
  Output = List ℕ;
  bytes = λ xs. xs;
  written = λ xs. xs;
  read_uint = read_uint;
  read_string = read_string;
  write_uint = λ k v o. o ++ little_endian k v;
  write_bytes = λ xs o. o ++ xs;
  open_input = λ xs. xs;
  open_output = [];
  bytes-open_input = λ xs. refl;
  written-open_output = refl;
  written-write_uint = λ k v o. refl;
  written-write_bytes = λ xs o. refl;
  read_uint_lem = read_uint_lem;
  read_uint_short = read_uint_short;
  read_string_lem = read_string_lem;
  read_string_short = read_string_short;
  read_uint_length = read_uint_length;
  read_string_length = read_string_length;
}
