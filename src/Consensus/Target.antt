-- ===== src/Consensus/Target.antt =====
-- The proof of work of a header (checkProofOfWork of src/storage/Validator.cpp) against the number that its bits stand for.
use native.Mathlib.Nat.{mod-eq_of_lt}
use xbtc.Base.{
  ℕ, ◌-◌, ◌*◌, ◌/◌, ◌%◌, ◌^◌, ◌≡◌, refl, sym, ◌∙◌, Bool, false, not, ◌&&◌, ◌||◌, none, some, leb,
  ltb, ◌==◌, if◌then◌else◌, arith, Bool-cases, inl, inr,
}
use xbtc.Arith.Compact.{target, word_of, size_of, is_negative_compact, is_overflow}
use xbtc.Arith.Compact.Target.{target-small, target-large, overflow-target, negative-target}
use xbtc.Consensus.{decode_compact_uint256, decode_compact_number, check_proof_of_work}

-- The bits stand for a number of 256 bits that is not 0, and the sign bit is clear.
abbrev pub is_target : ℕ → Bool
is_target bits = not (target bits == 0) && (ltb (target bits) (2 ^ 256) && (bits / 2 ^ 23 % 2 == 0))

-- What a shift of the xul library does to a uint256.
abbrev pub Shifts : (ℕ → ℕ → ℕ) → Type 0
Shifts shift_left = (x n : ℕ) → shift_left x n ≡ x * 2 ^ n % 2 ^ 256

decoded :
    (shift_left : ℕ → ℕ → ℕ)
    → Shifts shift_left
    → (bits : ℕ) → is_overflow bits ≡ false
    → (decode_compact_uint256 shift_left bits).0 ≡ target bits
unfolding decode_compact_uint256
decoded shift_left law bits e =
    let (same, room) = overflow-target bits in
    elim (Bool-cases (leb (size_of bits) 3)) [
      | inl small ↦ rw small (sym (target-small bits small).0)
      | inr large ↦
          let t = (target-large bits large).0 in
          rw large (
            law (word_of bits) (8 * (size_of bits - 3))
            ∙ mod-eq_of_lt (omega (arith, t, room e))
            ∙ sym t)
    ]

-- The tests of decodeCompactNumber are those of is_target, whatever is decoded after an overflow.
tests :
    (sign : Bool) (t d : ℕ)
    → (leb (2 ^ 256) t ≡ false → d ≡ t)
    → (if (not (t == 0) && not sign) || (leb (2 ^ 256) t || (d == 0)) then none else some d)
      ≡ (if not (t == 0) && (ltb t (2 ^ 256) && sign) then some t else none)
tests sign t d same = elim (Bool-cases (leb (2 ^ 256) t)) [
  | inl e ↦ ground (arith, e)
  | inr e ↦ rw (same e) (elim (Bool-cases sign) [
    | inl s ↦ rw s (ground (arith, e))
    | inr s ↦ rw s (ground (arith, e))
  ])
]

flags :
    (bits d : ℕ)
    → (if is_negative_compact bits || (is_overflow bits || (d == 0)) then none else some d) ≡ (
        if (not (target bits == 0) && not (bits / 2 ^ 23 % 2 == 0))
          || (leb (2 ^ 256) (target bits) || (d == 0))
        then none
        else some d)
flags bits d = rw (negative-target bits, (overflow-target bits).0) refl

decode_compact_number-target :
    (shift_left : ℕ → ℕ → ℕ)
    → Shifts shift_left
    → (bits : ℕ)
    → decode_compact_number shift_left bits ≡ (if is_target bits then some (target bits) else none)
unfolding decode_compact_number decode_compact_uint256
decode_compact_number-target shift_left law bits =
    let (over, room) = overflow-target bits in
    let d = (decode_compact_uint256 shift_left bits).0 in
    flags bits d
    ∙ tests (bits / 2 ^ 23 % 2 == 0) (target bits) d (λ e. decoded shift_left law bits (over ∙ e))

-- When operator<<= of a uint256 keeps the lowest 256 bits, checkProofOfWork accepts a header
-- exactly if its bits stand for a number of at most 256 bits that is not 0, the sign bit is clear,
-- and the hash is no greater than the number.
pub check_proof_of_work-target :
    (shift_left : ℕ → ℕ → ℕ)
    → Shifts shift_left
    → (hash bits : ℕ)
    → check_proof_of_work shift_left hash bits ≡ (is_target bits && leb hash (target bits))
unfolding check_proof_of_work
check_proof_of_work-target shift_left law hash bits =
    rw (check_proof_of_work, decode_compact_number-target shift_left law bits)
      (elim (Bool-cases (is_target bits)) [ inl e ↦ rw e (ground arith) | inr e ↦ rw e refl ])
