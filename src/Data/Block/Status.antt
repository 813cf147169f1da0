-- ===== src/Data/Block/Status.antt =====
-- BlockIndex::raiseValidity and isValid: the level of validity only rises, the other flags stay.
use xbtc.Base.{
  ℕ, ◌+◌, ◌-◌, ◌*◌, ◌/◌, ◌%◌, ◌<◌, ◌≡◌, ◌∙◌, ap, Bool, true, false, not, ◌&&◌, arith, bit_and,
  bit_or, ◌==◌, ltb, if◌then◌else◌,
}
use xbtc.Base.Bits.{bit_and_mask, bit_or_disjoint, bit_or_comm, and_digit}
use xbtc.Data.Block.{raise_validity, is_valid, valid_mask, failed_mask}

abbrev pub level : ℕ → ℕ
level status = status % 8

-- Neither the block nor one of its ancestors has failed.
abbrev pub has_not_failed : ℕ → Bool
has_not_failed status = bit_and status failed_mask == 0

-- The flags of a failure stand above the level.
failed_above : (status : ℕ) → bit_and status failed_mask ≡ bit_and (status / 8) 12 * 8
failed_above status = omega (
  arith,
  and_digit status 96,
  and_digit (status / 2) 48,
  and_digit (status / 2 / 2) 24,
  ap (λ (x : ℕ). bit_and x 12) eighth,
)
  where
    eighth : status / 2 / 2 / 2 ≡ status / 8
    eighth = omega arith

raised_status :
    (up_to status : ℕ)
    → up_to < 8
    → bit_or (status - bit_and status valid_mask) up_to ≡ status / 8 * 8 + up_to
raised_status up_to status h =
    ap (λ (x : ℕ). bit_or (status - x) up_to) (bit_and_mask 3 status)
    ∙ ap (λ (x : ℕ). bit_or x up_to) base
    ∙ bit_or_comm (status / 8 * 8) up_to
    ∙ bit_or_disjoint 3 up_to (status / 8) h
    ∙ omega arith
  where
    base : status - status % 8 ≡ status / 8 * 8
    base = omega arith

-- The three branches of raise_validity, in arithmetic.
pub raise_validity_lem :
    (up_to status : ℕ)
    → up_to < 8
    → raise_validity up_to status ≡ (
        if not (has_not_failed status)
        then (status, false)
        else if ltb (level status) up_to
        then (status / 8 * 8 + up_to, true)
        else (status, false))
unfolding raise_validity
raise_validity_lem up_to status h = rw (raised_status up_to status h, bit_and_mask 3 status)

-- For one of the validity levels, raiseValidity returns true exactly when neither the block nor an
-- ancestor has failed and the level of the status is lower. Then the level becomes the one given;
-- else the status stays. The flags above the level stay in both cases.
pub raise_validity-level :
    (up_to status : ℕ)
    → up_to < 8
    → ((raise_validity up_to status).1 ≡ (has_not_failed status && ltb (level status) up_to))
      × ((raise_validity up_to status).1 ≡ true → level (raise_validity up_to status).0 ≡ up_to)
      × ((raise_validity up_to status).1 ≡ false → (raise_validity up_to status).0 ≡ status)
      × ((raise_validity up_to status).0 / 8 ≡ status / 8)
raise_validity-level up_to status h = rw (raise_validity_lem up_to status h) (ground arith)

-- After raiseValidity for a level an entry is valid up to that level exactly when it has not
-- failed.
pub is_valid-raise_validity :
    (up_to status : ℕ)
    → up_to < 8
    → is_valid up_to (raise_validity up_to status).0 ≡ has_not_failed status
unfolding is_valid
is_valid-raise_validity up_to status h =
    rw
      (bit_and_mask 3 (raise_validity up_to status).0, failed_above (raise_validity up_to status).0)
      (rw (raise_validity-level up_to status h).3
        (ground (arith, raise_validity_lem up_to status h, failed_above status)))
