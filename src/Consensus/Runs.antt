-- ===== src/Consensus/Runs.antt =====
-- The theorems on targets and work at the bits of the first block, and the division at small numbers.
use xbtc.Base.{◌<◌, ℕ, ◌+◌, ◌*◌, ◌%◌, ◌^◌, ◌≡◌, refl, true, false, some, List, [], ◌∷◌, arith}
use xbtc.Arith.{divide}
use xbtc.Arith.Value.{value}
use xbtc.Arith.Words.{IsNumber}
use xbtc.Arith.Divide.{value-divide}
use xbtc.Arith.Compact.{set_compact, target}
use xbtc.Arith.Compact.Target.{set_compact-target}
use xbtc.Consensus.{get_block_proof, check_proof_of_work}
use xbtc.Consensus.Proof.{get_block_proof-value}
use xbtc.Consensus.Target.{check_proof_of_work-target}

abbrev first_bits : ℕ
first_bits = 0x1d00ffff

value-divide_example :
    (c : List ℕ) × (divide (7 ∷ 2 ∷ []) (5 ∷ 0 ∷ []) ≡ some c)
    × IsNumber 2 c
    × (value c ≡ 1717986919)
unfolding value
value-divide_example =
    value-divide 2 (7 ∷ 2 ∷ []) (5 ∷ 0 ∷ [])
      (record { words = (omega arith, (omega arith, tt)); size = refl })
      (record { words = (omega arith, (omega arith, tt)); size = refl }) (omega arith)

set_compact-target_example :
    IsNumber 8 (set_compact first_bits).number
    × ((set_compact first_bits).overflow ≡ false)
    × ((set_compact first_bits).overflow ≡ false
        → (value (set_compact first_bits).number ≡ 0xffff * 2 ^ 208)
          × (0xffff * 2 ^ 208 + 1 < 2 ^ 256))
    × ((set_compact first_bits).negative ≡ false)
unfolding target
set_compact-target_example = set_compact-target first_bits

get_block_proof-value_example :
    (r : List ℕ) × (get_block_proof first_bits ≡ some r) × (value r ≡ 4295032833)
unfolding target
get_block_proof-value_example = get_block_proof-value first_bits

check_proof_of_work-target_example :
    check_proof_of_work (λ x n. x * 2 ^ n % 2 ^ 256) (2 ^ 200) first_bits ≡ true
unfolding target
check_proof_of_work-target_example =
    check_proof_of_work-target (λ x n. x * 2 ^ n % 2 ^ 256) (λ x n. refl) (2 ^ 200) first_bits
