-- ===== src/Consensus.antt =====
-- src/storage/Consensus.cpp, and the checks of a header in src/storage/Validator.cpp: the target that the bits of a header
-- stand for, and the work that they prove.
pub mod Proof
pub mod Target
mod Runs
use xbtc.Base.{
  ℕ, ◌+◌, ◌-◌, ◌*◌, ◌<◌, ◌≤◌, Bool, true, false, not, ◌&&◌, ◌||◌, Option, none, some, ◌>>=◌, List,
  leb, ltb, ◌==◌, if◌then◌else◌,
}
use xbtc.Arith.{base_uint, add, complement, divide, equals}
use xbtc.Arith.Compact.{set_compact, word_of, size_of, is_negative_compact, is_overflow}

-- GetBlockProof, of which calcBlockProof is the bytes: `none` is a division by zero.
unfoldable pub get_block_proof : ℕ → Option (List ℕ)
get_block_proof bits =
    let c = set_compact bits in
    if c.negative || (c.overflow || equals c.number 0)
    then some (base_uint 0)
    else divide (complement c.number) (add c.number (base_uint 1)) >>= λ q.
        some (add q (base_uint 1))

-- decodeCompactUInt256: the number with its flags. `shift_left` is operator<<= of the uint256 of the xul library.
unfoldable pub decode_compact_uint256 : (ℕ → ℕ → ℕ) → ℕ → ℕ × Bool × Bool
decode_compact_uint256 shift_left compact =
    let word = word_of compact in
    (
      if leb (size_of compact) 3 then word else shift_left word (8 * (size_of compact - 3)),
      is_negative_compact compact,
      is_overflow compact,
    )

-- decodeCompactNumber: `none` is its false.
unfoldable pub decode_compact_number : (ℕ → ℕ → ℕ) → ℕ → Option ℕ
decode_compact_number shift_left compact =
    let (target, negative, overflow) = decode_compact_uint256 shift_left compact in
    if negative || (overflow || (target == 0)) then none else some target

-- checkProofOfWork, of the hash and the bits of a header.
unfoldable pub check_proof_of_work : (ℕ → ℕ → ℕ) → ℕ → ℕ → Bool
check_proof_of_work shift_left hash bits = elim (decode_compact_number shift_left bits) [
  | none ↦ false
  | some target ↦ if ltb target hash then false else true
]
