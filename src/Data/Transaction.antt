-- ===== src/Data/Transaction.antt =====
-- src/data/Transaction.hpp and Transaction.cpp.
pub mod Codec
pub mod RoundTrip
pub mod Witness
use xbtc.Base.{
  ℕ, ◌^◌, Bool, true, false, not, ◌&&◌, List, [], ◌∷◌, length, ◌==◌, bit_and, if◌then◌else◌,
}

pub record TransactionOutPoint : Type 0 where
  pub hash : ℕ
  pub index : ℕ

pub record TransactionInput : Type 0 where
  pub previous_output : TransactionOutPoint
  pub signature_script : List ℕ
  pub witness : List (List ℕ)
  pub sequence : ℕ

pub record TransactionOutput : Type 0 where
  pub value : ℕ
  pub script_public_key : List ℕ

pub record Transaction : Type 0 where
  pub version : ℕ
  pub inputs : List TransactionInput
  pub outputs : List TransactionOutput
  pub lock_time : ℕ
  pub hash : ℕ

-- Transaction().
abbrev pub empty_transaction : Transaction
empty_transaction = record { version = 0; inputs = []; outputs = []; lock_time = 0; hash = 0 }

abbrev pub no_witness_flag : ℕ
no_witness_flag = 0x40000000

unfoldable pub is_witness_allowed : ℕ → Bool
is_witness_allowed version = bit_and version no_witness_flag == 0

abbrev pub is_empty : {A : Type 0} → List A → Bool
is_empty [] = true
is_empty (x ∷ xs) = false

unfoldable pub any_witness : List TransactionInput → Bool
any_witness [] = false
any_witness (input ∷ inputs) = if not (is_empty input.witness) then true else any_witness inputs

unfoldable pub has_witness : Transaction → Bool
unfolding any_witness
has_witness tx = any_witness tx.inputs

null_first_input : List TransactionInput → Bool
null_first_input [] = false
null_first_input (input ∷ []) = input.previous_output.hash == 0
null_first_input (input ∷ other ∷ inputs) = false

-- One input, and it spends the null hash.
unfoldable pub is_coin_base : Transaction → Bool
unfolding null_first_input
is_coin_base tx = null_first_input tx.inputs
