-- ===== src/Validator/Runs.antt =====
-- The theorems on the checks of transactions, at a block of one transaction that spends a coin.
use xbtc.Base.{ℕ, ◌≡◌, refl, Bool, true, false, Option, none, some, List, [], ◌∷◌, if◌then◌else◌}
use xbtc.Stream.{bytes_streams}
use xbtc.Data.Transaction.{TransactionOutPoint, Transaction, is_coin_base}
use xbtc.Data.Block.{Block, BlockHeader, BlockIndexData}
use xbtc.Data.Coin.{Coin}
use xbtc.Coins.{CoinView, fetch_coin, has_coin}
use xbtc.Coins.Lookup.{eq_out, find, insert}
use xbtc.Coins.Unspent.{unspent}
use xbtc.Script.Stack.{Value, get, is_true, push_integer}
use xbtc.Script.Number.{number_bytes, last_byte, abs_bytes}
use xbtc.Base.Int.{◌+ℤ◌, ◌-ℤ◌}
use xbtc.Script.Vm.{script_integer}
use xbtc.Script.Eval.{eval, eval_loop, eval_function, functions, call}
use xbtc.Validator.{
  forbid_duplicate_transaction, check_outputs, check_all_outputs, check_duplicate_transaction,
  verify_scripts, spent_output, verify_transaction_input, verify_inputs_of, verify_inputs_from,
  verify_transactions,
}
use xbtc.Validator.Outputs.{AllNewOf}
use xbtc.Validator.Inputs.{SatisfiedFrom, verify_transactions-SatisfiedFrom}
use xbtc.Validator.Returned.{verify_scripts-returned}

abbrev place : TransactionOutPoint
place = record { hash = 5; index = 0 }

abbrev owned : Coin
owned = record {
  output = record { value = 90; script_public_key = 0x51 ∷ [] };
  height = 0;
  is_coin_base = false;
}

abbrev view : CoinView
view = record {
  db = λ k. if eq_out place k then some owned else none;
  added = [];
  removed = [];
  best_block_hash = 1;
  best_block_height = 0;
}

abbrev payment : Transaction
payment = record {
  version = 1;
  inputs =
      record { previous_output = place; signature_script = 0x51 ∷ []; witness = []; sequence = 0 }
      ∷ [];
  outputs = record { value = 60; script_public_key = 0x51 ∷ [] } ∷ [];
  lock_time = 0;
  hash = 6;
}

abbrev header : BlockHeader
header = record {
  version = 1;
  previous_block_hash = 1;
  merkle_root_hash = 6;
  timestamp = 10;
  bits = 0x1d00ffff;
  nonce = 0;
  hash = 2;
}

abbrev block : Block
block = record { header = header; transactions = payment ∷ [] }

abbrev entry : BlockIndexData
entry = record {
  header = header;
  height = 1;
  status = 0;
  transaction_count = 1;
  file_index = 0;
  data_position = 0;
  undo_position = 0;
}

abbrev digest : ℕ → Value → Value
digest i v = i ∷ v

abbrev refuse : Transaction → ℕ → Value → Value → List ℕ → Bool
refuse tx index sig pubkey code = false

abbrev outcome : Option (Bool × CoinView)
outcome = verify_transactions bytes_streams digest refuse block entry view

abbrev read_view : CoinView
read_view = elim outcome [ none ↦ view | some (ok, v') ↦ v' ]

verify_transactions-SatisfiedFrom_example :
    (true ≡ true)
    × (unspent read_view ≡ unspent view)
    × (forbid_duplicate_transaction 1 2 ≡ true → AllNewOf (unspent view) (payment ∷ []))
    × SatisfiedFrom bytes_streams digest refuse (unspent view) (payment ∷ []) 0 (payment ∷ [])
unfolding verify_transactions check_duplicate_transaction check_all_outputs check_outputs has_coin
    fetch_coin find verify_inputs_from verify_inputs_of verify_transaction_input spent_output
    verify_scripts eval eval_loop eval_function functions call script_integer push_integer
    number_bytes ◌+ℤ◌ ◌-ℤ◌ last_byte abs_bytes get is_true is_coin_base insert bytes_streams
verify_transactions-SatisfiedFrom_example =
    verify_transactions-SatisfiedFrom bytes_streams digest refuse block entry view read_view true
      refl

verify_scripts-returned_example :
    verify_scripts bytes_streams digest
      (λ sig pubkey code. false)
      (0x51 ∷ 0x6a ∷ [])
      (0x76 ∷ 0xa9 ∷ 0xac ∷ [])
    ≡ some true
verify_scripts-returned_example =
    verify_scripts-returned bytes_streams digest (λ sig pubkey code. false) 0x76 (0xa9 ∷ 0xac ∷ [])
