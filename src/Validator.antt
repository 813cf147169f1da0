-- ===== src/Validator.antt =====
-- ValidatorImpl of src/storage/Validator.cpp: what is asked of the transactions of a block. `none` is a failed assertion; the
-- checker of the signatures of an input, by transaction and number, is a parameter.
pub mod Fetch
pub mod Outputs
pub mod Known
pub mod Inputs
pub mod Returned
mod Runs
use xbtc.Base.{
  ℕ, zero, suc, ◌+◌, Bool, true, false, not, ◌&&◌, ◌||◌, Option, none, some, ◌>>=◌, List, [], ◌∷◌,
  length, ltb, leb, ◌==◌, if◌then◌else◌, get_elem?, take,
}
use xbtc.Stream.{Streams}
use xbtc.Data.Transaction.{
  TransactionOutPoint, TransactionInput, TransactionOutput, Transaction, is_coin_base,
}
use xbtc.Data.Block.{Block, BlockIndexData}
use xbtc.Cache.{Validator}
use xbtc.Consensus.{check_proof_of_work}
use xbtc.Coins.{CoinView, fetch_coin, has_coin, positive}
use xbtc.Script.Stack.{Value, get, is_true}
use xbtc.Script.Vm.{Vm}
use xbtc.Script.Eval.{Run, eval}
use xbtc.Script.Eval.Run.{finished, failed, out_of_fuel}

-- Compatibility::forbidDuplicateTransaction, on the height and the hash of a block.
abbrev pub forbid_duplicate_transaction : ℕ → ℕ → Bool
forbid_duplicate_transaction height hash =
    (not (height == 91842)
      || not (hash == 0x00000000000a4d0a398161ffc163c503763b1f4360639393e0e4c8e300e0caec))
    && (not (height == 91880)
        || not (hash == 0x00000000000743f190a18c5577a3c2d2a1f610ae9601ac046a38084ccb7cd721))

-- The loop over the outputs of a transaction, from number `i` on. getHash asserts that the hash is not null.
unfoldable pub check_outputs : ℕ → ℕ → List TransactionOutput → CoinView → Option CoinView
check_outputs hash i [] v = some v
check_outputs hash i (output ∷ outputs) v = if hash == 0 then none else (do
  (found, v') ← has_coin (record { hash = hash; index = i }) v
  if found then none else check_outputs hash (suc i) outputs v')

unfoldable pub check_all_outputs : List Transaction → CoinView → Option CoinView
check_all_outputs [] v = some v
check_all_outputs (tx ∷ txs) v =
    check_outputs tx.hash 0 tx.outputs v >>= λ v'. check_all_outputs txs v'

-- checkDuplicateTransaction: it never returns false, since an assertion fails first.
unfoldable pub check_duplicate_transaction :
    Block → BlockIndexData → CoinView → Option (Bool × CoinView)
check_duplicate_transaction block index v =
    if forbid_duplicate_transaction index.height index.header.hash
    then (check_all_outputs block.transactions v >>= λ v'. some (true, v'))
    else some (true, v)

-- The loop over the transactions of the block, from number `i` on, for an output that is spent: no output, or
-- the first one under its outpoint, leaving out transaction `txindex`.
unfoldable pub find_output :
    ℕ → ℕ → List Transaction → TransactionOutPoint → Option (Option TransactionOutput)
find_output i txindex [] out = some none
find_output i txindex (tx ∷ txs) out =
    let rest = find_output (suc i) txindex txs out in
    if i == txindex
    then rest
    else if tx.hash == 0
    then none
    else if tx.hash == out.hash
    then elim (get_elem? tx.outputs out.index) [ none ↦ none | some o ↦ some (some o) ]
    else rest

-- Both loops; the second one overwrites what the first has found.
unfoldable pub output_of_block :
    List Transaction → ℕ → TransactionOutPoint → Option (Option TransactionOutput)
output_of_block txs txindex out = do
  before ← find_output 0 txindex (take txindex txs) out
  other ← find_output 0 txindex txs out
  some (elim other [ none ↦ before | some o ↦ some o ])

-- What follows a run; a failed assertion ends it.
abbrev pub on_finished {ℓ} : {A : Type ℓ} → Run → (Vm → Option A) → Option A
on_finished (finished vm) f = f vm
on_finished failed f = none
on_finished out_of_fuel f = none

module _ (xul : Streams) (hash : ℕ → Value → Value) where
  -- The two scripts on one machine. ScriptVM::eval returns true whatever the error code of the machine is.
  unfoldable pub verify_scripts : (Value → Value → List ℕ → Bool) → List ℕ → List ℕ → Option Bool
  verify_scripts check signature_script script_public_key =
      on_finished
        (eval xul hash check signature_script (record { stack = []; errcode = 0; code = [] }))
        (λ vm.
          on_finished (eval xul hash check script_public_key vm)
            (λ vm'. get 1 vm'.stack >>= λ value. if is_true value then some true else none))

  module _ (check : Transaction → ℕ → Value → Value → List ℕ → Bool) where
    -- txout: of the coin, or else of the block.
    unfoldable pub spent_output :
        List Transaction
        → ℕ
        → TransactionOutPoint
        → CoinView
        → Option (TransactionOutput × CoinView)
    spent_output txs txindex out v = do
      (coin, v') ← fetch_coin out v
      output ← elim coin [
        | none ↦ output_of_block txs txindex out
        | some c ↦ if positive c then some (some c.output) else output_of_block txs txindex out
      ]
      output' ← output
      some (output', v')

    -- verifyTransactionInput.
    unfoldable pub verify_transaction_input :
        List Transaction
        → ℕ
        → Transaction
        → ℕ
        → TransactionInput
        → CoinView
        → Option (Bool × CoinView)
    verify_transaction_input txs txindex tx index txin v =
        if is_coin_base tx then some (true, v) else (do
          (txout, v') ← spent_output txs txindex txin.previous_output v
          ok ← verify_scripts (check tx index) txin.signature_script txout.script_public_key
          some (ok, v'))

    unfoldable pub verify_inputs_of :
        List Transaction
        → ℕ
        → Transaction
        → ℕ
        → List TransactionInput
        → CoinView
        → Option (Bool × CoinView)
    verify_inputs_of txs txindex tx index [] v = some (true, v)
    verify_inputs_of txs txindex tx index (txin ∷ inputs) v = do
      (ok, v') ← verify_transaction_input txs txindex tx index txin v
      if ok then verify_inputs_of txs txindex tx (suc index) inputs v' else some (false, v')

    -- verifyTransactionInputs, from transaction number `txindex` on.
    unfoldable pub verify_inputs_from :
        List Transaction → ℕ → List Transaction → CoinView → Option (Bool × CoinView)
    verify_inputs_from txs txindex [] v = some (true, v)
    verify_inputs_from txs txindex (tx ∷ rest) v = do
      (ok, v') ← verify_inputs_of txs txindex tx 0 tx.inputs v
      if ok then verify_inputs_from txs (suc txindex) rest v' else some (false, v')

    unfoldable pub verify_transactions :
        Block → BlockIndexData → CoinView → Option (Bool × CoinView)
    verify_transactions block index v = do
      (ok, v') ← check_duplicate_transaction block index v
      if ok then verify_inputs_from block.transactions 0 block.transactions v' else some (false, v')

    -- What BlockCache sees of the validator: validateBlockHeader, which is also all of validateBlockIndex, validateBlock and
    -- verifyTransactions. `shift_left` is operator<<= of the uint256 of the xul library.
    abbrev pub validator_of : (ℕ → ℕ → ℕ) → Validator
    validator_of shift_left = record {
      validate_header = λ header. check_proof_of_work shift_left header.hash header.bits;
      validate_block = λ block index. true;
      verify_transactions = λ block index v. verify_transactions block index.saved v;
    }
