-- ===== src/Data/Transaction/Codec.antt =====
-- The stream operators of Transaction.cpp.
use xbtc.Base.{
  ℕ, Bool, true, false, ◌&&◌, Option, none, some, List, [], ◌∷◌, ◌++◌, length, ◌>>=◌, ◌==◌, ltb,
  if◌then◌else◌,
}
use xbtc.Stream.{Streams}
use xbtc.Serial.{
  read_compact_size, write_compact_size, read_string, write_string, read_items, read_vector,
  write_items, write_vector,
}
use xbtc.Data.Transaction.{
  TransactionOutPoint, TransactionInput, TransactionOutput, Transaction, is_witness_allowed,
  has_witness, is_empty,
}

module _ (xul : Streams) where
  open xul use {Input, Output, read_uint, write_uint}

  unfoldable pub read_out_point : Input → Option (TransactionOutPoint × Input)
  read_out_point s = do
    (hash, s1) ← read_uint 32 s
    (index, s2) ← read_uint 4 s1
    some (record { hash = hash; index = index }, s2)

  unfoldable pub write_out_point : TransactionOutPoint → Output → Output
  write_out_point p o = write_uint 4 p.index (write_uint 32 p.hash o)

  unfoldable pub read_input : Input → Option (TransactionInput × Input)
  read_input s = do
    (previous_output, s1) ← read_out_point s
    (signature_script, s2) ← read_string xul 50000 s1
    (sequence, s3) ← read_uint 4 s2
    some (
      record {
        previous_output = previous_output;
        signature_script = signature_script;
        witness = [];
        sequence = sequence;
      },
      s3,
    )

  unfoldable pub write_input : TransactionInput → Output → Output
  write_input input o =
      write_uint 4 input.sequence
        (write_string xul input.signature_script (write_out_point input.previous_output o))

  unfoldable pub read_output : Input → Option (TransactionOutput × Input)
  read_output s = do
    (value, s1) ← read_uint 8 s
    (script_public_key, s2) ← read_string xul 50000 s1
    some (record { value = value; script_public_key = script_public_key }, s2)

  unfoldable pub write_output : TransactionOutput → Output → Output
  write_output output o = write_string xul output.script_public_key (write_uint 8 output.value o)

  -- The stack of a witness: vectors of bytes.
  unfoldable pub read_witness : Input → Option (List (List ℕ) × Input)
  read_witness s = do
    (count, s1) ← read_compact_size xul s
    if ltb 10000 count then none else read_items xul (read_vector xul (read_uint 1) 10000) count s1

  unfoldable pub write_witness : List (List ℕ) → Output → Output
  write_witness stack o =
      write_items xul (write_vector xul (write_uint 1)) stack
        (write_compact_size xul (length stack) o)

  -- The marker of a witness: no inputs, a flag, and the inputs once more.
  unfoldable pub reread_inputs :
      Bool → List TransactionInput → Input → Option (List TransactionInput × Input)
  reread_inputs false inputs s = some (inputs, s)
  reread_inputs true inputs s = do
    (flag, s1) ← read_uint 1 s
    if flag == 0 then some (inputs, s1) else read_vector xul read_input 10000 s1

  unfoldable pub write_witnesses : List TransactionInput → Output → Output
  write_witnesses [] o = o
  write_witnesses (input ∷ inputs) o = write_witnesses inputs (write_witness input.witness o)

  -- Reads into `tx`. The test for a witness is made on the version that `tx` has before the read,
  -- and the flag that would ask for the witnesses (`needWitness`) is never set.
  unfoldable pub read_transaction : Transaction → Input → Option (Transaction × Input)
  read_transaction tx s = do
    (version, s1) ← read_uint 4 s
    (inputs, s2) ← read_vector xul read_input 10000 s1
    (inputs', s3) ← reread_inputs (is_witness_allowed tx.version && is_empty inputs) inputs s2
    (outputs, s4) ← read_vector xul read_output 10000 s3
    (lock_time, s5) ← read_uint 4 s4
    some (
      record {
        version = version;
        inputs = inputs';
        outputs = tx.outputs ++ outputs;
        lock_time = lock_time;
        hash = tx.hash;
      },
      s5,
    )

  unfoldable pub write_transaction : Transaction → Output → Output
  write_transaction tx o =
      let need_witness = is_witness_allowed tx.version && has_witness tx in
      let o1 = write_uint 4 tx.version o in
      let o2 = if need_witness then write_uint 2 0x0100 o1 else o1 in
      let o3 =
        write_vector xul write_output tx.outputs (write_vector xul write_input tx.inputs o2) in
      let o4 = if need_witness then write_witnesses tx.inputs o3 else o3 in
      write_uint 4 tx.lock_time o4
