-- ===== src/Data/Transaction/RoundTrip.antt =====
-- Transactions without witnesses are written in one format and read back from it.
use xbtc.Base.{
  ℕ, ◌^◌, ◌≤◌, ◌<◌, ◌≡◌, ◌≢◌, refl, sym, ◌∙◌, ap, Bool, true, false, ◌&&◌, some, List, [], ◌∷◌,
  ◌++◌, length, arith, append_assoc, All,
}
use xbtc.Stream.{Streams, Reads, Parses, Emits, Reads-then, Emits-chain, little_endian}
use xbtc.Serial.{read_string, write_string, read_vector, write_vector}
use xbtc.Serial.Compact.{read_uint-Parses}
use xbtc.Serial.Vector.{
  string_bytes, vector_bytes, write_string-Emits, read_string-Parses, write_vector-Emits,
  read_vector-Parses,
}
use xbtc.Data.Transaction.{
  TransactionOutPoint, TransactionInput, TransactionOutput, Transaction, is_witness_allowed,
  has_witness, any_witness, is_empty, empty_transaction,
}
use xbtc.Data.Transaction.Codec.{
  read_out_point, write_out_point, read_input, write_input, read_output, write_output,
  reread_inputs, read_transaction, write_transaction,
}

-- The format of the protocol.
unfoldable pub out_point_bytes : TransactionOutPoint → List ℕ
out_point_bytes p = little_endian 32 p.hash ++ little_endian 4 p.index

unfoldable pub input_bytes : TransactionInput → List ℕ
input_bytes input =
    out_point_bytes input.previous_output
    ++ string_bytes input.signature_script
    ++ little_endian 4 input.sequence

unfoldable pub output_bytes : TransactionOutput → List ℕ
output_bytes output = little_endian 8 output.value ++ string_bytes output.script_public_key

unfoldable pub transaction_bytes : Transaction → List ℕ
transaction_bytes tx =
    little_endian 4 tx.version
    ++ vector_bytes input_bytes tx.inputs
    ++ vector_bytes output_bytes tx.outputs
    ++ little_endian 4 tx.lock_time

-- The fields are in range, the scripts short enough, and there is no witness.
pub record IsWireInput (input : TransactionInput) : Type 0 where
  pub hash_range : input.previous_output.hash < 256 ^ 32
  pub index_range : input.previous_output.index < 2 ^ 32
  pub script_range : length input.signature_script ≤ 50000
  pub sequence_range : input.sequence < 2 ^ 32
  pub no_witness : input.witness ≡ []

pub record IsWireOutput (output : TransactionOutput) : Type 0 where
  pub value_range : output.value < 2 ^ 64
  pub script_range : length output.script_public_key ≤ 50000

pub record IsWire (tx : Transaction) : Type 0 where
  pub version_range : tx.version < 2 ^ 32
  pub some_input : tx.inputs ≢ []
  pub few_inputs : length tx.inputs ≤ 10000
  pub few_outputs : length tx.outputs ≤ 10000
  pub wire_inputs : All IsWireInput tx.inputs
  pub wire_outputs : All IsWireOutput tx.outputs
  pub lock_time_range : tx.lock_time < 2 ^ 32

and_false : (b : Bool) → (b && false) ≡ false
and_false true = refl
and_false false = refl

module _ (xul : Streams) where
  open xul use {
    Input, Output, bytes, written, open_output, written-open_output, read_uint, write_uint,
    written-write_uint,
  }

  read_out_point-Parses :
      (p : TransactionOutPoint)
      → p.hash < 256 ^ 32
      → p.index < 2 ^ 32
      → Parses xul (read_out_point xul) p (out_point_bytes p)
  unfolding read_out_point out_point_bytes
  read_out_point-Parses p h i s rest e =
      Reads-then xul (read_uint 32) _ p.hash p (little_endian 32 p.hash) _ rest s
        (read_uint-Parses xul 32 p.hash h) (simp append_assoc at e)
        λ s1 f.
          Reads-then xul (read_uint 4) _ p.index p (little_endian 4 p.index) rest rest s1
            (read_uint-Parses xul 4 p.index i) f (λ s2 g. (refl, g))

  write_out_point-Emits :
      (p : TransactionOutPoint) → Emits xul (write_out_point xul p) (out_point_bytes p)
  unfolding write_out_point out_point_bytes
  write_out_point-Emits p =
      Emits-chain xul (write_uint 32 p.hash) (write_uint 4 p.index) _ _
        (written-write_uint 32 p.hash) (written-write_uint 4 p.index)

  read_input-Parses :
      (input : TransactionInput)
      → IsWireInput input
      → Parses xul (read_input xul) input (input_bytes input)
  unfolding read_input input_bytes
  read_input-Parses input w s rest e =
      Reads-then xul (read_out_point xul) _ input.previous_output input
        (out_point_bytes input.previous_output) _ rest s
        (read_out_point-Parses input.previous_output w.hash_range w.index_range)
        (simp append_assoc at e)
        λ s1 f.
          Reads-then xul (read_string xul 50000) _ input.signature_script input
            (string_bytes input.signature_script) _ rest s1
            (read_string-Parses xul 50000 input.signature_script w.script_range (omega arith)) f
            λ s2 g.
              Reads-then xul (read_uint 4) _ input.sequence input (little_endian 4 input.sequence)
                rest rest s2 (read_uint-Parses xul 4 input.sequence w.sequence_range) g
                (λ s3 h. (ap (λ x. record input { witness = x }) (sym w.no_witness), h))

  write_input-Emits :
      (input : TransactionInput) → Emits xul (write_input xul input) (input_bytes input)
  unfolding write_input input_bytes
  write_input-Emits input =
      Emits-chain xul
        (λ o. write_string xul input.signature_script (write_out_point xul input.previous_output o))
        (write_uint 4 input.sequence) _ _
        (Emits-chain xul (write_out_point xul input.previous_output)
          (write_string xul input.signature_script) _ _
          (write_out_point-Emits input.previous_output)
          (write_string-Emits xul input.signature_script))
        (written-write_uint 4 input.sequence)

  pub read_output-Parses :
      (output : TransactionOutput)
      → IsWireOutput output
      → Parses xul (read_output xul) output (output_bytes output)
  unfolding read_output output_bytes
  read_output-Parses output w s rest e =
      Reads-then xul (read_uint 8) _ output.value output (little_endian 8 output.value) _ rest s
        (read_uint-Parses xul 8 output.value w.value_range) (simp append_assoc at e)
        λ s1 f.
          Reads-then xul (read_string xul 50000) _ output.script_public_key output
            (string_bytes output.script_public_key) rest rest s1
            (read_string-Parses xul 50000 output.script_public_key w.script_range (omega arith)) f
            (λ s2 g. (refl, g))

  pub write_output-Emits :
      (output : TransactionOutput) → Emits xul (write_output xul output) (output_bytes output)
  unfolding write_output output_bytes
  write_output-Emits output =
      Emits-chain xul (write_uint 8 output.value) (write_string xul output.script_public_key) _ _
        (written-write_uint 8 output.value) (write_string-Emits xul output.script_public_key)

  All-map :
      {A : Type 0} {P Q : A → Type 0} (f : (a : A) → P a → Q a) (xs : List A) → All P xs → All Q xs
  All-map f [] h = tt
  All-map f (x ∷ xs) (h, hs) = (f x h, All-map f xs hs)

  pub read_inputs-Parses :
      (inputs : List TransactionInput)
      → length inputs ≤ 10000
      → All IsWireInput inputs
      → Parses xul (read_vector xul (read_input xul) 10000) inputs (vector_bytes input_bytes inputs)
  read_inputs-Parses inputs few w =
      read_vector-Parses xul input_bytes (read_input xul) 10000 inputs few (omega arith)
        (All-map read_input-Parses inputs w)

  pub read_outputs-Parses :
      (outputs : List TransactionOutput)
      → length outputs ≤ 10000
      → All IsWireOutput outputs
      → Parses xul
          (read_vector xul (read_output xul) 10000)
          outputs
          (vector_bytes output_bytes outputs)
  read_outputs-Parses outputs few w =
      read_vector-Parses xul output_bytes (read_output xul) 10000 outputs few (omega arith)
        (All-map read_output-Parses outputs w)

  -- Inputs that are there are not read again.
  reread_inputs-some :
      (allowed : Bool) (inputs : List TransactionInput) (s : Input)
      → inputs ≢ []
      → reread_inputs xul (allowed && is_empty inputs) inputs s ≡ some (inputs, s)
  unfolding reread_inputs
  reread_inputs-some allowed [] s h = absurd (h refl)
  reread_inputs-some true (input ∷ inputs) s h = refl
  reread_inputs-some false (input ∷ inputs) s h = refl

  -- The encoding of a transaction that is in range and has no witness is read back, up to the hash,
  -- which is not transmitted.
  pub read_transaction-Parses :
      (tx : Transaction)
      → IsWire tx
      → Parses xul
          (read_transaction xul empty_transaction)
          (record tx { hash = 0 })
          (transaction_bytes tx)
  unfolding read_transaction transaction_bytes
  read_transaction-Parses tx w s rest e =
      let tx' : Transaction = record tx { hash = 0 } in
      Reads-then xul (read_uint 4) _ tx.version tx' (little_endian 4 tx.version) _ rest s
        (read_uint-Parses xul 4 tx.version w.version_range) (simp append_assoc at e)
        λ s1 f.
          Reads-then xul (read_vector xul (read_input xul) 10000) _ tx.inputs tx'
            (vector_bytes input_bytes tx.inputs) _ rest s1
            (read_inputs-Parses tx.inputs w.few_inputs w.wire_inputs) f
            λ s2 g. rw (reread_inputs-some (is_witness_allowed 0) tx.inputs s2 w.some_input) (
              Reads-then xul (read_vector xul (read_output xul) 10000) _ tx.outputs tx'
                (vector_bytes output_bytes tx.outputs) _ rest s2
                (read_outputs-Parses tx.outputs w.few_outputs w.wire_outputs) g
                λ s3 h.
                  Reads-then xul (read_uint 4) _ tx.lock_time tx' (little_endian 4 tx.lock_time)
                    rest rest s3 (read_uint-Parses xul 4 tx.lock_time w.lock_time_range) h
                    (λ s4 i. (refl, i)))

  any_witness-wire :
      (inputs : List TransactionInput) → All IsWireInput inputs → any_witness inputs ≡ false
  unfolding any_witness
  any_witness-wire [] h = refl
  any_witness-wire (input ∷ inputs) (h, hs) = rw h.no_witness (any_witness-wire inputs hs)

  -- Without a witness, write_transaction appends the encoding.
  pub write_transaction-Emits :
      (tx : Transaction)
      → has_witness tx ≡ false
      → Emits xul (write_transaction xul tx) (transaction_bytes tx)
  unfolding write_transaction transaction_bytes
  write_transaction-Emits tx plain o =
      rw (plain, and_false (is_witness_allowed tx.version), write_transaction)
        (Emits-chain xul
          (λ o.
            write_vector xul (write_output xul) tx.outputs
              (write_vector xul (write_input xul) tx.inputs (write_uint 4 tx.version o)))
          (write_uint 4 tx.lock_time) _ _
          (Emits-chain xul
            (λ o. write_vector xul (write_input xul) tx.inputs (write_uint 4 tx.version o))
            (write_vector xul (write_output xul) tx.outputs) _ _
            (Emits-chain xul (write_uint 4 tx.version)
              (write_vector xul (write_input xul) tx.inputs) _ _ (written-write_uint 4 tx.version)
              (write_vector-Emits xul input_bytes (write_input xul) write_input-Emits tx.inputs))
            (write_vector-Emits xul output_bytes (write_output xul) write_output-Emits tx.outputs))
          (written-write_uint 4 tx.lock_time) o)

  -- A transaction that is in range and has no witness is read back from what write_transaction
  -- puts into an empty stream, whatever follows; only the hash, which is not transmitted, is
  -- reset.
  pub read_transaction-write_transaction :
      (tx : Transaction) (s : Input) (rest : List ℕ)
      → IsWire tx
      → bytes s ≡ written (write_transaction xul tx open_output) ++ rest
      → Reads xul (read_transaction xul empty_transaction s) (record tx { hash = 0 }) rest
  unfolding has_witness
  read_transaction-write_transaction tx s rest w e = read_transaction-Parses tx w s rest (
      e
      ∙ ap (λ x. x ++ rest)
          (write_transaction-Emits tx (any_witness-wire tx.inputs w.wire_inputs) open_output
            ∙ ap (λ x. x ++ transaction_bytes tx) written-open_output))
