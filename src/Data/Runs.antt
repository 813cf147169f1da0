-- ===== src/Data/Runs.antt =====
-- The theorems on the data of the chain, at concrete transactions, index entries and coins.
use xbtc.Base.{◌+◌, ◌/◌, ◌≡◌, ◌&&◌, refl, true, false, some, [], ◌∷◌, ◌++◌, arith, ltb, ◌+◌, ◌/◌}
use xbtc.Stream.{Reads-eq, Reads, bytes_streams}
use xbtc.Data.Transaction.{TransactionOutput, Transaction, empty_transaction, has_witness}
use xbtc.Data.Transaction.Codec.{read_transaction, write_transaction}
use xbtc.Data.Transaction.RoundTrip.{IsWire, IsWireOutput, read_transaction-write_transaction}
use xbtc.Data.Transaction.Witness.{has_witness-read_transaction}
use xbtc.Data.Block.{BlockHeader, BlockIndexData, raise_validity}
use xbtc.Data.Block.Codec.{read_index, write_index}
use xbtc.Data.Block.RoundTrip.{IsWireIndex, index_bytes, restored, read_index-write_index}
use xbtc.Data.Block.Status.{level, has_not_failed, raise_validity-level}
use xbtc.Data.Coin.{Coin, read_coin, write_coin, read_coin-write_coin}
open bytes_streams use {Input, Output, bytes, written, open_input, open_output, bytes-open_input}

abbrev payment : TransactionOutput
payment = record { value = 5000000000; script_public_key = 0x76 ∷ 0xa9 ∷ [] }

abbrev spending : Transaction
spending = record {
  version = 1;
  inputs =
      record {
        previous_output = record { hash = 77; index = 2 };
        signature_script = 1 ∷ 2 ∷ 3 ∷ [];
        witness = [];
        sequence = 0xffffffff;
      }
      ∷ [];
  outputs = payment ∷ payment ∷ [];
  lock_time = 500;
  hash = 9;
}

payment-IsWireOutput : IsWireOutput payment
payment-IsWireOutput = record { value_range = omega arith; script_range = omega arith }

spending-IsWire : IsWire spending
spending-IsWire = record {
  version_range = omega arith;
  some_input = λ e. cc;
  few_inputs = omega arith;
  few_outputs = omega arith;
  wire_inputs = (
    record {
      hash_range = omega arith;
      index_range = omega arith;
      script_range = omega arith;
      sequence_range = omega arith;
      no_witness = refl;
    },
    tt,
  );
  wire_outputs = (payment-IsWireOutput, (payment-IsWireOutput, tt));
  lock_time_range = omega arith;
}

abbrev sent : Input
sent = open_input (written (write_transaction bytes_streams spending open_output) ++ (7 ∷ []))

read_transaction-write_transaction_example :
    Reads bytes_streams
      (read_transaction bytes_streams empty_transaction sent)
      (record spending { hash = 0 })
      (7 ∷ [])
read_transaction-write_transaction_example =
    read_transaction-write_transaction bytes_streams spending sent (7 ∷ []) spending-IsWire (
      bytes-open_input (written (write_transaction bytes_streams spending open_output) ++ (7 ∷ [])))

has_witness-read_transaction_example : has_witness (record spending { hash = 0 }) ≡ false
has_witness-read_transaction_example =
    let (rest, e, f) =
      Reads-eq bytes_streams (read_transaction bytes_streams empty_transaction sent)
        (record spending { hash = 0 }) (7 ∷ [])
        (read_transaction-write_transaction bytes_streams spending sent (7 ∷ []) spending-IsWire (
          bytes-open_input
            (written (write_transaction bytes_streams spending open_output) ++ (7 ∷ [])))) in
    has_witness-read_transaction bytes_streams empty_transaction sent (record spending { hash = 0 })
      rest e

abbrev coinbase_coin : Coin
coinbase_coin = record { output = payment; height = 120; is_coin_base = true }

abbrev stored : Input
stored = open_input (written (write_coin bytes_streams coinbase_coin open_output) ++ [])

read_coin-write_coin_example : Reads bytes_streams (read_coin bytes_streams stored) coinbase_coin []
read_coin-write_coin_example =
    read_coin-write_coin bytes_streams coinbase_coin stored [] payment-IsWireOutput (omega arith)
      (bytes-open_input (written (write_coin bytes_streams coinbase_coin open_output) ++ []))

abbrev header : BlockHeader
header = record {
  version = 1;
  previous_block_hash = 11;
  merkle_root_hash = 12;
  timestamp = 1231006505;
  bits = 0x1d00ffff;
  nonce = 2083236893;
  hash = 0;
}

abbrev entry : BlockIndexData
entry = record {
  header = header;
  height = 170;
  status = 8 + 5;
  transaction_count = 2;
  file_index = 3;
  data_position = 40008;
  undo_position = 0;
}

entry-IsWireIndex : IsWireIndex entry
entry-IsWireIndex = record {
  wire_header = record {
    version_range = omega arith;
    previous_range = omega arith;
    merkle_range = omega arith;
    timestamp_range = omega arith;
    bits_range = omega arith;
    nonce_range = omega arith;
  };
  height_range = omega arith;
  status_range = omega arith;
  count_range = omega arith;
  file_range = omega arith;
  data_range = omega arith;
  undo_range = omega arith;
}

abbrev indexed : Input
indexed = open_input (index_bytes bytes_streams entry ++ [])

read_index-write_index_example :
    ((o : Output) × (write_index bytes_streams entry open_output ≡ some o)
      × (written o ≡ index_bytes bytes_streams entry))
    × Reads bytes_streams
        (read_index bytes_streams entry indexed)
        (restored bytes_streams entry entry)
        []
read_index-write_index_example =
    read_index-write_index bytes_streams entry entry indexed [] entry-IsWireIndex
      (bytes-open_input (index_bytes bytes_streams entry ++ []))

raise_validity-level_example :
    ((raise_validity 5 0x22).1 ≡ (has_not_failed 0x22 && ltb (level 0x22) 5))
    × ((raise_validity 5 0x22).1 ≡ true → level (raise_validity 5 0x22).0 ≡ 5)
    × ((raise_validity 5 0x22).1 ≡ false → (raise_validity 5 0x22).0 ≡ 0x22)
    × ((raise_validity 5 0x22).0 / 8 ≡ 0x22 / 8)
raise_validity-level_example = raise_validity-level 5 0x22 (omega arith)
