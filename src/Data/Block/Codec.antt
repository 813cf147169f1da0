-- ===== src/Data/Block/Codec.antt =====
-- The stream operators of Block.cpp, and BlockIndex::read_object and write_object.
use xbtc.Base.{ℕ, Bool, true, false, not, Option, some, ◌>>=◌, ◌==◌, bit_and, ◌++◌}
use xbtc.Stream.{Streams}
use xbtc.Serial.{
  int_max, uint32_max, uint64_max, read_integer, write_integer, read_vector, write_vector,
}
use xbtc.Data.Transaction.{empty_transaction}
use xbtc.Data.Transaction.Codec.{read_transaction, write_transaction}
use xbtc.Data.Block.{BlockHeader, Block, BlockIndexData, BlockFileInfo, have_data, have_undo}

-- CLIENT_VERSION of version.hpp.
abbrev pub client_version : ℕ
client_version = 169900

module _ (xul : Streams) where
  open xul use {Input, Output, read_uint, write_uint}

  -- Reads into a header, whose hash stays.
  unfoldable pub read_header : BlockHeader → Input → Option (BlockHeader × Input)
  read_header h s = do
    (version, s1) ← read_uint 4 s
    (previous_block_hash, s2) ← read_uint 32 s1
    (merkle_root_hash, s3) ← read_uint 32 s2
    (timestamp, s4) ← read_uint 4 s3
    (bits, s5) ← read_uint 4 s4
    (nonce, s6) ← read_uint 4 s5
    some (
      record {
        version = version;
        previous_block_hash = previous_block_hash;
        merkle_root_hash = merkle_root_hash;
        timestamp = timestamp;
        bits = bits;
        nonce = nonce;
        hash = h.hash;
      },
      s6,
    )

  unfoldable pub write_header : BlockHeader → Output → Output
  write_header h o =
      let o1 =
        write_uint 32 h.merkle_root_hash
          (write_uint 32 h.previous_block_hash (write_uint 4 h.version o)) in
      write_uint 4 h.nonce (write_uint 4 h.bits (write_uint 4 h.timestamp o1))

  unfoldable pub read_block : Block → Input → Option (Block × Input)
  read_block b s = do
    (header, s1) ← read_header b.header s
    (transactions, s2) ← read_vector xul (read_transaction xul empty_transaction) 50000 s1
    some (record { header = header; transactions = b.transactions ++ transactions }, s2)

  unfoldable pub write_block : Block → Output → Output
  write_block b o =
      write_vector xul (write_transaction xul) b.transactions (write_header b.header o)

  -- A field that is there only if `present`, and otherwise keeps its value.
  unfoldable pub read_if : Bool → ℕ → ℕ → Input → Option (ℕ × Input)
  read_if false max old s = some (old, s)
  read_if true max old s = read_integer xul max s

  unfoldable pub write_if : Bool → ℕ → ℕ → Output → Option Output
  write_if false bits n o = some o
  write_if true bits n o = write_integer xul bits n o

  abbrev pub has_file : ℕ → Bool
  has_file status = not (bit_and status 24 == 0)

  abbrev pub has_data : ℕ → Bool
  has_data status = not (bit_and status have_data == 0)

  abbrev pub has_undo : ℕ → Bool
  has_undo status = not (bit_and status have_undo == 0)

  -- BlockIndex::read_object.
  unfoldable pub read_index : BlockIndexData → Input → Option (BlockIndexData × Input)
  read_index b s = do
    (proto_version, s1) ← read_integer xul int_max s
    (height, s2) ← read_integer xul int_max s1
    (status, s3) ← read_integer xul uint32_max s2
    (transaction_count, s4) ← read_integer xul uint32_max s3
    (file_index, s5) ← read_if (has_file status) int_max b.file_index s4
    (data_position, s6) ← read_if (has_data status) uint32_max b.data_position s5
    (undo_position, s7) ← read_if (has_undo status) uint32_max b.undo_position s6
    (header, s8) ← read_header b.header s7
    some (
      record {
        header = header;
        height = height;
        status = status;
        transaction_count = transaction_count;
        file_index = file_index;
        data_position = data_position;
        undo_position = undo_position;
      },
      s8,
    )

  -- BlockIndex::write_object.
  unfoldable pub write_index : BlockIndexData → Output → Option Output
  write_index b o = do
    o1 ← write_integer xul 32 client_version o
    o2 ← write_integer xul 32 b.height o1
    o3 ← write_integer xul 32 b.status o2
    o4 ← write_integer xul 32 b.transaction_count o3
    o5 ← write_if (has_file b.status) 32 b.file_index o4
    o6 ← write_if (has_data b.status) 32 b.data_position o5
    o7 ← write_if (has_undo b.status) 32 b.undo_position o6
    some (write_header b.header o7)

  unfoldable pub read_file_info : BlockFileInfo → Input → Option (BlockFileInfo × Input)
  read_file_info info s = do
    (blocks, s1) ← read_integer xul uint32_max s
    (size, s2) ← read_integer xul uint32_max s1
    (undo_size, s3) ← read_integer xul uint32_max s2
    (min_height, s4) ← read_integer xul uint32_max s3
    (max_height, s5) ← read_integer xul uint32_max s4
    (min_time, s6) ← read_integer xul uint64_max s5
    (max_time, s7) ← read_integer xul uint64_max s6
    some (
      record {
        file_index = info.file_index;
        blocks = blocks;
        size = size;
        undo_size = undo_size;
        min_height = min_height;
        max_height = max_height;
        min_time = min_time;
        max_time = max_time;
      },
      s7,
    )

  unfoldable pub write_file_info : BlockFileInfo → Output → Option Output
  write_file_info info o = do
    o1 ← write_integer xul 32 info.blocks o
    o2 ← write_integer xul 32 info.size o1
    o3 ← write_integer xul 32 info.undo_size o2
    o4 ← write_integer xul 32 info.min_height o3
    o5 ← write_integer xul 32 info.max_height o4
    o6 ← write_integer xul 64 info.min_time o5
    write_integer xul 64 info.max_time o6
