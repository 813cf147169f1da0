-- ===== src/Data/Block/RoundTrip.antt =====
-- Headers, blocks, index entries and file statistics are read back from what was written.
use xbtc.Base.{
  ℕ, ◌^◌, ◌<◌, ◌≡◌, refl, ◌∙◌, ap, some, if◌then◌else◌, List, ◌++◌, arith, append_assoc,
}
use xbtc.Stream.{Streams, Reads, Parses, Emits, Reads-then, Emits-chain, little_endian}
use xbtc.Serial.{int_max, uint32_max, read_integer, write_integer}
use xbtc.Serial.Compact.{read_uint-Parses}
use xbtc.Serial.VarInt.{integer_bytes}
use xbtc.Data.Block.{BlockHeader, BlockIndexData}
use xbtc.Data.Block.Integers.{
  if_bytes, Succeeds, Succeeds-chain, write_32-Succeeds, read_32-Parses, write_if-Succeeds,
  read_if-Parses,
}
use xbtc.Data.Block.Codec.{
  read_header, write_header, read_if, write_if, has_file, has_data, has_undo, read_index,
  write_index, client_version,
}

-- The 80 bytes that are hashed and sent.
unfoldable pub header_bytes : BlockHeader → List ℕ
header_bytes h =
    little_endian 4 h.version
    ++ little_endian 32 h.previous_block_hash
    ++ little_endian 32 h.merkle_root_hash
    ++ little_endian 4 h.timestamp
    ++ little_endian 4 h.bits
    ++ little_endian 4 h.nonce

pub record IsWireHeader (h : BlockHeader) : Type 0 where
  pub version_range : h.version < 2 ^ 32
  pub previous_range : h.previous_block_hash < 256 ^ 32
  pub merkle_range : h.merkle_root_hash < 256 ^ 32
  pub timestamp_range : h.timestamp < 2 ^ 32
  pub bits_range : h.bits < 2 ^ 32
  pub nonce_range : h.nonce < 2 ^ 32

pub record IsWireIndex (b : BlockIndexData) : Type 0 where
  pub wire_header : IsWireHeader b.header
  pub height_range : b.height < 2 ^ 31
  pub status_range : b.status < 2 ^ 32
  pub count_range : b.transaction_count < 2 ^ 32
  pub file_range : b.file_index < 2 ^ 31
  pub data_range : b.data_position < 2 ^ 32
  pub undo_range : b.undo_position < 2 ^ 32

module _ (xul : Streams) where
  open xul use {
    Input, Output, bytes, written, read_uint, write_uint, write_bytes, written-write_uint,
    written-write_bytes, open_output, written-open_output,
  }

  pub read_header-Parses :
      (old h : BlockHeader)
      → IsWireHeader h
      → Parses xul (read_header xul old) (record h { hash = old.hash }) (header_bytes h)
  unfolding read_header header_bytes
  read_header-Parses old h w s rest e =
      let h' : BlockHeader = record h { hash = old.hash } in
      Reads-then xul (read_uint 4) _ h.version h' (little_endian 4 h.version) _ rest s
        (read_uint-Parses xul 4 h.version w.version_range) (simp append_assoc at e)
        λ s1 e1.
          Reads-then xul (read_uint 32) _ h.previous_block_hash h'
            (little_endian 32 h.previous_block_hash) _ rest s1
            (read_uint-Parses xul 32 h.previous_block_hash w.previous_range) e1
            λ s2 e2.
              Reads-then xul (read_uint 32) _ h.merkle_root_hash h'
                (little_endian 32 h.merkle_root_hash) _ rest s2
                (read_uint-Parses xul 32 h.merkle_root_hash w.merkle_range) e2
                λ s3 e3.
                  Reads-then xul (read_uint 4) _ h.timestamp h' (little_endian 4 h.timestamp) _ rest
                    s3 (read_uint-Parses xul 4 h.timestamp w.timestamp_range) e3
                    λ s4 e4.
                      Reads-then xul (read_uint 4) _ h.bits h' (little_endian 4 h.bits) _ rest s4
                        (read_uint-Parses xul 4 h.bits w.bits_range) e4
                        λ s5 e5.
                          Reads-then xul (read_uint 4) _ h.nonce h' (little_endian 4 h.nonce) rest
                            rest s5 (read_uint-Parses xul 4 h.nonce w.nonce_range) e5
                            (λ s6 e6. (refl, e6))

  -- One more number behind what a writer puts.
  then_uint :
      (k v : ℕ) (f : Output → Output) (xs : List ℕ)
      → Emits xul f xs
      → Emits xul (λ o. write_uint k v (f o)) (xs ++ little_endian k v)
  then_uint k v f xs p =
      Emits-chain xul f (write_uint k v) xs (little_endian k v) p (written-write_uint k v)

  pub write_header-Emits : (h : BlockHeader) → Emits xul (write_header xul h) (header_bytes h)
  unfolding write_header header_bytes
  write_header-Emits h = then_uint 4 h.nonce _ _ (
      then_uint 4 h.bits _ _ (
        then_uint 4 h.timestamp _ _ (
          then_uint 32 h.merkle_root_hash _ _
            (then_uint 32 h.previous_block_hash _ _ (written-write_uint 4 h.version)))))

  -- What write_object puts for an index entry.
  abbrev pub index_bytes : BlockIndexData → List ℕ
  index_bytes b =
      integer_bytes 32 client_version
      ++ (integer_bytes 32 b.height
          ++ (integer_bytes 32 b.status
              ++ (integer_bytes 32 b.transaction_count
                  ++ (if_bytes (has_file xul b.status) (integer_bytes 32 b.file_index)
                      ++ (if_bytes (has_data xul b.status) (integer_bytes 32 b.data_position)
                          ++ (if_bytes (has_undo xul b.status) (integer_bytes 32 b.undo_position)
                              ++ header_bytes b.header))))))

  write_header-Succeeds :
      (h : BlockHeader) → Succeeds xul (λ o. some (write_header xul h o)) (header_bytes h)
  write_header-Succeeds h o = (write_header xul h o, refl, write_header-Emits h o)

  pub write_index-Succeeds :
      (b : BlockIndexData) → IsWireIndex b → Succeeds xul (write_index xul b) (index_bytes b)
  unfolding write_index
  write_index-Succeeds b w =
      Succeeds-chain xul (write_integer xul 32 client_version) _ _ _
        (write_32-Succeeds xul client_version (omega arith))
        (Succeeds-chain xul (write_integer xul 32 b.height) _ _ _
          (write_32-Succeeds xul b.height (omega arith))
          (Succeeds-chain xul (write_integer xul 32 b.status) _ _ _
            (write_32-Succeeds xul b.status w.status_range)
            (Succeeds-chain xul (write_integer xul 32 b.transaction_count) _ _ _
              (write_32-Succeeds xul b.transaction_count w.count_range)
              (Succeeds-chain xul (write_if xul (has_file xul b.status) 32 b.file_index) _ _ _
                (write_if-Succeeds xul (has_file xul b.status) b.file_index (omega arith))
                (Succeeds-chain xul (write_if xul (has_data xul b.status) 32 b.data_position) _ _ _
                  (write_if-Succeeds xul (has_data xul b.status) b.data_position w.data_range)
                  (Succeeds-chain xul (write_if xul (has_undo xul b.status) 32 b.undo_position) _ _
                    _ (write_if-Succeeds xul (has_undo xul b.status) b.undo_position w.undo_range)
                    (write_header-Succeeds b.header)))))))

  -- What is read into an entry `old`: a field that the status leaves out keeps the value of `old`.
  abbrev pub restored : BlockIndexData → BlockIndexData → BlockIndexData
  restored old b = record b {
    header = record (b.header) { hash = old.header.hash };
    file_index = if has_file xul b.status then b.file_index else old.file_index;
    data_position = if has_data xul b.status then b.data_position else old.data_position;
    undo_position = if has_undo xul b.status then b.undo_position else old.undo_position;
  }

  pub read_index-Parses :
      (old b : BlockIndexData)
      → IsWireIndex b
      → Parses xul (read_index xul old) (restored old b) (index_bytes b)
  unfolding read_index
  read_index-Parses old b w s rest e =
      let r : BlockIndexData = restored old b in
      Reads-then xul (read_integer xul int_max) _ client_version r (integer_bytes 32 client_version)
        _ rest s (read_32-Parses xul int_max client_version (omega arith) (omega arith))
        (simp append_assoc at e)
        λ s1 e1.
          Reads-then xul (read_integer xul int_max) _ b.height r (integer_bytes 32 b.height) _ rest
            s1 (read_32-Parses xul int_max b.height (omega arith) (omega arith)) e1
            λ s2 e2.
              Reads-then xul (read_integer xul uint32_max) _ b.status r (integer_bytes 32 b.status)
                _ rest s2 (read_32-Parses xul uint32_max b.status (omega arith) w.status_range) e2
                λ s3 e3.
                  Reads-then xul (read_integer xul uint32_max) _ b.transaction_count r
                    (integer_bytes 32 b.transaction_count) _ rest s3
                    (read_32-Parses xul uint32_max b.transaction_count (omega arith) w.count_range)
                    e3
                    λ s4 e4.
                      Reads-then xul (read_if xul (has_file xul b.status) int_max old.file_index) _
                        r.file_index r
                        (if_bytes (has_file xul b.status) (integer_bytes 32 b.file_index)) _ rest s4
                        (read_if-Parses xul (has_file xul b.status) int_max old.file_index
                          b.file_index (omega arith) (omega arith))
                        e4
                        λ s5 e5.
                          Reads-then xul
                            (read_if xul (has_data xul b.status) uint32_max old.data_position) _
                            r.data_position r
                            (if_bytes (has_data xul b.status) (integer_bytes 32 b.data_position)) _
                            rest s5
                            (read_if-Parses xul (has_data xul b.status) uint32_max old.data_position
                              b.data_position (omega arith) w.data_range)
                            e5
                            λ s6 e6.
                              Reads-then xul
                                (read_if xul (has_undo xul b.status) uint32_max old.undo_position) _
                                r.undo_position r
                                (if_bytes (has_undo xul b.status)
                                  (integer_bytes 32 b.undo_position))
                                _ rest s6
                                (read_if-Parses xul (has_undo xul b.status) uint32_max
                                  old.undo_position b.undo_position (omega arith) w.undo_range)
                                e6
                                λ s7 e7.
                                  Reads-then xul (read_header xul old.header) _ r.header r
                                    (header_bytes b.header) _ rest s7
                                    (read_header-Parses old.header b.header w.wire_header) e7
                                    (λ s8 e8. (refl, e8))

  -- An index entry in range can be written, and is read back from the bytes that are written; a
  -- field that the status leaves out and the hash keep the values of the entry that is read into.
  pub read_index-write_index :
      (old b : BlockIndexData) (s : Input) (rest : List ℕ)
      → IsWireIndex b
      → bytes s ≡ index_bytes b ++ rest
      → ((o : Output) × (write_index xul b open_output ≡ some o) × (written o ≡ index_bytes b))
        × Reads xul (read_index xul old s) (restored old b) rest
  read_index-write_index old b s rest w h =
      let (o, e, f) = write_index-Succeeds b w open_output in
      (
        (o, e, f ∙ ap (λ x. x ++ index_bytes b) written-open_output),
        read_index-Parses old b w s rest h,
      )
