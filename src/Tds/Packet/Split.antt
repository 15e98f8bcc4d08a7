-- ===== src/Tds/Packet/Split.antt =====
-- The messages that src/tds/tds_protocol.cpp cuts into packets: SQL batches, bulk loads, and any built
-- message before it is sent.
use mssql_extension.Prelude.{
  Bool, List, Option, Outcome, [], drop, false, fault, if◌then◌else◌, leb, length, ltb, none, ok,
  some, suc, take, zero, ℕ, ◌%◌, ◌++◌, ◌+◌, ◌-◌, ◌==◌, ◌>>=◌, ◌^◌, ◌∷◌,
}
use mssql_extension.Tds.Packet.{
  TdsPacket, append_payload, new_packet, set_end_of_message, tds_default_packet_size,
  tds_header_size,
}

abbrev pub sql_batch : ℕ
sql_batch = 0x01

abbrev pub bulk_load : ℕ
bulk_load = 0x07

-- `max_packet_size - TDS_HEADER_SIZE` on size_t, which wraps.
unfoldable pub max_payload_of : ℕ → ℕ
max_payload_of max_packet_size = (max_packet_size + (2 ^ 64 - 8)) % 2 ^ 64

-- One packet of the loop: END_OF_MESSAGE is cleared on all but the last.
unfoldable pub chunk_packet : ℕ → Bool → List ℕ → TdsPacket
chunk_packet packet_type is_last bytes =
    append_payload bytes (
      if is_last then new_packet packet_type else set_end_of_message false (new_packet packet_type))

-- `while (offset < payload.size())`, on the payload from `offset` on. BuildSqlBatchMultiPacket and
-- BuildBulkLoadMultiPacket have the same loop.
unfoldable pub split_loop : ℕ → ℕ → ℕ → List ℕ → Outcome ⊥ (List TdsPacket)
split_loop fuel packet_type max_payload [] = ok []
split_loop zero packet_type max_payload (b ∷ rest) = fault
split_loop (suc fuel) packet_type max_payload (b ∷ rest) =
    let left = length (b ∷ rest) in
    let chunk_size = if ltb left max_payload then left else max_payload in
    split_loop fuel packet_type max_payload (drop chunk_size (b ∷ rest)) >>= λ packets.
    ok (chunk_packet packet_type (leb left chunk_size) (take chunk_size (b ∷ rest)) ∷ packets)

-- The cap of SplitIntoPackets, guarded against a degenerate size.
unfoldable pub guarded_max_payload : ℕ → ℕ
guarded_max_payload max_packet_size =
    if ltb tds_header_size max_packet_size
    then max_packet_size - tds_header_size
    else tds_default_packet_size - tds_header_size

unfoldable pub split_into_packets : TdsPacket → ℕ → Outcome ⊥ (List TdsPacket)
split_into_packets message max_packet_size =
    let max_payload = guarded_max_payload max_packet_size in
    if leb (length message.payload) max_payload
    then ok (message ∷ [])
    else split_loop (length message.payload) message.packet_type max_payload message.payload

unfoldable pub build_bulk_load_multi_packet : List ℕ → ℕ → Outcome ⊥ (List TdsPacket)
build_bulk_load_multi_packet [] max_packet_size = ok []
build_bulk_load_multi_packet (b ∷ rest) max_packet_size =
    let max_payload = max_payload_of max_packet_size in
    if leb (length (b ∷ rest)) max_payload
    then ok (append_payload (b ∷ rest) (new_packet bulk_load) ∷ [])
    else split_loop (length (b ∷ rest)) bulk_load max_payload (b ∷ rest)

unfoldable pub descriptor_or_zeros : Option (List ℕ) → List ℕ
descriptor_or_zeros (some d) = d
descriptor_or_zeros none = 0 ∷ 0 ∷ 0 ∷ 0 ∷ 0 ∷ 0 ∷ 0 ∷ 0 ∷ []

-- The ALL_HEADERS of a batch: lengths 22 and 18, the header's type, the descriptor of the transaction
-- or zeros, and one request.
unfoldable pub all_headers : Option (List ℕ) → List ℕ
all_headers transaction_descriptor =
    22 ∷ 0 ∷ 0 ∷ 0 ∷ 18 ∷ 0 ∷ 0 ∷ 0 ∷ 2 ∷ 0 ∷ descriptor_or_zeros transaction_descriptor
    ++ (1 ∷ 0 ∷ 0 ∷ 0 ∷ [])

unfoldable pub split_batch : List ℕ → ℕ → Outcome ⊥ (List TdsPacket)
split_batch payload max_packet_size =
    let max_payload = max_payload_of max_packet_size in
    if leb (length payload) max_payload
    then ok (append_payload payload (new_packet sql_batch) ∷ [])
    else split_loop (length payload) sql_batch max_payload payload

-- `utf16le_encode` is Utf16LEEncode, which rests on simdutf.
module _ (utf16le_encode : List ℕ → List ℕ) where
  unfoldable pub build_sql_batch : List ℕ → Option (List ℕ) → TdsPacket
  build_sql_batch sql transaction_descriptor =
      append_payload (utf16le_encode sql)
        (append_payload (all_headers transaction_descriptor) (new_packet sql_batch))

  -- The text is "SELECT 1".
  unfoldable pub build_ping : TdsPacket
  build_ping = build_sql_batch (83 ∷ 69 ∷ 76 ∷ 69 ∷ 67 ∷ 84 ∷ 32 ∷ 49 ∷ []) none

  unfoldable pub build_sql_batch_multi_packet :
      List ℕ → ℕ → Option (List ℕ) → Outcome ⊥ (List TdsPacket)
  build_sql_batch_multi_packet sql max_packet_size transaction_descriptor =
      let sql_encoded = utf16le_encode sql in
      if length sql_encoded == 0
      then ok (build_ping ∷ [])
      else split_batch (all_headers transaction_descriptor ++ sql_encoded) max_packet_size
