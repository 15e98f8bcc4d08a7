-- ===== src/Tds/Packet/SplitLaws.antt =====
-- The packets of src/tds/tds_protocol.cpp carry the message: all of it, in order, in packets of the
-- given size, of which the last alone ends the message.
use mssql_extension.Prelude.{
  All, Ensures, List, Option, Outcome, [], ap, append-nil, arith, drop, drop_all, false, fault,
  if◌then◌else◌, leb, length, length-drop, length-take_le, ltb, ok, refl, suc, take,
  take-append-drop, take_all, throw, true, zero, ℕ, ◌++◌, ◌-◌, ◌<◌, ◌==◌, ◌>>=◌, ◌^◌, ◌∙◌, ◌∷◌, ◌≡◌,
  ◌≢◌, ◌≤◌,
}
use mssql_extension.Tds.Packet.{
  IsPacket, TdsPacket, append_payload, is_end_of_message, new_packet, set_end_of_message,
  tds_header_size,
}
use mssql_extension.Tds.Packet.Split.{
  all_headers, build_bulk_load_multi_packet, build_sql_batch_multi_packet, bulk_load, chunk_packet,
  guarded_max_payload, max_payload_of, split_batch, split_into_packets, split_loop, sql_batch,
}
use native.Mathlib.Decide.{dec_le, dec_lt}

abbrev pub join_payloads : List TdsPacket → List ℕ
join_payloads [] = []
join_payloads (p ∷ ps) = p.payload ++ join_payloads ps

-- Every packet but the last is full and leaves the message open; the last ends it.
abbrev pub IsFramed : ℕ → List TdsPacket → Type 0
IsFramed max_payload [] = Unit {0}
IsFramed max_payload (p ∷ []) = is_end_of_message p ≡ true
IsFramed max_payload (p ∷ q ∷ ps) =
    (is_end_of_message p ≡ false) × (length p.payload ≡ max_payload) × IsFramed max_payload (q ∷ ps)

abbrev pub IsChunk : ℕ → ℕ → TdsPacket → Type 0
IsChunk packet_type max_payload p =
    (p.packet_type ≡ packet_type) × (length p.payload ≤ max_payload) × IsPacket p

-- What the builders promise of the packets for a payload.
abbrev pub IsSplit : ℕ → ℕ → List ℕ → List TdsPacket → Type 0
IsSplit packet_type max_payload payload packets =
    (join_payloads packets ≡ payload)
    × All (IsChunk packet_type max_payload) packets
    × IsFramed max_payload packets

last_chunk :
    (t m : ℕ) (bytes : List ℕ)
    → length bytes ≤ m
    → IsSplit t m bytes (chunk_packet t true bytes ∷ [])
unfolding chunk_packet append_payload new_packet is_end_of_message
last_chunk t m bytes h = (append-nil bytes, ((refl, h, omega arith), tt), refl)

more_chunks :
    (t m : ℕ) (payload : List ℕ) (packets : List TdsPacket)
    → m < length payload
    → IsSplit t m (drop m payload) packets
    → IsSplit t m payload (chunk_packet t false (take m payload) ∷ packets)
unfolding chunk_packet append_payload new_packet set_end_of_message is_end_of_message
more_chunks t m payload [] h (e, _, _) = absurd (omega (arith, ap length e, length-drop m payload))
more_chunks t m payload (q ∷ ps) h (e, all, framed) =
    let full = length-take_le m payload (omega arith) in
    (
      ap (λ r. take m payload ++ r) e ∙ take-append-drop m payload,
      ((refl, omega arith, omega arith), all),
      (refl, full, framed),
    )

-- The result of the loop, by its first packet and the packets of the rest.
chunk_then :
    (t m : ℕ) (payload : List ℕ) (packets : Outcome ⊥ (List TdsPacket))
    → m < length payload
    → Ensures (IsSplit t m (drop m payload)) packets
    → Ensures
        (IsSplit t m payload)
        (packets >>= λ ps. ok (chunk_packet t false (take m payload) ∷ ps))
chunk_then t m payload (ok ps) h s = more_chunks t m payload ps h s
chunk_then t m payload (throw e) h s = tt
chunk_then t m payload fault h s = s

split_loop_nil : (fuel t m : ℕ) → split_loop fuel t m [] ≡ ok []
unfolding split_loop
split_loop_nil fuel t m = refl

split_loop_last :
    (fuel t m b : ℕ) (rest : List ℕ)
    → length (b ∷ rest) ≤ m
    → split_loop (suc fuel) t m (b ∷ rest) ≡ ok (chunk_packet t true (b ∷ rest) ∷ [])
unfolding split_loop
split_loop_last fuel t m b rest h =
    let size : (if ltb (length (b ∷ rest)) m then length (b ∷ rest) else m) ≡ length (b ∷ rest) =
      ground arith in
    let is_last : leb (length (b ∷ rest)) (length (b ∷ rest)) ≡ true = ground arith in
    rw (size) (rw (is_last) (rw (drop_all (b ∷ rest)) (rw (take_all (b ∷ rest)) refl)))

split_loop_more :
    (fuel t m b : ℕ) (rest : List ℕ)
    → m < length (b ∷ rest)
    → split_loop (suc fuel) t m (b ∷ rest) ≡ (
        split_loop fuel t m (drop m (b ∷ rest)) >>= λ packets.
        ok (chunk_packet t false (take m (b ∷ rest)) ∷ packets))
unfolding split_loop
split_loop_more fuel t m b rest h =
    let size : (if ltb (length (b ∷ rest)) m then length (b ∷ rest) else m) ≡ m = ground arith in
    let is_last : leb (length (b ∷ rest)) m ≡ false = ground arith in rw (size) (rw (is_last) refl)

pub split_loop-IsSplit :
    (fuel t m : ℕ) (payload : List ℕ)
    → 1 ≤ m
    → length payload ≤ fuel
    → Ensures (IsSplit t m payload) (split_loop fuel t m payload)
split_loop-IsSplit fuel t m [] h1 h2 = rw (split_loop_nil fuel t m) (refl, tt, tt)
split_loop-IsSplit zero t m (b ∷ rest) h1 h2 = absurd (omega arith)
split_loop-IsSplit (suc fuel) t m (b ∷ rest) h1 h2 = elim (dec_lt m (length (b ∷ rest))) [
  | yes more ↦ rw (split_loop_more fuel t m b rest more) (
      chunk_then t m (b ∷ rest) _ more (
        split_loop-IsSplit fuel t m (drop m (b ∷ rest)) h1
          (omega (arith, length-drop m (b ∷ rest)))))
  | no whole ↦
      rw (split_loop_last fuel t m b rest (omega arith)) (last_chunk t m (b ∷ rest) (omega arith))
]

whole_or_loop-IsSplit :
    (t m : ℕ) (payload : List ℕ) (p : TdsPacket)
    → 1 ≤ m
    → IsPacket p
    → (p.packet_type ≡ t) × (p.payload ≡ payload) × (is_end_of_message p ≡ true)
    → Ensures
        (IsSplit t m payload)
        (if leb (length payload) m then ok (p ∷ []) else split_loop (length payload) t m payload)
whole_or_loop-IsSplit t m payload p pos ip (et, ep, eom) = elim (dec_le (length payload) m) [
  | yes fits ↦
      let test : leb (length payload) m ≡ true = ground arith in
      rw test (append-nil p.payload ∙ ep, ((et, omega (arith, ap length ep), ip), tt), eom)
  | no long ↦
      let test : leb (length payload) m ≡ false = ground arith in
      rw test (split_loop-IsSplit (length payload) t m payload pos (omega arith))
]

guarded_max_payload_pos : (size : ℕ) → 1 ≤ guarded_max_payload size
unfolding guarded_max_payload
guarded_max_payload_pos size = ground arith

-- A message that ends itself is cut into packets that carry its payload, all of it and in order, each
-- of its type and within the cap, whatever the size asked for: all but the last are full and leave the
-- message open, and the last ends it.
pub split_into_packets-IsSplit :
    (message : TdsPacket) (max_packet_size : ℕ)
    → IsPacket message
    → is_end_of_message message ≡ true
    → Ensures
        (IsSplit message.packet_type (guarded_max_payload max_packet_size) message.payload)
        (split_into_packets message max_packet_size)
unfolding split_into_packets
split_into_packets-IsSplit message size ip eom =
    whole_or_loop-IsSplit message.packet_type (guarded_max_payload size) message.payload message
      (guarded_max_payload_pos size) ip (refl, refl, eom)

max_payload_of_lem :
    (size : ℕ)
    → tds_header_size < size
    → size < 2 ^ 64
    → max_payload_of size ≡ size - tds_header_size
unfolding max_payload_of
max_payload_of_lem size h1 h2 = omega arith

-- The payload of a bulk load is cut in the same way when the packet size is larger than the header.
pub build_bulk_load_multi_packet-IsSplit :
    (payload : List ℕ) (max_packet_size : ℕ)
    → tds_header_size < max_packet_size
    → max_packet_size < 2 ^ 64
    → Ensures
        (IsSplit bulk_load (max_packet_size - tds_header_size) payload)
        (build_bulk_load_multi_packet payload max_packet_size)
unfolding build_bulk_load_multi_packet append_payload new_packet is_end_of_message
build_bulk_load_multi_packet-IsSplit [] size h1 h2 = (refl, tt, tt)
build_bulk_load_multi_packet-IsSplit (b ∷ rest) size h1 h2 = rw (max_payload_of_lem size h1 h2) (
    whole_or_loop-IsSplit bulk_load (size - tds_header_size) (b ∷ rest) _ (omega arith)
      (omega arith) (refl, refl, refl))

not_empty : (xs : List ℕ) → xs ≢ [] → (length xs == 0) ≡ false
not_empty [] h = absurd (h refl)
not_empty (x ∷ xs) h = ground arith

split_batch-IsSplit :
    (payload : List ℕ) (max_packet_size : ℕ)
    → tds_header_size < max_packet_size
    → max_packet_size < 2 ^ 64
    → Ensures
        (IsSplit sql_batch (max_packet_size - tds_header_size) payload)
        (split_batch payload max_packet_size)
unfolding split_batch append_payload new_packet is_end_of_message
split_batch-IsSplit payload size h1 h2 = rw (max_payload_of_lem size h1 h2) (
    whole_or_loop-IsSplit sql_batch (size - tds_header_size) payload _ (omega arith) (omega arith)
      (refl, refl, refl))

-- For any encoding of the text, a batch whose encoded text is not empty, with a packet size that is
-- larger than the header and fits in 64 bits, is built as packets of a batch that carry ALL_HEADERS
-- and the encoded text, all of it and in order, no packet larger than that size: all but the last are
-- full and leave the message open, and the last ends it.
pub build_sql_batch_multi_packet-IsSplit :
    (utf16le_encode : List ℕ → List ℕ) (sql : List ℕ) (max_packet_size : ℕ)
    (transaction_descriptor : Option (List ℕ))
    → utf16le_encode sql ≢ []
    → tds_header_size < max_packet_size
    → max_packet_size < 2 ^ 64
    → Ensures
        (IsSplit sql_batch
          (max_packet_size - tds_header_size)
          (all_headers transaction_descriptor ++ utf16le_encode sql))
        (build_sql_batch_multi_packet utf16le_encode sql max_packet_size transaction_descriptor)
unfolding build_sql_batch_multi_packet
build_sql_batch_multi_packet-IsSplit encode sql size td h h1 h2 =
    let test : (length (encode sql) == 0) ≡ false = not_empty (encode sql) h in
    rw test (split_batch-IsSplit (all_headers td ++ encode sql) size h1 h2)
