-- ===== src/Tds/Socket/Messages.antt =====
-- ReceiveMessage of src/tds/tds_socket.cpp gives back the message that src/tds/tds_protocol.cpp has cut
-- into packets.
use mssql_extension.Prelude.{
  All, Bool, Ensures, List, Outcome, [], ap, append_assoc, append-nil, arith, false, length,
  length-append, ok, refl, some, subst, suc, sym, true, zero, ℕ, ◌++◌, ◌+◌, ◌<◌, ◌∙◌, ◌∷◌, ◌≡◌, ◌≤◌,
}
use mssql_extension.Tds.Packet.{
  IsPacket, PacketError, TdsPacket, is_end_of_message, parse_packet, serialize, tds_header_size,
  tds_max_packet_size,
}
use mssql_extension.Tds.Packet.Split.{guarded_max_payload, split_into_packets}
use mssql_extension.Tds.Packet.SplitLaws.{
  IsChunk, IsFramed, IsSplit, join_payloads, split_into_packets-IsSplit,
}
use mssql_extension.Tds.Packet.Wire.{length-serialize, parse_packet-serialize}
use mssql_extension.Tds.Socket.{
  Socket, parse_frame, parsed_packet, pending, receive_loop, receive_message, receive_more,
  receive_packet,
}
use mssql_extension.Tds.Socket.Frames.{IsData, next_packet-serialize}

abbrev pub wire : List TdsPacket → List ℕ
wire [] = []
wire (p ∷ ps) = serialize p ++ wire ps

abbrev pub IsSendable : TdsPacket → Type 0
IsSendable p = IsPacket p × (tds_header_size + length p.payload ≤ tds_max_packet_size)

-- The last packet alone ends the message.
abbrev pub IsMessage : List TdsPacket → Type 0
IsMessage [] = ⊥
IsMessage (p ∷ []) = is_end_of_message p ≡ true
IsMessage (p ∷ q ∷ ps) = (is_end_of_message p ≡ false) × IsMessage (q ∷ ps)

receive_packet-serialize :
    (p : TdsPacket) (socket : Socket) (rest : List ℕ)
    → IsSendable p
    → All IsData socket.reads
    → pending socket ≡ serialize p ++ rest
    → (s : Socket) × (receive_packet socket ≡ ok (some p, s))
      × (pending s ≡ rest)
      × All IsData s.reads
unfolding receive_packet parse_frame parsed_packet
receive_packet-serialize p socket rest (ip, small) d e =
    let (s, got, left, ds) = next_packet-serialize p small socket.buffered rest socket.reads d e in
    let parsed : parse_packet (serialize p) ≡ ok (some (tds_header_size + length p.payload, p)) =
      ap parse_packet (sym (append-nil (serialize p))) ∙ parse_packet-serialize p [] ip small in
    (s, rw got (rw parsed refl), left, ds)

-- A run of the loop that has taken the whole message.
abbrev pub Received : List ℕ → List ℕ → Outcome PacketError (Bool × List ℕ × Socket) → Type 0
Received message rest result =
    (s : Socket) × (result ≡ ok (true, message, s)) × (pending s ≡ rest) × All IsData s.reads

receive_loop-wire :
    (fuel : ℕ) (message rest : List ℕ) (packets : List TdsPacket) (socket : Socket)
    → length packets < fuel
    → IsMessage packets
    → All IsSendable packets
    → All IsData socket.reads
    → pending socket ≡ wire packets ++ rest
    → Received (message ++ join_payloads packets) rest (receive_loop fuel message socket)
unfolding receive_loop receive_more
receive_loop-wire zero message rest packets socket f m all d e = absurd (omega arith)
receive_loop-wire (suc fuel) message rest [] socket f m all d e = absurd m
receive_loop-wire (suc fuel) message rest (p ∷ []) socket f m (sp, _) d e =
    let (s, got, left, ds) =
      receive_packet-serialize p socket ([] ++ rest) sp d
        (e ∙ append_assoc (serialize p) [] rest) in
    (s, rw got (rw m (ap (λ x. ok (true, message ++ x, s)) (sym (append-nil p.payload)))), left, ds)
receive_loop-wire (suc fuel) message rest (p ∷ q ∷ ps) socket f (more, m) (sp, all) d e =
    let (s, got, left, ds) =
      receive_packet-serialize p socket (wire (q ∷ ps) ++ rest) sp d
        (e ∙ append_assoc (serialize p) (wire (q ∷ ps)) rest) in
    let (s', got', left', ds') =
      receive_loop-wire fuel (message ++ p.payload) rest (q ∷ ps) s (omega arith) m all ds left in
    (
      s',
      rw got (
          rw more (
            got'
            ∙ ap (λ x. ok (true, x, s'))
                (append_assoc message p.payload (join_payloads (q ∷ ps))))),
      left',
      ds',
    )

length-wire : (packets : List TdsPacket) → length packets ≤ length (wire packets)
length-wire [] = omega arith
length-wire (p ∷ ps) =
    omega (arith, length-append (serialize p) (wire ps), length-serialize p, length-wire ps)

-- For packets none of which is longer than the largest, and of which the last alone ends the message:
-- however the network cuts their bytes into reads, none of them empty, and whatever follows them,
-- ReceiveMessage returns the payloads joined, and leaves what follows for the next call.
pub receive_message-wire :
    (packets : List TdsPacket) (socket : Socket) (rest : List ℕ)
    → IsMessage packets
    → All IsSendable packets
    → All IsData socket.reads
    → pending socket ≡ wire packets ++ rest
    → Received (join_payloads packets) rest (receive_message socket)
unfolding receive_message
receive_message-wire packets socket rest m all d e =
    receive_loop-wire _ [] rest packets socket
      (omega (arith, ap length e, length-append (wire packets) rest, length-wire packets)) m all d e

IsFramed-IsMessage :
    (m : ℕ) (p : TdsPacket) (ps : List TdsPacket) → IsFramed m (p ∷ ps) → IsMessage (p ∷ ps)
IsFramed-IsMessage m p [] h = h
IsFramed-IsMessage m p (q ∷ ps) (a, _, h) = (a, IsFramed-IsMessage m q ps h)

IsChunk-IsSendable :
    (t m : ℕ) (ps : List TdsPacket)
    → tds_header_size + m ≤ tds_max_packet_size
    → All (IsChunk t m) ps
    → All IsSendable ps
IsChunk-IsSendable t m [] h all = tt
IsChunk-IsSendable t m (p ∷ ps) h ((_, l, ip), all) =
    ((ip, omega arith), IsChunk-IsSendable t m ps h all)

guarded_max_payload_max :
    (size : ℕ)
    → size ≤ tds_max_packet_size
    → tds_header_size + guarded_max_payload size ≤ tds_max_packet_size
unfolding guarded_max_payload
guarded_max_payload_max size h = ground arith

split_IsMessage :
    (message : TdsPacket) (size : ℕ) (packets : List TdsPacket)
    → split_into_packets message size ≡ ok packets
    → join_payloads packets ≡ message.payload
    → IsFramed (guarded_max_payload size) packets
    → IsMessage packets
unfolding split_into_packets
split_IsMessage message size (p ∷ ps) split joined framed =
    IsFramed-IsMessage (guarded_max_payload size) p ps framed
split_IsMessage message size [] split joined framed =
    let empty : length message.payload ≡ 0 = ap length (sym joined) in
    absurd (ground (arith, empty, split))

-- A message that ends itself, split for a packet size that is no larger than the largest, is received whole by the other
-- side, however the network cuts its bytes into reads, none of them empty, and whatever follows them.
pub receive_message-split_into_packets :
    (message : TdsPacket) (max_packet_size : ℕ) (packets : List TdsPacket) (socket : Socket)
    (rest : List ℕ)
    → IsPacket message
    → is_end_of_message message ≡ true
    → max_packet_size ≤ tds_max_packet_size
    → split_into_packets message max_packet_size ≡ ok packets
    → All IsData socket.reads
    → pending socket ≡ wire packets ++ rest
    → Received message.payload rest (receive_message socket)
receive_message-split_into_packets message size packets socket rest ip eom small split d e =
    let (joined, chunks, framed) =
      subst (Ensures (IsSplit message.packet_type (guarded_max_payload size) message.payload)) split
        (split_into_packets-IsSplit message size ip eom) in
    let m = split_IsMessage message size packets split joined framed in
    let sendable =
      IsChunk-IsSendable message.packet_type (guarded_max_payload size) packets
        (guarded_max_payload_max size small) chunks in
    subst (λ x. Received x rest (receive_message socket)) joined
      (receive_message-wire packets socket rest m sendable d e)
