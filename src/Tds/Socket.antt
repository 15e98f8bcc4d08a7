-- ===== src/Tds/Socket.antt =====
-- The frame assembly of src/tds/tds_socket.cpp: NextPacket, FillReceiveBuffer, ReceivePacket and
-- ReceiveMessage. What the peer and the network do is the list of what the reads bring; an empty read
-- is `received <= 0`, a timeout or an error, and so is the end of the list.
pub mod Frames
pub mod Messages
pub mod Safety
use mssql_extension.Prelude.{
  Bool, List, Option, Outcome, [], drop, false, fault, if◌then◌else◌, leb, length, ltb, none, ok,
  some, suc, take, true, zero, ℕ, ◌++◌, ◌>>=◌, ◌∷◌,
}
use mssql_extension.Tds.Packet.{
  PacketError, TdsPacket, get_packet_length, is_end_of_message, parse_packet, tds_header_size,
}

pub record Socket : Type 0 where
  -- receive_buffer_ from receive_pos_ to receive_len_
  pub buffered : List ℕ
  pub reads : List (List ℕ)

pub data FrameStep : Type 0 where
  wait malformed : FrameStep
  whole : ℕ → FrameStep

-- The check at the top of the loop.
unfoldable pub frame_step : List ℕ → Outcome PacketError FrameStep
frame_step buffered =
    if leb tds_header_size (length buffered)
    then (get_packet_length buffered >>= λ expected_length.
        if ltb expected_length tds_header_size
        then ok malformed
        else if leb expected_length (length buffered)
        then ok (whole expected_length)
        else ok wait)
    else ok wait

-- `more` is the rest of the loop, after a read.
unfoldable pub next_step :
    List ℕ
    → List (List ℕ)
    → Outcome PacketError (Option (List ℕ) × Socket)
    → FrameStep
    → Outcome PacketError (Option (List ℕ) × Socket)
next_step buffered reads more wait = more
next_step buffered reads more malformed = ok (none, record { buffered = buffered; reads = reads })
next_step buffered reads more (whole n) =
    ok (some (take n buffered), record { buffered = drop n buffered; reads = reads })

-- NextPacket: `none` is `nullptr`. Each round makes one read.
unfoldable pub next_packet : List ℕ → List (List ℕ) → Outcome PacketError (Option (List ℕ) × Socket)
next_packet buffered [] =
    frame_step buffered
    >>= next_step buffered [] (ok (none, record { buffered = buffered; reads = [] }))
next_packet buffered ([] ∷ reads) =
    frame_step buffered
    >>= next_step buffered ([] ∷ reads) (ok (none, record { buffered = buffered; reads = reads }))
next_packet buffered ((b ∷ bytes) ∷ reads) =
    let more = next_packet (buffered ++ (b ∷ bytes)) reads in
    frame_step buffered >>= next_step buffered ((b ∷ bytes) ∷ reads) more

-- `Parse(...) > 0`
unfoldable pub parsed_packet : Option (ℕ × TdsPacket) → Option TdsPacket
parsed_packet none = none
parsed_packet (some (n, packet)) = some packet

unfoldable pub parse_frame :
    Option (List ℕ) × Socket → Outcome PacketError (Option TdsPacket × Socket)
parse_frame (none, socket) = ok (none, socket)
parse_frame (some head, socket) = parse_packet head >>= λ parsed. ok (parsed_packet parsed, socket)

-- ReceivePacket: `none` is `return false`.
unfoldable pub receive_packet : Socket → Outcome PacketError (Option TdsPacket × Socket)
receive_packet socket = next_packet socket.buffered socket.reads >>= parse_frame

-- The loop of ReceiveMessage after ReceivePacket: the Boolean is what the function returns.
unfoldable pub receive_more :
    List ℕ
    → (List ℕ → Socket → Outcome PacketError (Bool × List ℕ × Socket))
    → Option TdsPacket × Socket
    → Outcome PacketError (Bool × List ℕ × Socket)
receive_more message go_on (none, socket) = ok (false, message, socket)
receive_more message go_on (some packet, socket) =
    if is_end_of_message packet
    then ok (true, message ++ packet.payload, socket)
    else go_on (message ++ packet.payload) socket

unfoldable pub receive_loop : ℕ → List ℕ → Socket → Outcome PacketError (Bool × List ℕ × Socket)
receive_loop zero message socket = fault
receive_loop (suc fuel) message socket =
    receive_packet socket >>= receive_more message (receive_loop fuel)

abbrev pub incoming : List (List ℕ) → List ℕ
incoming [] = []
incoming (bytes ∷ reads) = bytes ++ incoming reads

-- The bytes that are still to be taken from the socket.
abbrev pub pending : Socket → List ℕ
pending socket = socket.buffered ++ incoming socket.reads

-- Every packet takes eight bytes at least.
unfoldable pub receive_message : Socket → Outcome PacketError (Bool × List ℕ × Socket)
receive_message socket = receive_loop (suc (length (pending socket))) [] socket
