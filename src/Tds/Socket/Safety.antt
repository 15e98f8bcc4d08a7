-- ===== src/Tds/Socket/Safety.antt =====
-- ReceiveMessage of src/tds/tds_socket.cpp on any stream.
use mssql_extension.Prelude.{
  Bool, Bool-cases, Ensures, List, Option, Outcome, [], append_assoc, arith, drop, fault, inl, inr,
  length, length-append, length-drop, none, ok, refl, some, subst, suc, throw, zero, ℕ, ◌++◌, ◌+◌,
  ◌<◌, ◌>>=◌, ◌∷◌, ◌≡◌, ◌≢◌, ◌≤◌,
}
use mssql_extension.Tds.Packet.{
  IsParseResult, PacketError, TdsPacket, get_packet_length, is_end_of_message, parse_packet,
  tds_header_size,
}
use mssql_extension.Tds.Packet.Wire.{parse_packet-IsParseResult}
use mssql_extension.Tds.Socket.{
  FrameStep, Socket, frame_step, incoming, malformed, next_packet, next_step, parse_frame,
  parsed_packet, pending, receive_loop, receive_message, receive_more, receive_packet, wait, whole,
}
use native.Mathlib.Decide.{dec_lt}

abbrev StepFits : List ℕ → FrameStep → Type 0
StepFits buffered wait = Unit {0}
StepFits buffered malformed = Unit {0}
StepFits buffered (whole n) = (tds_header_size ≤ n) × (n ≤ length buffered)

-- A frame that was taken, by the bytes that were there before.
abbrev IsTaken : ℕ → Option (List ℕ) × Socket → Type 0
IsTaken before (none, s) = Unit {0}
IsTaken before (some head, s) = tds_header_size + length (pending s) ≤ before

get_packet_length_total :
    (buf : List ℕ) → tds_header_size ≤ length buf → (n : ℕ) × (get_packet_length buf ≡ ok n)
unfolding get_packet_length
get_packet_length_total [] h = absurd (omega arith)
get_packet_length_total (a ∷ []) h = absurd (omega arith)
get_packet_length_total (a ∷ b ∷ []) h = absurd (omega arith)
get_packet_length_total (a ∷ b ∷ c ∷ []) h = absurd (omega arith)
get_packet_length_total (a ∷ b ∷ c ∷ d ∷ rest) h = (_, refl)

frame_step-StepFits : (buffered : List ℕ) → Ensures (StepFits buffered) (frame_step buffered)
unfolding frame_step
frame_step-StepFits buffered = elim (dec_lt (length buffered) tds_header_size) [
  | yes short ↦ ground arith
  | no enough ↦ let (n, e) = get_packet_length_total buffered (omega arith) in ground (arith, e)
]

next_step-IsTaken :
    (buffered : List ℕ) (reads : List (List ℕ))
    (more : Outcome PacketError (Option (List ℕ) × Socket)) (step : Outcome PacketError FrameStep)
    → Ensures (StepFits buffered) step
    → Ensures (IsTaken (length (buffered ++ incoming reads))) more
    → Ensures
        (IsTaken (length (buffered ++ incoming reads)))
        (step >>= next_step buffered reads more)
unfolding next_step
next_step-IsTaken buffered reads more (ok wait) h m = m
next_step-IsTaken buffered reads more (ok malformed) h m = tt
next_step-IsTaken buffered reads more (ok (whole n)) (h8, hn) m = omega (
  arith,
  length-append (drop n buffered) (incoming reads),
  length-append buffered (incoming reads),
  length-drop n buffered,
)
next_step-IsTaken buffered reads more (throw e) h m = tt
next_step-IsTaken buffered reads more fault h m = h

next_packet-IsTaken :
    (buffered : List ℕ) (reads : List (List ℕ))
    → Ensures (IsTaken (length (buffered ++ incoming reads))) (next_packet buffered reads)
unfolding next_packet
next_packet-IsTaken buffered [] =
    next_step-IsTaken buffered [] _ (frame_step buffered) (frame_step-StepFits buffered) tt
next_packet-IsTaken buffered ([] ∷ reads) =
    next_step-IsTaken buffered ([] ∷ reads) _ (frame_step buffered) (frame_step-StepFits buffered)
      tt
next_packet-IsTaken buffered ((b ∷ bytes) ∷ reads) =
    next_step-IsTaken buffered ((b ∷ bytes) ∷ reads) _ (frame_step buffered)
      (frame_step-StepFits buffered)
      (subst (λ l. Ensures (IsTaken (length l)) (next_packet (buffered ++ (b ∷ bytes)) reads))
        (append_assoc buffered (b ∷ bytes) (incoming reads))
        (next_packet-IsTaken (buffered ++ (b ∷ bytes)) reads))

-- A packet that was received has shortened what is pending.
abbrev IsReceived : ℕ → Option TdsPacket × Socket → Type 0
IsReceived before (none, s) = Unit {0}
IsReceived before (some p, s) = length (pending s) < before

parsed-IsReceived :
    (before : ℕ) (s : Socket) (r : Outcome PacketError (Option (ℕ × TdsPacket)))
    → length (pending s) < before
    → (r ≢ fault)
    → Ensures (IsReceived before) (r >>= λ parsed. ok (parsed_packet parsed, s))
unfolding parsed_packet
parsed-IsReceived before s (ok none) l h = tt
parsed-IsReceived before s (ok (some (n, p))) l h = l
parsed-IsReceived before s (throw e) l h = tt
parsed-IsReceived before s fault l h = absurd (h refl)

no_fault :
    (buf : List ℕ) (r : Outcome PacketError (Option (ℕ × TdsPacket)))
    → Ensures (IsParseResult buf) r
    → r ≢ fault
no_fault buf (ok x) h = λ e. cc
no_fault buf (throw x) h = λ e. cc
no_fault buf fault h = λ e. h

frame-IsReceived :
    (before : ℕ) (r : Outcome PacketError (Option (List ℕ) × Socket))
    → Ensures (IsTaken before) r
    → Ensures (IsReceived before) (r >>= parse_frame)
unfolding parse_frame
frame-IsReceived before (ok (none, s)) h = tt
frame-IsReceived before (ok (some head, s)) h =
    parsed-IsReceived before s (parse_packet head) (omega arith)
      (no_fault head (parse_packet head) (parse_packet-IsParseResult head))
frame-IsReceived before (throw e) h = tt
frame-IsReceived before fault h = h

receive_packet-IsReceived :
    (socket : Socket) → Ensures (IsReceived (length (pending socket))) (receive_packet socket)
unfolding receive_packet
receive_packet-IsReceived socket =
    frame-IsReceived (length (pending socket)) (next_packet socket.buffered socket.reads)
      (next_packet-IsTaken socket.buffered socket.reads)

abbrev pub Ends : Outcome PacketError (Bool × List ℕ × Socket) → Type 0
Ends r = Ensures (λ _. Unit {0}) r

receive_more-Ends :
    (before : ℕ) (message : List ℕ)
    (go_on : List ℕ → Socket → Outcome PacketError (Bool × List ℕ × Socket))
    (r : Outcome PacketError (Option TdsPacket × Socket))
    → Ensures (IsReceived before) r
    → ((m : List ℕ) (s : Socket) → length (pending s) < before → Ends (go_on m s))
    → Ends (r >>= receive_more message go_on)
unfolding receive_more
receive_more-Ends before message go_on (ok (none, s)) l h = tt
receive_more-Ends before message go_on (ok (some p, s)) l h =
    elim (Bool-cases (is_end_of_message p)) [
      | inl t ↦ rw t tt
      | inr f ↦ rw f (h (message ++ p.payload) s l)
    ]
receive_more-Ends before message go_on (throw e) l h = tt
receive_more-Ends before message go_on fault l h = l

receive_loop-Ends :
    (fuel : ℕ) (message : List ℕ) (socket : Socket)
    → length (pending socket) < fuel
    → Ends (receive_loop fuel message socket)
unfolding receive_loop
receive_loop-Ends zero message socket h = absurd (omega arith)
receive_loop-Ends (suc fuel) message socket h =
    receive_more-Ends (length (pending socket)) message (receive_loop fuel) (receive_packet socket)
      (receive_packet-IsReceived socket) (λ m s l. receive_loop-Ends fuel m s (omega arith))

-- On any stream, cut in any way, ReceiveMessage reads only inside its buffer and ends: with the message,
-- without one, or with the exception for a packet that is too long.
pub receive_message-Ends : (socket : Socket) → Ends (receive_message socket)
unfolding receive_message
receive_message-Ends socket = receive_loop-Ends _ [] socket (omega arith)
