-- ===== src/Tds/Socket/Frames.antt =====
-- NextPacket of src/tds/tds_socket.cpp takes one frame off the stream, however the reads cut it.
use mssql_extension.Prelude.{
  All, List, Option, Outcome, [], ap, append_assoc, append-nil, arith, drop, drop-append,
  drop-length_append, length, length-append, ok, refl, some, sym, take, take-append,
  take-length_append, ℕ, ◌++◌, ◌+◌, ◌<◌, ◌>>=◌, ◌∙◌, ◌∷◌, ◌≡◌, ◌≤◌,
}
use mssql_extension.Tds.ColumnMetadata.ParsePrefix.{later}
use mssql_extension.Tds.Packet.{
  PacketError, TdsPacket, get_packet_length, serialize, tds_header_size, tds_max_packet_size,
}
use mssql_extension.Tds.Packet.Wire.{length-serialize, length_field}
use mssql_extension.Tds.Socket.{
  Socket, frame_step, incoming, next_packet, next_step, pending, wait, whole,
}
use native.Mathlib.Decide.{dec_lt, dec_le}

abbrev pub IsData : List ℕ → Type 0
IsData bytes = 1 ≤ length bytes

get_packet_length-append :
    (xs ys : List ℕ)
    → tds_header_size ≤ length xs
    → get_packet_length (xs ++ ys) ≡ get_packet_length xs
unfolding get_packet_length
get_packet_length-append [] ys h = absurd (omega arith)
get_packet_length-append (a ∷ []) ys h = absurd (omega arith)
get_packet_length-append (a ∷ b ∷ []) ys h = absurd (omega arith)
get_packet_length-append (a ∷ b ∷ c ∷ []) ys h = absurd (omega arith)
get_packet_length-append (a ∷ b ∷ c ∷ d ∷ xs) ys h = refl

get_packet_length-serialize :
    (p : TdsPacket) (rest : List ℕ)
    → tds_header_size + length p.payload ≤ tds_max_packet_size
    → get_packet_length (serialize p ++ rest) ≡ ok (length (serialize p))
unfolding get_packet_length serialize
get_packet_length-serialize p rest h = ap ok (omega (arith, length_field p h))

-- `head` is the frame that the stream starts with.
module _ (p : TdsPacket) (small : tds_header_size + length p.payload ≤ tds_max_packet_size) where
  announced :
      (buffered later rest : List ℕ)
      → tds_header_size ≤ length buffered
      → buffered ++ later ≡ serialize p ++ rest
      → get_packet_length buffered ≡ ok (length (serialize p))
  announced buffered later rest h e =
      sym (get_packet_length-append buffered later h)
      ∙ ap get_packet_length e
      ∙ get_packet_length-serialize p rest small

  frame_step-short :
      (buffered later rest : List ℕ)
      → buffered ++ later ≡ serialize p ++ rest
      → length buffered < length (serialize p)
      → frame_step buffered ≡ ok wait
  unfolding frame_step
  frame_step-short buffered later rest e short = elim (dec_lt (length buffered) tds_header_size) [
    | yes less ↦ ground arith
    | no more ↦ ground (arith, announced buffered later rest (omega arith) e)
  ]

  frame_step-whole :
      (buffered later rest : List ℕ)
      → buffered ++ later ≡ serialize p ++ rest
      → length (serialize p) ≤ length buffered
      → frame_step buffered ≡ ok (whole (length (serialize p)))
  unfolding frame_step
  frame_step-whole buffered later rest e enough =
      let header : tds_header_size ≤ length (serialize p) = omega (arith, length-serialize p) in
      ground (arith, announced buffered later rest (omega arith) e)

  -- What NextPacket has done when it returns the frame.
  abbrev Took : List ℕ → Outcome PacketError (Option (List ℕ) × Socket) → Type 0
  Took rest result =
      (s : Socket) × (result ≡ ok (some (serialize p), s)) × (pending s ≡ rest) × All IsData s.reads

  take_whole :
      (buffered rest : List ℕ) (reads : List (List ℕ))
      (more : Outcome PacketError (Option (List ℕ) × Socket))
      → All IsData reads
      → buffered ++ incoming reads ≡ serialize p ++ rest
      → length (serialize p) ≤ length buffered
      → Took rest (frame_step buffered >>= next_step buffered reads more)
  unfolding next_step
  take_whole buffered rest reads more d e enough =
      let n = length (serialize p) in
      let head : take n buffered ≡ serialize p =
        sym (take-append n buffered (incoming reads) enough)
        ∙ ap (take n) e
        ∙ take-length_append (serialize p) rest in
      let left : drop n buffered ++ incoming reads ≡ rest =
        sym (drop-append n buffered (incoming reads) enough)
        ∙ ap (drop n) e
        ∙ drop-length_append (serialize p) rest in
      (
        record { buffered = drop n buffered; reads = reads },
        rw (frame_step-whole buffered (incoming reads) rest e enough)
            (ap (λ x. ok (some x, record { buffered = drop n buffered; reads = reads })) head),
        left,
        d,
      )

  pub next_packet-serialize :
      (buffered rest : List ℕ) (reads : List (List ℕ))
      → All IsData reads
      → buffered ++ incoming reads ≡ serialize p ++ rest
      → Took rest (next_packet buffered reads)
  unfolding next_packet next_step
  next_packet-serialize buffered rest [] d e = take_whole buffered rest [] _ d e (
      omega (arith, ap length e, ap length (append-nil buffered), length-append (serialize p) rest))
  next_packet-serialize buffered rest ([] ∷ reads) (d, ds) e = absurd (omega arith)
  next_packet-serialize buffered rest ((b ∷ bytes) ∷ reads) (d, ds) e =
      elim (dec_le (length (serialize p)) (length buffered)) [
        | yes enough ↦ take_whole buffered rest ((b ∷ bytes) ∷ reads) _ (d, ds) e enough
        | no short ↦
            rw (frame_step-short buffered ((b ∷ bytes) ++ incoming reads) rest e (omega arith)) (
              next_packet-serialize (buffered ++ (b ∷ bytes)) rest reads ds
                (append_assoc buffered (b ∷ bytes) (incoming reads) ∙ e))
      ]
