-- ===== src/Tds/Packet/Wire.antt =====
-- TdsPacket::Serialize and TdsPacket::Parse of src/tds/tds_packet.cpp, back and forth.
use mssql_extension.Prelude.{
  Ensures, List, [], ap, arith, length, length-append, length-take_le, none, ok, some, suc, take,
  take-length_append, ℕ, ◌%◌, ◌*◌, ◌++◌, ◌+◌, ◌-◌, ◌/◌, ◌<◌, ◌∙◌, ◌∷◌, ◌≡◌, ◌≤◌,
}
use mssql_extension.Tds.Bytes.Stable.{read_bytes_total}
use mssql_extension.Tds.Packet.{
  IsPacket, IsParseResult, PacketError, TdsPacket, get_length, get_packet_length,
  has_complete_header, parse_packet, parse_whole, serialize, tds_header_size, tds_max_packet_size,
}
use native.Mathlib.Decide.{dec_lt}

pub length_field :
    (p : TdsPacket)
    → tds_header_size + length p.payload ≤ tds_max_packet_size
    → get_length p / 256 % 256 * 256 + get_length p % 256 ≡ tds_header_size + length p.payload
unfolding get_length
length_field p h = omega arith

parse_packet-waits :
    (t s high low a b i w : ℕ) (rest : List ℕ)
    → tds_header_size ≤ high * 256 + low
    → high * 256 + low ≤ tds_max_packet_size
    → tds_header_size + length rest < high * 256 + low
    → parse_packet (t ∷ s ∷ high ∷ low ∷ a ∷ b ∷ i ∷ w ∷ rest) ≡ ok none
unfolding parse_packet has_complete_header get_packet_length
parse_packet-waits t s high low a b i w rest h1 h2 h3 = ground arith

parse_packet-whole :
    (t s high low a b i w : ℕ) (body rest : List ℕ)
    → high * 256 + low ≡ tds_header_size + length body
    → high * 256 + low ≤ tds_max_packet_size
    → parse_packet (t ∷ s ∷ high ∷ low ∷ a ∷ b ∷ i ∷ w ∷ body ++ rest)
      ≡ ok (
          some (
            tds_header_size + length body,
            record {
              packet_type = t;
              status = s;
              spid = a * 256 + b;
              packet_id = i;
              window = w;
              payload = body;
            },
          ))
unfolding parse_packet has_complete_header get_packet_length parse_whole
parse_packet-whole t s high low a b i w body rest e h =
    let size : high * 256 + low - tds_header_size ≡ length body = omega arith in
    let cut : take (high * 256 + low - tds_header_size) (body ++ rest) ≡ body =
      ap (λ k. take k (body ++ rest)) size ∙ take-length_append body rest in
    let whole =
      read_bytes_total {E = PacketError} (high * 256 + low - tds_header_size) (body ++ rest)
        (omega (arith, length-append body rest)) in
    ground (arith, cut, whole, length-append body rest)

parse_packet-short : (buf : List ℕ) → length buf < tds_header_size → parse_packet buf ≡ ok none
unfolding parse_packet has_complete_header
parse_packet-short buf h = ground arith

-- A packet that was serialized is parsed back with its length, whatever bytes follow it, when it is no
-- longer than the largest packet.
pub parse_packet-serialize :
    (p : TdsPacket) (rest : List ℕ)
    → IsPacket p
    → tds_header_size + length (p.payload) ≤ tds_max_packet_size
    → parse_packet (serialize p ++ rest) ≡ ok (some (tds_header_size + length (p.payload), p))
unfolding serialize
parse_packet-serialize p rest ip h =
    parse_packet-whole p.packet_type p.status _ _ _ _ p.packet_id p.window p.payload rest
      (length_field p h) (omega (arith, length_field p h))
    ∙ ap (λ x. ok (some (tds_header_size + length p.payload, record p { spid = x }))) (omega arith)

parse_packet-cut :
    (p : TdsPacket) (m : ℕ)
    → tds_header_size + length p.payload ≤ tds_max_packet_size
    → m < length p.payload
    → parse_packet (take (suc (suc (suc (suc (suc (suc (suc (suc (m))))))))) (serialize p))
      ≡ ok none
unfolding serialize
parse_packet-cut p m h short =
    let cut = length-take_le m p.payload (omega arith) in
    parse_packet-waits p.packet_type p.status _ _ _ _ p.packet_id p.window (take m p.payload)
      (omega (arith, length_field p h)) (omega (arith, length_field p h))
      (omega (arith, length_field p h, cut))

pub length-serialize : (p : TdsPacket) → length (serialize p) ≡ tds_header_size + length p.payload
unfolding serialize
length-serialize p = omega arith

-- A part of a serialized packet, cut anywhere before its end, makes the parser wait for more data.
pub parse_packet-partial :
    (p : TdsPacket) (n : ℕ)
    → tds_header_size + length (p.payload) ≤ tds_max_packet_size
    → n < tds_header_size + length (p.payload)
    → parse_packet (take n (serialize p)) ≡ ok none
parse_packet-partial p n h short = elim (dec_lt n tds_header_size) [
  | yes less ↦
      parse_packet-short (take n (serialize p))
        (omega (arith, length-serialize p, length-take_le n (serialize p)))
  | no more ↦
      ap (λ k. parse_packet (take k (serialize p)))
        {y = suc (suc (suc (suc (suc (suc (suc (suc (n - 8))))))))} (omega arith)
      ∙ parse_packet-cut p (n - 8) h (omega arith)
]

short-IsParseResult :
    (buf : List ℕ) → length buf < tds_header_size → Ensures (IsParseResult buf) (parse_packet buf)
short-IsParseResult buf h = rw (parse_packet-short buf h) tt

long-IsParseResult :
    (t s high low a b i w : ℕ) (rest : List ℕ)
    → (let buf = t ∷ s ∷ high ∷ low ∷ a ∷ b ∷ i ∷ w ∷ rest in
        Ensures (IsParseResult buf) (parse_packet buf))
unfolding parse_packet has_complete_header get_packet_length parse_whole
long-IsParseResult t s high low a b i w rest = elim (dec_lt (8 + length rest) (high * 256 + low)) [
  | yes short ↦ ground arith
  | no enough ↦ elim (dec_lt (high * 256 + low) 8) [
    | yes less ↦ ground arith
    | no more ↦
        let room : high * 256 + low - tds_header_size ≤ length rest = omega arith in
        ground (
          arith,
          read_bytes_total {E = PacketError} (high * 256 + low - tds_header_size) rest room,
          length-take_le (high * 256 + low - tds_header_size) rest room,
        )
  ]
]

-- Parse reads only inside the buffer, whatever the header announces, and a packet that it returns takes
-- up no more than the buffer has.
pub parse_packet-IsParseResult : (buf : List ℕ) → Ensures (IsParseResult buf) (parse_packet buf)
parse_packet-IsParseResult [] = short-IsParseResult _ (omega arith)
parse_packet-IsParseResult (t ∷ []) = short-IsParseResult _ (omega arith)
parse_packet-IsParseResult (t ∷ s ∷ []) = short-IsParseResult _ (omega arith)
parse_packet-IsParseResult (t ∷ s ∷ high ∷ []) = short-IsParseResult _ (omega arith)
parse_packet-IsParseResult (t ∷ s ∷ high ∷ low ∷ []) = short-IsParseResult _ (omega arith)
parse_packet-IsParseResult (t ∷ s ∷ high ∷ low ∷ a ∷ []) = short-IsParseResult _ (omega arith)
parse_packet-IsParseResult (t ∷ s ∷ high ∷ low ∷ a ∷ b ∷ []) = short-IsParseResult _ (omega arith)
parse_packet-IsParseResult (t ∷ s ∷ high ∷ low ∷ a ∷ b ∷ i ∷ []) =
    short-IsParseResult _ (omega arith)
parse_packet-IsParseResult (t ∷ s ∷ high ∷ low ∷ a ∷ b ∷ i ∷ w ∷ rest) =
    long-IsParseResult t s high low a b i w rest
