-- ===== src/Tds/Packet.antt =====
-- TdsPacket of src/tds/tds_packet.cpp and src/include/tds/tds_packet.hpp. A byte is a number below
-- 256, the type and the status are their bytes, and the 16-bit length wraps as the cast does.
pub mod Append
pub mod Wire
pub mod Split
pub mod SplitLaws
use mssql_extension.Prelude.{
  Bool, List, Option, Outcome, [], false, fault, if◌then◌else◌, leb, length, ltb, none, not, ok,
  some, throw, true, ℕ, ◌%◌, ◌*◌, ◌++◌, ◌+◌, ◌-◌, ◌/◌, ◌<◌, ◌==◌, ◌>>=◌, ◌||◌, ◌∷◌, ◌≡◌, ◌≤◌,
}
use mssql_extension.Tds.Bytes.{read_bytes}

pub record TdsPacket : Type 0 where
  pub packet_type : ℕ
  pub status : ℕ
  pub spid : ℕ
  pub packet_id : ℕ
  pub window : ℕ
  pub payload : List ℕ

pub data PacketError : Type 0 where
  invalid_packet_length : PacketError

-- The constructor's default status is END_OF_MESSAGE.
unfoldable pub new_packet : ℕ → TdsPacket
new_packet packet_type = record {
  packet_type = packet_type;
  status = 0x01;
  spid = 0;
  packet_id = 1;
  window = 0;
  payload = [];
}

abbrev pub tds_header_size : ℕ
tds_header_size = 8

abbrev pub tds_max_packet_size : ℕ
tds_max_packet_size = 32767

abbrev pub tds_default_packet_size : ℕ
tds_default_packet_size = 4096

unfoldable pub get_length : TdsPacket → ℕ
get_length p = (tds_header_size + length (p.payload)) % 65536

-- `(status & END_OF_MESSAGE) != 0`
unfoldable pub is_end_of_message : TdsPacket → Bool
is_end_of_message p = p.status % 2 == 1

-- `status | 1` and `status & ~1`
unfoldable pub set_end_of_message : Bool → TdsPacket → TdsPacket
set_end_of_message true p = record p { status = p.status / 2 * 2 + 1 }
set_end_of_message false p = record p { status = p.status / 2 * 2 }

unfoldable pub append_payload : List ℕ → TdsPacket → TdsPacket
append_payload bytes p = record p { payload = p.payload ++ bytes }

unfoldable pub serialize : TdsPacket → List ℕ
serialize p =
    let l = get_length p in
    p.packet_type
    ∷ p.status
    ∷ l / 256 % 256
    ∷ l % 256
    ∷ p.spid / 256 % 256
    ∷ p.spid % 256
    ∷ p.packet_id
    ∷ p.window
    ∷ p.payload

unfoldable pub has_complete_header : List ℕ → Bool
has_complete_header buf = leb tds_header_size (length buf)

-- `data[2] << 8 | data[3]`
unfoldable pub get_packet_length : List ℕ → Outcome PacketError ℕ
get_packet_length (_ ∷ _ ∷ high ∷ low ∷ _) = ok (high * 256 + low)
get_packet_length _ = fault

-- The header's fields and the payload, once the whole packet is there.
unfoldable pub parse_whole : ℕ → List ℕ → Outcome PacketError TdsPacket
parse_whole packet_length (t ∷ s ∷ _ ∷ _ ∷ sp1 ∷ sp0 ∷ i ∷ w ∷ rest) =
    read_bytes (packet_length - tds_header_size) rest >>= λ body. ok record {
      packet_type = t;
      status = s;
      spid = sp1 * 256 + sp0;
      packet_id = i;
      window = w;
      payload = body;
    }
parse_whole packet_length _ = fault

-- `none` is `return 0`, a request for more data; else the packet and its length.
unfoldable pub parse_packet : List ℕ → Outcome PacketError (Option (ℕ × TdsPacket))
parse_packet buf =
    if not (has_complete_header buf)
    then ok none
    else (get_packet_length buf >>= λ packet_length.
        if ltb packet_length tds_header_size || ltb tds_max_packet_size packet_length
        then throw invalid_packet_length
        else if ltb (length buf) packet_length
        then ok none
        else (parse_whole packet_length buf >>= λ packet. ok (some (packet_length, packet))))

-- The id is in the range of its C++ type.
abbrev pub IsPacket : TdsPacket → Type 0
IsPacket p = p.spid < 65536

-- What Parse may return for a buffer.
abbrev pub IsParseResult : List ℕ → Option (ℕ × TdsPacket) → Type 0
IsParseResult buf none = Unit {0}
IsParseResult buf (some (n, p)) = (n ≤ length buf) × (tds_header_size + length p.payload ≡ n)
