-- ===== src/Tds/Packet/Append.antt =====
-- The appenders of TdsPacket in src/tds/tds_packet.cpp, one by one.
use mssql_extension.Prelude.{
  List, [], ap, append_assoc, arith, drop, drop-length_append, length, ok, ℕ, ◌%◌, ◌++◌, ◌/◌, ◌<◌,
  ◌^◌, ◌∙◌, ◌∷◌, ◌≡◌,
}
use mssql_extension.Tds.Bytes.{read_u16, read_u32}
use mssql_extension.Tds.Packet.{TdsPacket}

unfoldable pub append_byte : ℕ → TdsPacket → TdsPacket
append_byte byte p = record p { payload = p.payload ++ (byte ∷ []) }

unfoldable pub append_u_int16_be : ℕ → TdsPacket → TdsPacket
append_u_int16_be v p = append_byte (v % 256) (append_byte (v / 256 % 256) p)

unfoldable pub append_u_int32_be : ℕ → TdsPacket → TdsPacket
append_u_int32_be v p = append_byte (v % 256) (
    append_byte (v / 256 % 256)
      (append_byte (v / 65536 % 256) (append_byte (v / 16777216 % 256) p)))

unfoldable pub append_u_int16_le : ℕ → TdsPacket → TdsPacket
append_u_int16_le v p = append_byte (v / 256 % 256) (append_byte (v % 256) p)

unfoldable pub append_u_int32_le : ℕ → TdsPacket → TdsPacket
append_u_int32_le v p =
    append_byte (v / 16777216 % 256)
      (append_byte (v / 65536 % 256) (append_byte (v / 256 % 256) (append_byte (v % 256) p)))

unfoldable pub clear_payload : TdsPacket → TdsPacket
clear_payload p = record p { payload = [] }

one_by_one_2 : (l : List ℕ) (a b : ℕ) → (l ++ (a ∷ [])) ++ (b ∷ []) ≡ l ++ (a ∷ b ∷ [])
one_by_one_2 l a b = append_assoc l (a ∷ []) (b ∷ [])

one_by_one_4 :
    (l : List ℕ) (a b c d : ℕ)
    → (((l ++ (a ∷ [])) ++ (b ∷ [])) ++ (c ∷ [])) ++ (d ∷ []) ≡ l ++ (a ∷ b ∷ c ∷ d ∷ [])
one_by_one_4 l a b c d =
    ap (λ x. (x ++ (c ∷ [])) ++ (d ∷ [])) (one_by_one_2 l a b)
    ∙ one_by_one_2 (l ++ (a ∷ b ∷ [])) c d
    ∙ append_assoc l (a ∷ b ∷ []) (c ∷ d ∷ [])

-- The bytes that AppendUInt32LE puts behind the payload are read back there as the value, when it is
-- below 2^32.
pub append_u_int32_le-read_u32 :
    {E : Type 0} (v : ℕ) (p : TdsPacket)
    → v < 2 ^ 32
    → read_u32 {E = E} (drop (length p.payload) (append_u_int32_le v p).payload) ≡ ok v
unfolding append_u_int32_le append_byte read_u32
append_u_int32_le-read_u32 {E = E} v p h =
    let bytes =
      one_by_one_4 p.payload (v % 256) (v / 256 % 256) (v / 65536 % 256) (v / 16777216 % 256) in
    rw bytes (
      rw
        (drop-length_append p.payload
          (v % 256 ∷ v / 256 % 256 ∷ v / 65536 % 256 ∷ v / 16777216 % 256 ∷ []))
        (ap ok (omega arith)))

-- The bytes that AppendUInt16LE puts behind the payload are read back there as the value, when it is
-- below 2^16.
pub append_u_int16_le-read_u16 :
    {E : Type 0} (v : ℕ) (p : TdsPacket)
    → v < 2 ^ 16
    → read_u16 {E = E} (drop (length p.payload) (append_u_int16_le v p).payload) ≡ ok v
unfolding append_u_int16_le append_byte read_u16
append_u_int16_le-read_u16 {E = E} v p h =
    let bytes = one_by_one_2 p.payload (v % 256) (v / 256 % 256) in
    rw bytes
      (rw (drop-length_append p.payload (v % 256 ∷ v / 256 % 256 ∷ [])) (ap ok (omega arith)))
