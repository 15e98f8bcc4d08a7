-- ===== src/Tds/Bytes.antt =====
-- Reads at the front of a buffer, as src/tds reads its little-endian fields: `data[0] | data[1] << 8`.
-- The shifted bytes share no bits, so `|` is `+`. A read past the end is a fault.
pub mod Stable
use mssql_extension.Prelude.{
  ℕ, ◌+◌, ◌*◌, List, ◌∷◌, Outcome, ok, fault, length, leb, take, if◌then◌else◌,
}

module _ {E : Type 0} where
  unfoldable pub read_u8 : List ℕ → Outcome E ℕ
  read_u8 (a ∷ _) = ok a
  read_u8 _ = fault

  unfoldable pub read_u16 : List ℕ → Outcome E ℕ
  read_u16 (a ∷ b ∷ _) = ok (a + b * 256)
  read_u16 _ = fault

  unfoldable pub read_u32 : List ℕ → Outcome E ℕ
  read_u32 (a ∷ b ∷ c ∷ d ∷ _) = ok (a + b * 256 + c * 65536 + d * 16777216)
  read_u32 _ = fault

  unfoldable pub read_u64 : List ℕ → Outcome E ℕ
  read_u64 (a ∷ b ∷ c ∷ d ∷ e ∷ f ∷ g ∷ h ∷ _) = ok (
      a
      + b * 256
      + c * 65536
      + d * 16777216
      + (e + f * 256 + g * 65536 + h * 16777216) * 4294967296)
  read_u64 _ = fault

  -- `value.assign(data, data + n)`
  unfoldable pub read_bytes : ℕ → List ℕ → Outcome E (List ℕ)
  read_bytes n buf = if leb n (length buf) then ok (take n buf) else fault
