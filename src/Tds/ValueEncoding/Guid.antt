-- ===== src/Tds/ValueEncoding/Guid.antt =====
-- ConvertGuid against ReorderGuidBytes.
-- the number that bytes spell, the first one the highest
use mssql_extension.Prelude.{
  All, List, [], ap, arith, ok, refl, ℕ, ◌%◌, ◌*◌, ◌++◌, ◌+◌, ◌<◌, ◌^◌, ◌∙◌, ◌∷◌, ◌≡◌,
}
use mssql_extension.Tds.Bytes.{read_u16, read_u32}
use mssql_extension.Tds.ValueEncoding.{Hugeint, convert_guid, flip_top_bit, reorder_guid_bytes}

unfoldable pub from_big_endian : ℕ → List ℕ → ℕ
from_big_endian acc [] = acc
from_big_endian acc (b ∷ bytes) = from_big_endian (acc * 256 + b) bytes

-- the number in the two words, as 128 bits
abbrev pub bits_of : Hugeint → ℕ
bits_of value = value.upper * 2 ^ 64 + value.lower

flip-words :
    (upper lower : ℕ)
    → upper < 2 ^ 64
    → lower < 2 ^ 64
    → (upper + 2 ^ 63) % 2 ^ 64 * 2 ^ 64 + lower ≡ (upper * 2 ^ 64 + lower + 2 ^ 127) % 2 ^ 128
flip-words upper lower hu hl = omega arith

abbrev IsByte : ℕ → Type 0
IsByte b = b < 256

-- The value that ConvertGuid makes of sixteen bytes is, as 128 bits, the number that the bytes spell
-- once ReorderGuidBytes has put them in the order of the text, with its top bit turned over.
pub convert_guid-reorder_guid_bytes :
    (a b c d e f g h i j k l m n o p : ℕ) (rest : List ℕ)
    → All IsByte (a ∷ b ∷ c ∷ d ∷ e ∷ f ∷ g ∷ h ∷ i ∷ j ∷ k ∷ l ∷ m ∷ n ∷ o ∷ p ∷ [])
    → (let input = a ∷ b ∷ c ∷ d ∷ e ∷ f ∷ g ∷ h ∷ i ∷ j ∷ k ∷ l ∷ m ∷ n ∷ o ∷ p ∷ [] ++ rest in
        (value : Hugeint) × ((text_order : List ℕ) × (convert_guid input ≡ ok value)
          × (reorder_guid_bytes input ≡ ok text_order)
          × (bits_of value ≡ (from_big_endian 0 text_order + 2 ^ 127) % 2 ^ 128)))
unfolding convert_guid flip_top_bit reorder_guid_bytes from_big_endian read_u32 read_u16
convert_guid-reorder_guid_bytes a b c d e f g h i j k l m n o p rest
      (
        ba,
        (bb, (bc, (bd, (be, (bf, (bg, (bh, (bi, (bj, (bk, (bl, (bm, (bn, (bo, (bp, _))))))))))))))),
      ) =
    let upper =
      (a + b * 256 + c * 65536 + d * 16777216) * 2 ^ 32 + (e + f * 256) * 2 ^ 16 + (g + h * 256) in
    let lower =
      i * 2 ^ 56 + j * 2 ^ 48 + k * 2 ^ 40 + l * 2 ^ 32 + m * 2 ^ 24 + n * 2 ^ 16 + o * 2 ^ 8 + p in
    (
      record { upper = flip_top_bit upper; lower = lower },
      (
        d ∷ c ∷ b ∷ a ∷ f ∷ e ∷ h ∷ g ∷ i ∷ j ∷ k ∷ l ∷ m ∷ n ∷ o ∷ p ∷ [],
        refl,
        refl,
        flip-words upper lower (omega arith) (omega arith)
            ∙ ap (λ x. (x + 2 ^ 127) % 2 ^ 128) (omega arith),
      ),
    )
