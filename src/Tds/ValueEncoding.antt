-- ===== src/Tds/ValueEncoding.antt =====
-- src/tds/encoding: the conversion of values off the wire to the integers that DuckDB keeps. A
-- `hugeint_t` is its two words, the upper one as the 64 bits of its signed value.
pub mod Guid
pub mod Time
use mssql_extension.Prelude.{
  List, Outcome, [], drop, fault, if◌then◌else◌, leb, ok, suc, zero, ℕ, ◌%◌, ◌*◌, ◌+◌, ◌-◌, ◌/◌,
  ◌>>=◌, ◌^◌, ◌∷◌,
}
use mssql_extension.Tds.Bytes.{read_u16, read_u32}

pub record Hugeint : Type 0 where
  pub upper : ℕ
  pub lower : ℕ

-- eight bytes, the first one the highest
unfoldable pub read_big_endian : List ℕ → Outcome Unit ℕ
read_big_endian (a ∷ b ∷ c ∷ d ∷ e ∷ f ∷ g ∷ h ∷ _) =
    ok (a * 2 ^ 56 + b * 2 ^ 48 + c * 2 ^ 40 + d * 2 ^ 32 + e * 2 ^ 24 + f * 2 ^ 16 + g * 2 ^ 8 + h)
read_big_endian _ = fault

-- `output` is written from the sixteen bytes of `input`; fewer are a read outside it.
unfoldable pub reorder_guid_bytes : List ℕ → Outcome Unit (List ℕ)
reorder_guid_bytes (a ∷ b ∷ c ∷ d ∷ e ∷ f ∷ g ∷ h ∷ i ∷ j ∷ k ∷ l ∷ m ∷ n ∷ o ∷ p ∷ _) =
    ok (d ∷ c ∷ b ∷ a ∷ f ∷ e ∷ h ∷ g ∷ i ∷ j ∷ k ∷ l ∷ m ∷ n ∷ o ∷ p ∷ [])
reorder_guid_bytes _ = fault

-- `bits ^ (uint64_t(1) << 63)`: the top bit of 64 turned over
unfoldable pub flip_top_bit : ℕ → ℕ
flip_top_bit bits = (bits + 2 ^ 63) % 2 ^ 64

unfoldable pub convert_guid : List ℕ → Outcome Unit Hugeint
unfolding flip_top_bit read_big_endian
convert_guid input = do
  data1 ← read_u32 input
  data2 ← read_u16 (drop 4 input)
  data3 ← read_u16 (drop 6 input)
  lower ← read_big_endian (drop 8 input)
  ok (record { upper = flip_top_bit (data1 * 2 ^ 32 + data2 * 2 ^ 16 + data3); lower = lower })

unfoldable pub get_time_byte_length : ℕ → ℕ
get_time_byte_length scale = if leb scale 2 then 3 else if leb scale 4 then 4 else 5

-- `ticks |= data[i] << (i * 8)` for `n` bytes, where `weight` is the power of 256 at hand; the bytes
-- share no bits
unfoldable pub read_ticks : ℕ → ℕ → ℕ → List ℕ → Outcome Unit ℕ
read_ticks zero weight ticks input = ok ticks
read_ticks (suc n) weight ticks [] = fault
read_ticks (suc n) weight ticks (b ∷ input) = read_ticks n (weight * 256) (ticks + b * weight) input

-- the loop that multiplies by ten
unfoldable pub multiplier : ℕ → ℕ
multiplier zero = 1
multiplier (suc n) = multiplier n * 10

-- Ticks of five bytes at most, times 10^6 at most, fit in 63 bits.
unfoldable pub time_ticks_to_microseconds : ℕ → ℕ → ℕ
unfolding multiplier
time_ticks_to_microseconds ticks scale =
    if leb scale 6 then ticks * multiplier (6 - scale) else ticks / 10

unfoldable pub convert_time : List ℕ → ℕ → Outcome Unit ℕ
unfolding get_time_byte_length read_ticks time_ticks_to_microseconds
convert_time input scale = do
  ticks ← read_ticks (get_time_byte_length scale) 1 0 input
  ok (time_ticks_to_microseconds ticks scale)
