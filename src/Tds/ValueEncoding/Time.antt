-- ===== src/Tds/ValueEncoding/Time.antt =====
-- Times of day, as the server sends them.
-- `n` bytes of a number, the lowest first
use mssql_extension.Prelude.{
  List, [], ap, arith, ok, suc, zero, ℕ, ◌%◌, ◌*◌, ◌++◌, ◌+◌, ◌/◌, ◌<◌, ◌>>=◌, ◌^◌, ◌∷◌, ◌≡◌, ◌≤◌,
}
use mssql_extension.Tds.ValueEncoding.{
  convert_time, get_time_byte_length, multiplier, read_ticks, time_ticks_to_microseconds,
}

unfoldable pub le_bytes : ℕ → ℕ → List ℕ
le_bytes zero t = []
le_bytes (suc n) t = (t % 256) ∷ le_bytes n (t / 256)

read_three : (t : ℕ) (rest : List ℕ) → t < 2 ^ 24 → read_ticks 3 1 0 (le_bytes 3 t ++ rest) ≡ ok t
unfolding read_ticks le_bytes
read_three t rest small = ap ok (omega arith)

read_four : (t : ℕ) (rest : List ℕ) → t < 2 ^ 32 → read_ticks 4 1 0 (le_bytes 4 t ++ rest) ≡ ok t
unfolding read_ticks le_bytes
read_four t rest small = ap ok (omega arith)

read_five : (t : ℕ) (rest : List ℕ) → t < 2 ^ 40 → read_ticks 5 1 0 (le_bytes 5 t ++ rest) ≡ ok t
unfolding read_ticks le_bytes
read_five t rest small = ap ok (omega arith)

-- `us` is the whole number of microseconds in `ticks` of `10^-scale` seconds
abbrev pub IsMicroseconds : ℕ → ℕ → ℕ → Type 0
IsMicroseconds scale ticks us =
    (us * 10 ^ scale ≤ ticks * 10 ^ 6) × (ticks * 10 ^ 6 < (us + 1) * 10 ^ scale)

-- For every scale up to 7 the length that GetTimeByteLength says is enough for every time of day, and
-- what ConvertTime makes of one, sent in that many bytes with the lowest first, is the whole number
-- of microseconds in it.
pub convert_time-IsMicroseconds :
    (scale ticks : ℕ) (rest : List ℕ)
    → scale ≤ 7
    → ticks < 86400 * 10 ^ scale
    → (us : ℕ) × (convert_time (le_bytes (get_time_byte_length scale) ticks ++ rest) scale ≡ ok us)
      × IsMicroseconds scale ticks us
unfolding convert_time time_ticks_to_microseconds multiplier get_time_byte_length
convert_time-IsMicroseconds zero ticks rest within small = (
  ticks * 1000000,
  ap (λ t. t >>= (λ v. ok (time_ticks_to_microseconds v 0))) (read_three ticks rest (omega arith)),
  (omega arith, omega arith),
)
convert_time-IsMicroseconds (suc zero) ticks rest within small = (
  ticks * 100000,
  ap (λ t. t >>= (λ v. ok (time_ticks_to_microseconds v 1))) (read_three ticks rest (omega arith)),
  (omega arith, omega arith),
)
convert_time-IsMicroseconds (suc (suc zero)) ticks rest within small = (
  ticks * 10000,
  ap (λ t. t >>= (λ v. ok (time_ticks_to_microseconds v 2))) (read_three ticks rest (omega arith)),
  (omega arith, omega arith),
)
convert_time-IsMicroseconds (suc (suc (suc zero))) ticks rest within small = (
  ticks * 1000,
  ap (λ t. t >>= (λ v. ok (time_ticks_to_microseconds v 3))) (read_four ticks rest (omega arith)),
  (omega arith, omega arith),
)
convert_time-IsMicroseconds (suc (suc (suc (suc zero)))) ticks rest within small = (
  ticks * 100,
  ap (λ t. t >>= (λ v. ok (time_ticks_to_microseconds v 4))) (read_four ticks rest (omega arith)),
  (omega arith, omega arith),
)
convert_time-IsMicroseconds (suc (suc (suc (suc (suc zero))))) ticks rest within small = (
  ticks * 10,
  ap (λ t. t >>= (λ v. ok (time_ticks_to_microseconds v 5))) (read_five ticks rest (omega arith)),
  (omega arith, omega arith),
)
convert_time-IsMicroseconds (suc (suc (suc (suc (suc (suc zero)))))) ticks rest within small = (
  ticks * 1,
  ap (λ t. t >>= (λ v. ok (time_ticks_to_microseconds v 6))) (read_five ticks rest (omega arith)),
  (omega arith, omega arith),
)
convert_time-IsMicroseconds (suc (suc (suc (suc (suc (suc (suc zero))))))) ticks rest within small =
    (
      ticks / 10,
      ap (λ t. t >>= (λ v. ok (time_ticks_to_microseconds v 7)))
          (read_five ticks rest (omega arith)),
      (omega arith, omega arith),
    )
convert_time-IsMicroseconds (suc (suc (suc (suc (suc (suc (suc (suc n)))))))) ticks rest within
      small =
    absurd (omega arith)
