-- ===== src/Tds/Examples/Values.antt =====
-- The values of src/tds/encoding at concrete bytes.
use mssql_extension.Prelude.{List, [], arith, fault, ok, refl, ℕ, ◌%◌, ◌++◌, ◌+◌, ◌^◌, ◌∷◌, ◌≡◌}
use mssql_extension.Tds.ValueEncoding.{
  Hugeint, convert_guid, convert_time, get_time_byte_length, multiplier, read_ticks,
  reorder_guid_bytes, time_ticks_to_microseconds,
}
use mssql_extension.Tds.ValueEncoding.Guid.{
  bits_of, convert_guid-reorder_guid_bytes, from_big_endian,
}
use mssql_extension.Tds.ValueEncoding.Time.{IsMicroseconds, convert_time-IsMicroseconds, le_bytes}

-- 00112233-4455-6677-8899-AABBCCDDEEFF as it is on the wire
abbrev some_guid : List ℕ
some_guid =
    51 ∷ 34 ∷ 17 ∷ 0 ∷ 85 ∷ 68 ∷ 119 ∷ 102 ∷ 136 ∷ 153 ∷ 170 ∷ 187 ∷ 204 ∷ 221 ∷ 238 ∷ 255 ∷ []

some_guid-text_order :
    reorder_guid_bytes some_guid
    ≡ ok (
        0 ∷ 17 ∷ 34 ∷ 51 ∷ 68 ∷ 85 ∷ 102 ∷ 119 ∷ 136 ∷ 153 ∷ 170 ∷ 187 ∷ 204 ∷ 221 ∷ 238 ∷ 255 ∷ [])
unfolding reorder_guid_bytes
some_guid-text_order = refl

-- half past noon in milliseconds
noon_and_a_half : convert_time (le_bytes 4 45000000) 3 ≡ ok 45000000000
unfolding convert_time get_time_byte_length read_ticks time_ticks_to_microseconds multiplier
    le_bytes
noon_and_a_half = refl

convert_time-short : convert_time (1 ∷ 2 ∷ []) 0 ≡ fault
unfolding convert_time get_time_byte_length read_ticks
convert_time-short = refl

convert_guid-reorder_guid_bytes_example :
    (value : Hugeint) × ((text_order : List ℕ) × (convert_guid (some_guid ++ []) ≡ ok value)
      × (reorder_guid_bytes (some_guid ++ []) ≡ ok text_order)
      × (bits_of value ≡ (from_big_endian 0 text_order + 2 ^ 127) % 2 ^ 128))
convert_guid-reorder_guid_bytes_example =
    convert_guid-reorder_guid_bytes 51 34 17 0 85 68 119 102 136 153 170 187 204 221 238 255 [] (
      omega arith,
      (
        omega arith,
        (
          omega arith,
          (
            omega arith,
            (
              omega arith,
              (
                omega arith,
                (
                  omega arith,
                  (
                    omega arith,
                    (
                      omega arith,
                      (
                        omega arith,
                        (
                          omega arith,
                          (
                            omega arith,
                            (omega arith, (omega arith, (omega arith, (omega arith, tt)))),
                          ),
                        ),
                      ),
                    ),
                  ),
                ),
              ),
            ),
          ),
        ),
      ),
    )

convert_time-IsMicroseconds_example :
    (us : ℕ) × (convert_time (le_bytes (get_time_byte_length 7) 123456789 ++ 9 ∷ []) 7 ≡ ok us)
    × IsMicroseconds 7 123456789 us
convert_time-IsMicroseconds_example =
    convert_time-IsMicroseconds 7 123456789 (9 ∷ []) (omega arith) (omega arith)
