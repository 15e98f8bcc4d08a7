-- ===== src/Tds/ColumnMetadata/ParseLaws.antt =====
-- ColumnMetadataParser of src/tds/tds_column_metadata.cpp on any bytes: no read past the buffer, and a
-- result that later bytes do not change.
use mssql_extension.Prelude.{
  Bool, Ensures, Ensures-cases, List, Option, arith, drop, false, inl, inr, length, length-drop,
  ltb, none, some, suc, true, zero, ℕ, ◌*◌, ◌==◌, ◌≤◌,
}
use mssql_extension.Tds.Bytes.Stable.{read_u16_cases}
use mssql_extension.Tds.ColumnMetadata.Parse.{
  MetaError, binary_info, decimal_info, length_info, lob_collation, lob_info, parse, parse_column,
  parse_column_name, parse_columns, parse_type_info, pass_b_varchar, pass_parts, pass_us_varchar,
  scale_info, string_info, type_info, xml_info, xml_schema,
}
use mssql_extension.Tds.Parser.Safe.{
  IsSafe, call-IsSafe, chunk-IsSafe_all, if-IsSafe, need-IsSafe, pass-IsSafe_all, pure-IsSafe,
  raise-IsSafe, run_safe, u16-IsSafe, u32-IsSafe, u8-IsSafe,
}
use mssql_extension.Tds.Types.{TypeId, type_of_byte}

length_info-IsSafe : IsSafe 0 length_info
unfolding length_info
length_info-IsSafe = need-IsSafe 1 (u8-IsSafe λ n. pure-IsSafe _)

decimal_info-IsSafe : IsSafe 0 decimal_info
unfolding decimal_info
decimal_info-IsSafe = need-IsSafe 3 (u8-IsSafe λ n. u8-IsSafe λ p. u8-IsSafe λ s. pure-IsSafe _)

string_info-IsSafe : IsSafe 0 string_info
unfolding string_info
string_info-IsSafe =
    need-IsSafe 7 (u16-IsSafe λ n. u32-IsSafe λ c. pass-IsSafe_all 1 (pure-IsSafe _))

binary_info-IsSafe : IsSafe 0 binary_info
unfolding binary_info
binary_info-IsSafe = need-IsSafe 2 (u16-IsSafe λ n. pure-IsSafe _)

scale_info-IsSafe : IsSafe 0 scale_info
unfolding scale_info
scale_info-IsSafe =
    need-IsSafe 1 (u8-IsSafe λ s. if-IsSafe (ltb 7 s) (raise-IsSafe _) (pure-IsSafe _))

pass_b_varchar-IsSafe : IsSafe 0 pass_b_varchar
unfolding pass_b_varchar
pass_b_varchar-IsSafe =
    need-IsSafe 1 (u8-IsSafe λ n. need-IsSafe (n * 2) (pass-IsSafe_all (n * 2) (pure-IsSafe tt)))

pass_us_varchar-IsSafe : IsSafe 0 pass_us_varchar
unfolding pass_us_varchar
pass_us_varchar-IsSafe =
    need-IsSafe 2 (u16-IsSafe λ n. need-IsSafe (n * 2) (pass-IsSafe_all (n * 2) (pure-IsSafe tt)))

xml_schema-IsSafe : IsSafe 0 xml_schema
unfolding xml_schema
xml_schema-IsSafe = call-IsSafe pass_b_varchar-IsSafe λ _.
    call-IsSafe pass_b_varchar-IsSafe λ _. call-IsSafe pass_us_varchar-IsSafe λ _. pure-IsSafe tt

xml_info-IsSafe : IsSafe 0 xml_info
unfolding xml_info
xml_info-IsSafe = need-IsSafe 1 (
    u8-IsSafe
      λ s. call-IsSafe (if-IsSafe (s == 0) (pure-IsSafe tt) xml_schema-IsSafe) λ _. pure-IsSafe _)

pass_parts-IsSafe : (n : ℕ) → IsSafe 0 (pass_parts n)
unfolding pass_parts
pass_parts-IsSafe zero = pure-IsSafe tt
pass_parts-IsSafe (suc n) = call-IsSafe pass_us_varchar-IsSafe λ _. pass_parts-IsSafe n

lob_collation-IsSafe : (b : Bool) → IsSafe 0 (lob_collation b)
unfolding lob_collation
lob_collation-IsSafe true = pure-IsSafe 0
lob_collation-IsSafe false = need-IsSafe 5 (u32-IsSafe λ c. pass-IsSafe_all 1 (pure-IsSafe c))

lob_info-IsSafe : (b : Bool) → IsSafe 0 (lob_info b)
unfolding lob_info
lob_info-IsSafe b = need-IsSafe 4 (
    pass-IsSafe_all 4 (
      call-IsSafe (lob_collation-IsSafe b)
        λ c. need-IsSafe 1 (u8-IsSafe λ n. call-IsSafe (pass_parts-IsSafe n) λ _. pure-IsSafe _)))

ruleset safe_infos = (
  length_info-IsSafe, decimal_info-IsSafe, string_info-IsSafe, binary_info-IsSafe,
  scale_info-IsSafe, xml_info-IsSafe, lob_info-IsSafe, pure-IsSafe, raise-IsSafe,
)

type_info-IsSafe : (t : TypeId) → IsSafe 0 (type_info t)
unfolding type_info
type_info-IsSafe TypeId.null = pure-IsSafe _
type_info-IsSafe _ = search safe_infos

parse_type_info-IsSafe : IsSafe 0 parse_type_info
unfolding parse_type_info
parse_type_info-IsSafe =
    need-IsSafe 1
      (u8-IsSafe λ b. call-IsSafe (type_info-IsSafe (type_of_byte b)) λ i. pure-IsSafe _)

module _ (utf16le_decode : List ℕ → List ℕ) where
  column_name-IsSafe : IsSafe 0 (parse_column_name utf16le_decode)
  unfolding parse_column_name
  column_name-IsSafe =
      need-IsSafe 1
        (u8-IsSafe λ n. need-IsSafe (n * 2) (chunk-IsSafe_all (n * 2) λ v. pure-IsSafe _))

  pub column-IsSafe : IsSafe 0 (parse_column utf16le_decode)
  unfolding parse_column
  column-IsSafe = need-IsSafe 4 (
      pass-IsSafe_all 4 (
        need-IsSafe 2 (
          u16-IsSafe λ flags.
            call-IsSafe parse_type_info-IsSafe
              λ ti. call-IsSafe column_name-IsSafe λ name. pure-IsSafe _)))

  abbrev pub Leaves : List ℕ → Option (List ℕ) → Type 0
  Leaves buf none = Unit {0}
  Leaves buf (some rest) = length rest ≤ length buf

  columns-safe :
      (n : ℕ) (buf rest : List ℕ)
      → length rest ≤ length buf
      → Ensures (Leaves buf) (parse_columns utf16le_decode n rest).1
  unfolding parse_columns
  columns-safe zero buf rest h = h
  columns-safe (suc n) buf rest h =
      elim (Ensures-cases _ (parse_column utf16le_decode rest)
        (run_safe column-IsSafe rest (omega arith))) [
          | inl (none, e, l) ↦ rw (e, parse_columns) tt
          | inl (some (c, r), e, l) ↦ rw (e, parse_columns) (columns-safe n buf r (omega arith))
          | inr (x, e) ↦ rw (e, parse_columns) tt
        ]

  -- Parsing a COLMETADATA token reads nothing past the buffer, ends, and consumes no more bytes than
  -- there are, on any bytes.
  pub parse-safe : (buf : List ℕ) → Ensures (Leaves buf) (parse utf16le_decode buf).1
  unfolding parse
  parse-safe buf = elim (read_u16_cases {E = MetaError} buf) [
    | inl short ↦ ground arith
    | inr (long, (n, e)) ↦ rw e (
        ground (
          arith,
          length-drop 2 buf,
          columns-safe n buf (drop 2 buf) (omega (arith, length-drop 2 buf)),
        ))
  ]
