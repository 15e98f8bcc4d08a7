-- ===== src/Tds/ColumnMetadata/ParsePrefix.antt =====
-- ColumnMetadataParser of src/tds/tds_column_metadata.cpp on a buffer that grows: a COLMETADATA token
-- that was complete, or malformed, stays so.
use mssql_extension.Prelude.{
  Bool, Ensures-cases, List, Option, Outcome, ap, arith, drop, drop-append, false, fault, inl, inr,
  length-append, none, ok, refl, some, suc, throw, true, zero, ℕ, ◌++◌, ◌∙◌, ◌≡◌, ◌≢◌,
}
use mssql_extension.Tds.Bytes.Stable.{read_u16-append, read_u16_cases}
use mssql_extension.Tds.ColumnMetadata.Parse.{
  MetaError, binary_info, decimal_info, length_info, lob_collation, lob_info, parse, parse_column,
  parse_column_name, parse_columns, parse_type_info, pass_b_varchar, pass_parts, pass_us_varchar,
  scale_info, string_info, type_info, xml_info, xml_schema,
}
use mssql_extension.Tds.ColumnMetadata.ParseLaws.{column-IsSafe}
use mssql_extension.Tds.Parser.Safe.{run_safe}
use mssql_extension.Tds.Parser.Stable.{
  IsStableParser, bind-stable, extend, pure-stable, raise-stable, run_stable, stable_steps,
}
use mssql_extension.Tds.Types.{TypeId}

pass_b_varchar-stable : IsStableParser pass_b_varchar
unfolding pass_b_varchar
pass_b_varchar-stable = search (stable_steps) depth 14

pass_us_varchar-stable : IsStableParser pass_us_varchar
unfolding pass_us_varchar
pass_us_varchar-stable = search (stable_steps) depth 14

xml_schema-stable : IsStableParser xml_schema
unfolding xml_schema
xml_schema-stable = search (stable_steps, pass_b_varchar-stable, pass_us_varchar-stable) depth 14

length_info-stable : IsStableParser length_info
unfolding length_info
length_info-stable = search (stable_steps) depth 14

decimal_info-stable : IsStableParser decimal_info
unfolding decimal_info
decimal_info-stable = search (stable_steps) depth 14

string_info-stable : IsStableParser string_info
unfolding string_info
string_info-stable = search (stable_steps) depth 14

binary_info-stable : IsStableParser binary_info
unfolding binary_info
binary_info-stable = search (stable_steps) depth 14

scale_info-stable : IsStableParser scale_info
unfolding scale_info
scale_info-stable = search (stable_steps) depth 14

xml_info-stable : IsStableParser xml_info
unfolding xml_info
xml_info-stable = search (stable_steps, xml_schema-stable) depth 14

pass_parts-stable : (n : ℕ) → IsStableParser (pass_parts n)
unfolding pass_parts
pass_parts-stable zero = pure-stable tt
pass_parts-stable (suc n) = bind-stable pass_us_varchar-stable λ _. pass_parts-stable n

lob_collation-stable : (b : Bool) → IsStableParser (lob_collation b)
unfolding lob_collation
lob_collation-stable true = search stable_steps
lob_collation-stable false = search stable_steps depth 14

lob_info-stable : (b : Bool) → IsStableParser (lob_info b)
unfolding lob_info
lob_info-stable b = search (stable_steps, pass_parts-stable, lob_collation-stable) depth 14

ruleset stable_infos = (
  length_info-stable, decimal_info-stable, string_info-stable, binary_info-stable,
  scale_info-stable, xml_info-stable, lob_info-stable, pure-stable, raise-stable,
)

type_info-stable : (t : TypeId) → IsStableParser (type_info t)
unfolding type_info
type_info-stable TypeId.null = pure-stable _
type_info-stable _ = search stable_infos

parse_type_info-stable : IsStableParser parse_type_info
unfolding parse_type_info
parse_type_info-stable = search (stable_steps, type_info-stable) depth 14

module _ (utf16le_decode : List ℕ → List ℕ) where
  column_name-stable : IsStableParser (parse_column_name utf16le_decode)
  unfolding parse_column_name
  column_name-stable = search stable_steps depth 14

  column-stable : IsStableParser (parse_column utf16le_decode)
  unfolding parse_column
  column-stable = search (stable_steps, parse_type_info-stable, column_name-stable) depth 16

  -- The same answer with later bytes behind the rest.
  abbrev pub later :
      List ℕ → Outcome MetaError (Option (List ℕ)) → Outcome MetaError (Option (List ℕ))
  later ys (ok (some rest)) = ok (some (rest ++ ys))
  later ys (ok none) = ok none
  later ys (throw e) = throw e
  later ys fault = fault

  column-grown :
      (xs ys : List ℕ)
      → parse_column utf16le_decode xs ≢ ok none
      → parse_column utf16le_decode xs ≢ fault
      → parse_column utf16le_decode (xs ++ ys) ≡ extend ys (parse_column utf16le_decode xs)
  column-grown = run_stable column-stable

  columns-append :
      (n : ℕ) (xs ys : List ℕ)
      → (parse_columns utf16le_decode n xs).1 ≢ ok none
      → parse_columns utf16le_decode n (xs ++ ys)
        ≡ ((parse_columns utf16le_decode n xs).0, later ys (parse_columns utf16le_decode n xs).1)
  unfolding parse_columns
  columns-append zero xs ys h = refl
  columns-append (suc n) xs ys h =
      elim (Ensures-cases _ (parse_column utf16le_decode xs)
        (run_safe (column-IsSafe utf16le_decode) xs (omega arith))) [
          | inl (none, e, l) ↦ absurd (h (rw (e, parse_columns)))
          | inl (some (c, r), e, l) ↦ ground (
            arith,
            e,
            h,
            column-grown xs ys (λ p. cc) (λ p. cc) ∙ ap (extend ys) e,
            columns-append n r ys,
          )
          | inr (x, e) ↦
              ground (arith, e, column-grown xs ys (λ p. cc) (λ p. cc) ∙ ap (extend ys) e)
        ]

  -- Once a COLMETADATA token is complete, or malformed, the columns and the answer stay the same
  -- however many bytes follow.
  pub parse-append :
      (xs ys : List ℕ)
      → (parse utf16le_decode xs).1 ≢ ok none
      → parse utf16le_decode (xs ++ ys)
        ≡ ((parse utf16le_decode xs).0, later ys (parse utf16le_decode xs).1)
  unfolding parse
  parse-append xs ys h = elim (read_u16_cases {E = MetaError} xs) [
    | inl short ↦ absurd (h (ground arith))
    | inr (long, (n, e)) ↦ ground (
      arith,
      e,
      h,
      read_u16-append {E = MetaError} xs ys,
      length-append xs ys,
      drop-append 2 xs ys,
      columns-append n (drop 2 xs) ys,
    )
  ]
