-- ===== src/Dml/InsertStatement/Read.antt =====
-- The head of an INSERT, read as the server reads it.
use mssql_extension.Prelude.{
  List, Option, [], ap, append_assoc, if◌then◌else◌, length, map, none, option_then, refl, some,
  suc, zero, ℕ, ◌++◌, ◌==◌, ◌∙◌, ◌∷◌, ◌≡◌,
}
use mssql_extension.Dml.InsertStatement.{InsertCache, build, output_line, row_text}
use mssql_extension.Dml.Text.{Text, codes, join, join_rest}
use mssql_extension.Dml.ValueSerializer.{escape_identifier}
use mssql_extension.Dml.ValueSerializer.Lexer.{Apart, read_identifier}
use mssql_extension.Dml.ValueSerializer.RoundTrip.{escape_identifier-read}

-- the text after a prefix
unfoldable pub strip : Text → Text → Option Text
strip [] text = some text
strip (p ∷ prefix) [] = none
strip (p ∷ prefix) (c ∷ text) = let rest = strip prefix text in if p == c then rest else none

-- the names after the first, at most `n`, with ", " in front of each
unfoldable pub read_more : ℕ → Text → Option (List Text × Text)
unfolding strip
read_more zero text = some ([], text)
read_more (suc n) text = elim (strip (codes ", ") text) [
  | none ↦ some ([], text)
  | some after_comma ↦ option_then (read_identifier after_comma) (λ (name, rest).
      option_then (read_more n rest) (λ (names, after). some (name ∷ names, after)))
]

-- what an INSERT names
pub record InsertHead : Type 0 where
  pub schema : Text
  pub table : Text
  pub columns : List Text

-- `n` is a bound on the columns after the first
unfoldable pub read_insert : ℕ → Text → Option (InsertHead × Text)
unfolding strip read_more
read_insert n text = option_then (strip (codes "INSERT INTO ") text) (λ after_verb.
    option_then (read_identifier after_verb) (λ (schema, after_schema).
      option_then (strip (codes ".") after_schema) (λ after_dot.
        option_then (read_identifier after_dot) (λ (table, after_table).
          option_then (strip (codes " (") after_table) (λ after_open.
            option_then (read_identifier after_open) (λ (column, after_column).
              option_then (read_more n after_column) (λ (columns, rest).
                some (
                  record { schema = schema; table = table; columns = column ∷ columns },
                  rest,
                ))))))))

abbrev pub quoted_rest : List Text → Text
quoted_rest names = join_rest (codes ", ") (map escape_identifier names)

quoted_rest-Apart :
    (names : List Text) (rest : Text) → Apart b']' (quoted_rest names ++ codes ")" ++ rest)
quoted_rest-Apart [] rest = refl
quoted_rest-Apart (n ∷ names) rest = refl

read_more-quoted_rest :
    (names : List Text) (rest : Text)
    → read_more (length names) (quoted_rest names ++ codes ")" ++ rest)
      ≡ some (names, codes ")" ++ rest)
unfolding read_more strip
read_more-quoted_rest [] rest = refl
read_more-quoted_rest (n ∷ names) rest =
    let e = escape_identifier n in
    let more = quoted_rest names in
    let flat =
      ap (λ t. t ++ rest) (append_assoc e more (codes ")"))
      ∙ append_assoc e (more ++ codes ")") rest in
    rw (
      flat,
      escape_identifier-read n (more ++ codes ")" ++ rest) (quoted_rest-Apart names rest),
      read_more-quoted_rest names rest,
    )

-- what follows the names in the statement
abbrev pub after_names : Text → List (List Text) → Text
after_names clause rows =
    output_line clause ++ codes "\nVALUES" ++ join (codes ",") (map row_text rows) ++ codes ";"

abbrev pub cache_of : Text → Text → Text → List Text → Text → InsertCache
cache_of schema table column columns clause = record {
  cached_table_name = escape_identifier schema ++ codes "." ++ escape_identifier table;
  cached_column_list = join (codes ", ") (map escape_identifier (column ∷ columns));
  cached_output_clause = clause;
}

build-flat :
    (schema table column : Text) (columns : List Text) (clause : Text) (rows : List (List Text))
    → build (cache_of schema table column columns clause) rows
      ≡ codes "INSERT INTO "
        ++ (escape_identifier schema
            ++ (codes "."
                ++ (escape_identifier table
                    ++ (codes " ("
                        ++ (escape_identifier column
                            ++ (quoted_rest columns ++ codes ")" ++ after_names clause rows))))))
unfolding build
build-flat schema table column columns clause rows = simp (append_assoc)

pub build-read :
    (schema table column : Text) (columns : List Text) (clause : Text) (rows : List (List Text))
    → read_insert (length columns) (build (cache_of schema table column columns clause) rows)
      ≡ some (
        record { schema = schema; table = table; columns = column ∷ columns },
        codes ")" ++ after_names clause rows,
      )
unfolding read_insert
build-read schema table column columns clause rows =
    let rest = quoted_rest columns ++ codes ")" ++ after_names clause rows in
    let from_column = escape_identifier column ++ rest in
    let from_table = escape_identifier table ++ (codes " (" ++ from_column) in
    rw (
      build-flat schema table column columns clause rows,
      escape_identifier-read schema (codes "." ++ from_table) refl,
      escape_identifier-read table (codes " (" ++ from_column) refl,
      escape_identifier-read column rest (quoted_rest-Apart columns (after_names clause rows)),
      read_more-quoted_rest columns (after_names clause rows),
    )
