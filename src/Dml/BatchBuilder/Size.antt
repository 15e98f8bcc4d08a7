-- ===== src/Dml/BatchBuilder/Size.antt =====
-- The builder's estimate of a statement against the text that is built.
use mssql_extension.Prelude.{
  List, [], arith, length, length-append, map, refl, ℕ, ◌++◌, ◌+◌, ◌<◌, ◌∷◌, ◌≡◌,
}
use mssql_extension.Dml.BatchBuilder.{
  calculate_base_sql_size, estimate_row_size, literals_size, output_line_size,
}
use mssql_extension.Dml.InsertStatement.{InsertCache, build, output_line, row_text}
use mssql_extension.Dml.Text.{Text, codes, join, join_rest}

-- what the rows add to the estimate
unfoldable pub sizes : List (List Text) → ℕ
sizes [] = 0
sizes (row ∷ rows) = estimate_row_size row + sizes rows

pub sizes-append :
    (rows : List (List Text)) (row : List Text)
    → sizes (rows ++ row ∷ []) ≡ sizes rows + estimate_row_size row
unfolding sizes
sizes-append [] row = omega arith
sizes-append (r ∷ rows) row = omega (arith, sizes-append rows row)

pub sizes-all : (rows more : List (List Text)) → sizes (rows ++ more) ≡ sizes rows + sizes more
unfolding sizes
sizes-all [] more = omega arith
sizes-all (row ∷ rows) more = omega (arith, sizes-all rows more)

length-join_rest :
    (literals : List Text) → length (join_rest (codes ", ") literals) ≡ literals_size literals
unfolding literals_size
length-join_rest [] = refl
length-join_rest (literal ∷ literals) =
    omega
      (arith, length-append literal (join_rest (codes ", ") literals), length-join_rest literals)

length-row_text : (row : List Text) → length (row_text row) + 1 ≡ estimate_row_size row
unfolding row_text estimate_row_size
length-row_text [] = omega arith
length-row_text (literal ∷ literals) =
    let rest = join_rest (codes ", ") literals in
    omega (
      arith,
      length-append (literal ++ rest) (codes ")"),
      length-append literal rest,
      length-join_rest literals,
    )

length-row_texts :
    (rows : List (List Text)) → length (join_rest (codes ",") (map row_text rows)) ≡ sizes rows
unfolding sizes
length-row_texts [] = refl
length-row_texts (row ∷ rows) = omega (
  arith,
  length-append (row_text row) (join_rest (codes ",") (map row_text rows)),
  length-row_text row,
  length-row_texts rows,
)

length-output_line : (clause : Text) → length (output_line clause) ≡ output_line_size clause
unfolding output_line output_line_size
length-output_line [] = refl
length-output_line (c ∷ clause) = omega arith

-- For a statement with a row the estimate, the base size and what each row adds, is exactly one byte
-- more than the statement that is built: the separator the last row does not have.
pub length-build :
    (stmt : InsertCache) (row : List Text) (rows : List (List Text))
    → length (build stmt (row ∷ rows)) + 1 ≡ calculate_base_sql_size stmt + sizes (row ∷ rows)
unfolding build calculate_base_sql_size sizes
length-build stmt row rows =
    let texts = join (codes ",") (map row_text (row ∷ rows)) in
    let line = output_line stmt.cached_output_clause in
    let rest = join_rest (codes ",") (map row_text rows) in
    let opened = stmt.cached_table_name ++ codes " (" in
    let listed = opened ++ stmt.cached_column_list in
    let closed = listed ++ codes ")" in
    let lined = closed ++ line in
    let headed = lined ++ codes "\nVALUES" in
    omega (
      arith,
      length-append (headed ++ texts) (codes ";"),
      length-append headed texts,
      length-append lined (codes "\nVALUES"),
      length-append closed line,
      length-append listed (codes ")"),
      length-append opened stmt.cached_column_list,
      length-append stmt.cached_table_name (codes " ("),
      length-append (row_text row) rest,
      length-row_text row,
      length-row_texts rows,
      length-output_line stmt.cached_output_clause,
    )

pub length-build_some :
    (stmt : InsertCache) (rows : List (List Text))
    → 0 < length rows
    → length (build stmt rows) + 1 ≡ calculate_base_sql_size stmt + sizes rows
length-build_some stmt [] h = absurd (omega arith)
length-build_some stmt (row ∷ rows) h = length-build stmt row rows
