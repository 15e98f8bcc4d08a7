-- ===== src/Tds/TokenParser/Rows.antt =====
-- Raw-row mode of src/tds/tds_token_parser.cpp: what the caller gets, and what is left for the next call.
use mssql_extension.Prelude.{
  Bool, Option, Outcome, ap, arith, drop, drop-drop, false, fault, if◌then◌else◌, length,
  length-take_le, none, ok, some, subst, sym, take-append-drop, throw, true, ℕ, ◌++◌, ◌+◌, ◌∙◌, ◌≡◌,
}
use mssql_extension.Tds.RowReader.Skip.{RowError}
use mssql_extension.Tds.RowReader.SkipRow.{skip_nbc_row, skip_row}
use mssql_extension.Tds.RowReader.SkipRows.{
  FitsIn, descs_of, skip_nbc_row-FitsIn, skip_nbc_row-descs_of, skip_row-FitsIn, skip_row-descs_of,
}
use mssql_extension.Tds.TokenParser.{ParsedTokenType, TokenParser, current, raw_row}
use mssql_extension.Tds.TokenParser.Invariant.{unread}
use mssql_extension.Tds.TokenParser.Tokens.{parse_row, raw_row_result}

raw_result :
    (nbc : Bool) (p q : TokenParser) (r : Outcome RowError (Option ℕ))
    → FitsIn (drop 1 (current p)) r
    → raw_row_result nbc p r ≡ ok (q, some ParsedTokenType.row)
    → (raw_row q ++ unread q ≡ drop 1 (current p)) × (r ≡ ok (some (length (raw_row q))))
unfolding raw_row_result raw_row
raw_result nbc p q (ok none) f h = cc
raw_result nbc p q (ok (some n)) f h =
    subst
      (λ r.
        (raw_row r ++ unread r ≡ drop 1 (current p))
        × (◌≡◌ {A = Outcome RowError (Option ℕ)} (ok (some n)) (ok (some (length (raw_row r))))))
      same
      (
        rw (rest, behind) (take-append-drop n (drop (p.buffer_pos + 1) p.buffer)),
        rw (length-take_le n (drop (p.buffer_pos + 1) p.buffer) (rw behind at f)),
      )
  where
    same :
        record p {
          raw_row_offset = p.buffer_pos + 1;
          raw_row_length = n;
          raw_row_nbc = nbc;
          pending_consume = 1 + n;
        }
        ≡ q
    same = ground (arith, h)

    behind : drop 1 (current p) ≡ drop (p.buffer_pos + 1) p.buffer
    behind = drop-drop p.buffer_pos 1 p.buffer

    rest : drop (1 + n) (current p) ≡ drop n (drop (p.buffer_pos + 1) p.buffer)
    rest = sym (drop-drop 1 n (current p)) ∙ ap (drop n) behind
raw_result nbc p q (throw x) f h = cc
raw_result nbc p q fault f h = cc

abbrev pub row_skip : Bool → TokenParser → Outcome RowError (Option ℕ)
row_skip nbc p = (if nbc then skip_nbc_row else skip_row) none p.columns (drop 1 (current p))

row_skip-eq :
    (nbc : Bool) (p : TokenParser)
    → p.skip_descs ≡ descs_of p.columns
    → (if nbc then skip_nbc_row else skip_row) (some p.skip_descs) p.columns (drop 1 (current p))
      ≡ row_skip nbc p
row_skip-eq true p d = rw d (skip_nbc_row-descs_of p.columns (drop 1 (current p)))
row_skip-eq false p d = rw d (skip_row-descs_of p.columns (drop 1 (current p)))

row_skip-fits : (nbc : Bool) (p : TokenParser) → FitsIn (drop 1 (current p)) (row_skip nbc p)
row_skip-fits true p = skip_nbc_row-FitsIn p.columns (drop 1 (current p))
row_skip-fits false p = skip_row-FitsIn p.columns (drop 1 (current p))

-- In raw-row mode and not in skip mode, with the skip forms of its columns, a row that is returned is what stands between the token byte and the bytes that the
-- next call goes on with, and its length is that of the walk by the types of the columns.
pub parse_row-raw :
    (nbc : Bool) (p q : TokenParser)
    → p.skip_descs ≡ descs_of p.columns
    → p.skip_rows ≡ false
    → p.raw_row_mode ≡ true
    → parse_row nbc p ≡ ok (q, some ParsedTokenType.row)
    → (raw_row q ++ unread q ≡ drop 1 (current p))
      × (row_skip nbc p ≡ ok (some (length (raw_row q))))
unfolding parse_row
parse_row-raw nbc p q d s m h = raw_result nbc p q (row_skip nbc p) (row_skip-fits nbc p) raw
  where
    raw : raw_row_result nbc p (row_skip nbc p) ≡ ok (q, some ParsedTokenType.row)
    raw = ground (arith, h, s, m, row_skip-eq nbc p d)
