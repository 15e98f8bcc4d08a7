-- ===== src/Tds/TokenParser/Tokens.antt =====
-- src/tds/tds_token_parser.cpp: the parsers of single tokens, and TryParseNext. An exception that leaves
-- a call is `throw`; in skip mode and in raw-row mode that of the row walk does. A message that is cut
-- short is not kept in `current_error` or `current_info`, which are read after a complete one only.
use mssql_extension.Prelude.{
  Bool, List, Option, Outcome, [], drop, false, fault, if◌then◌else◌, length, ltb, none, not, ok,
  some, take, throw, true, ℕ, ◌%◌, ◌+◌, ◌-◌, ◌/◌, ◌==◌, ◌>>=◌, ◌∷◌,
}
use mssql_extension.Tds.Bytes.{read_u16, read_u32, read_u64}
use mssql_extension.Tds.ColumnMetadata.{ColumnMetadata}
use mssql_extension.Tds.ColumnMetadata.Parse.{MetaError, parse}
use mssql_extension.Tds.RowReader.ReadRow.{RowResult, read_nbc_row, read_row}
use mssql_extension.Tds.RowReader.Skip.{RowError}
use mssql_extension.Tds.RowReader.SkipRow.{skip_nbc_row, skip_row}
use mssql_extension.Tds.RowReader.SkipRows.{descs_of}
use mssql_extension.Tds.TokenParser.{
  DoneToken, ParseError, ParsedTokenType, ParserState, ServerMessage, TokenParser, bad_metadata,
  bad_row, consume_bytes, current, row_before_metadata,
}
use mssql_extension.Tds.TokenParser.Message.{server_message}

-- `&& status` with a flag of one bit.
abbrev pub has_flag : ℕ → ℕ → Bool
has_flag status bit = status / bit % 2 == 1

unfoldable pub is_final : DoneToken → Bool
is_final d = not (has_flag d.status 1)

abbrev pub Parsed : Type 0
Parsed = Outcome RowError (TokenParser × ParsedTokenType)

-- The parser and what TryParseNext returns; `none` is `continue`.
abbrev pub Step : Type 0
Step = Outcome RowError (TokenParser × Option ParsedTokenType)

abbrev pub need_more : TokenParser → Step
need_more p = ok (p, some ParsedTokenType.need_more_data)

abbrev pub fail_with : TokenParser → ParseError → TokenParser
fail_with p e = record p { parse_error = some e; state = ParserState.error }

unfoldable pub metadata_result :
    TokenParser → List ℕ → List ColumnMetadata × Outcome MetaError (Option (List ℕ)) → Step
metadata_result p buf (cols, ok none) = need_more (record p { columns = cols })
metadata_result p buf (cols, ok (some rest)) = ok (
  consume_bytes
      (record p { columns = cols; skip_descs = descs_of cols; state = ParserState.parsing_row })
      (1 + (length buf - length rest)),
  some ParsedTokenType.col_metadata,
)
metadata_result p buf (cols, throw e) =
    need_more (fail_with (record p { columns = cols }) (bad_metadata e))
metadata_result p buf (cols, fault) = fault

unfoldable pub message_result :
    (TokenParser → ServerMessage → TokenParser)
    → ParsedTokenType
    → TokenParser
    → Outcome RowError (Option (ℕ × ServerMessage))
    → Step
message_result keep t p (ok (some (token_length, m))) =
    ok (consume_bytes (keep p m) (3 + token_length), some t)
message_result keep t p (ok none) = need_more p
message_result keep t p (throw e) = throw e
message_result keep t p fault = fault

module _ (utf16le_decode : List ℕ → List ℕ) where
  -- The state is that of a call after which TryParseNext returns ColMetadata, or NeedMoreData.
  unfoldable pub parse_col_metadata : TokenParser → Step
  parse_col_metadata p =
      if ltb (length (current p)) 3
      then need_more p
      else metadata_result p (drop 1 (current p)) (parse utf16le_decode (drop 1 (current p)))

  -- ParseError and ParseInfo: the message, once the token is all there; `none` is `return false`.
  unfoldable pub read_message : TokenParser → Outcome RowError (Option (ℕ × ServerMessage))
  read_message p =
      if ltb (length (current p)) 3
      then ok none
      else (read_u16 (drop 1 (current p)) >>= λ token_length.
          if ltb (length (current p)) (3 + token_length)
          then ok none
          else if ltb token_length 6
          then ok none
          else elim (server_message utf16le_decode (take token_length (drop 3 (current p)))) [
            | ok (some (m, rest)) ↦ ok (some (token_length, m))
            | ok none ↦ ok none
            | throw e ↦ throw e
            | fault ↦ fault
          ])

  unfoldable pub parse_error_token : TokenParser → Step
  parse_error_token p =
      message_result (λ q m. record q { current_error = m }) ParsedTokenType.error p
        (read_message p)

  unfoldable pub parse_info : TokenParser → Step
  parse_info p =
      message_result (λ q m. record q { current_info = m }) ParsedTokenType.info p (read_message p)

-- The answer of the row walk in skip mode, and in raw-row mode: the bytes stay where they are until the
-- next call.
unfoldable pub skipped_row : TokenParser → Outcome RowError (Option ℕ) → Step
skipped_row p (ok none) = need_more p
skipped_row p (ok (some n)) = ok (consume_bytes p (1 + n), some ParsedTokenType.row)
skipped_row p (throw e) = throw e
skipped_row p fault = fault

unfoldable pub raw_row_result : Bool → TokenParser → Outcome RowError (Option ℕ) → Step
raw_row_result nbc p (ok none) = need_more p
raw_row_result nbc p (ok (some n)) = ok (
  record p {
    raw_row_offset = p.buffer_pos + 1;
    raw_row_length = n;
    raw_row_nbc = nbc;
    pending_consume = 1 + n;
  },
  some ParsedTokenType.row,
)
raw_row_result nbc p (throw e) = throw e
raw_row_result nbc p fault = fault

-- A row that is cut short, or cannot be read, leaves current_row_ as it was; the source has cleared it
-- and written some columns by then, which no caller reads, since the next row clears it again.
unfoldable pub read_row_result : TokenParser → RowResult → Step
read_row_result p (ok none) = need_more p
read_row_result p (ok (some (n, row))) =
    ok (consume_bytes (record p { current_row = row }) (1 + n), some ParsedTokenType.row)
read_row_result p (throw e) = need_more (fail_with p (bad_row e))
read_row_result p fault = fault

unfoldable pub has_columns : List ColumnMetadata → Bool
has_columns [] = false
has_columns (c ∷ cs) = true

-- ParseRow, and ParseNBCRow with `nbc`.
unfoldable pub parse_row : Bool → TokenParser → Step
parse_row nbc p =
    let buf = drop 1 (current p) in
    let skip = if nbc then skip_nbc_row else skip_row in
    let read = if nbc then read_nbc_row else read_row in
    if not (has_columns p.columns)
    then need_more (fail_with p row_before_metadata)
    else if ltb (length (current p)) 1
    then need_more p
    else if p.skip_rows
    then skipped_row p (skip (some p.skip_descs) p.columns buf)
    else if p.raw_row_mode
    then raw_row_result nbc p (skip (some p.skip_descs) p.columns buf)
    else read_row_result p (read p.columns buf)

unfoldable pub done_state : TokenParser → DoneToken → TokenParser
done_state p d =
    let q = consume_bytes (record p { current_done = d }) 13 in
    if is_final d then record q { state = ParserState.complete } else q

unfoldable pub parse_done : TokenParser → Step
parse_done p =
    if ltb (length (current p)) 13
    then need_more p
    else (read_u16 (drop 1 (current p)) >>= λ status. read_u16 (drop 3 (current p)) >>= λ cur_cmd.
        read_u64 (drop 5 (current p)) >>= λ row_count.
        let d : DoneToken = record { status = status; cur_cmd = cur_cmd; row_count = row_count } in
        ok (done_state p d, some ParsedTokenType.done))

-- A token whose payload is passed over, behind a length of 2 bytes or of 4; `t` is what is returned.
unfoldable pub pass_token : Option ParsedTokenType → TokenParser → Step
pass_token t p =
    if ltb (length (current p)) 3
    then need_more p
    else (read_u16 (drop 1 (current p)) >>= λ token_length.
        if ltb (length (current p)) (token_length + 3)
        then need_more p
        else ok (consume_bytes p (token_length + 3), t))

unfoldable pub parse_env_change : TokenParser → Step
unfolding pass_token
parse_env_change p = pass_token (some ParsedTokenType.env_change) p

unfoldable pub pass_fedauthinfo : TokenParser → Step
pass_fedauthinfo p =
    if ltb (length (current p)) 5
    then need_more p
    else (read_u32 (drop 1 (current p)) >>= λ token_length.
        if ltb (length (current p)) (token_length + 5)
        then need_more p
        else ok (consume_bytes p (token_length + 5), none))
