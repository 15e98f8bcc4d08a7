-- ===== src/Tds/Examples/Parser.antt =====
-- The parser of src/tds/tds_token_parser.cpp on short streams.
use mssql_extension.Prelude.{
  Ensures, List, [], arith, drop, false, inl, length, ok, refl, some, take, true, ℕ, ◌++◌, ◌<◌, ◌∷◌,
  ◌≡◌, ◌⊎◌,
}
use mssql_extension.Tds.Bytes.{read_u16, read_u8}
use mssql_extension.Tds.ColumnMetadata.{is_max_type, is_plp_type}
use mssql_extension.Tds.Examples.Metadata.{low_bytes}
use mssql_extension.Tds.Examples.Rows.{a_row, two_columns}
use mssql_extension.Tds.RowReader.Skip.{
  is_slow, resolve_form_at, resolve_skip_form, skip_by_form, skip_form,
}
use mssql_extension.Tds.RowReader.SkipRow.{skip_columns_fast, skip_fast, skip_row}
use mssql_extension.Tds.RowReader.SkipRows.{descs_of}
use mssql_extension.Tds.TokenParser.{ParsedTokenType, TokenParser, current, feed, raw_row}
use mssql_extension.Tds.TokenParser.Invariant.{Inv, feed-Inv, unread}
use mssql_extension.Tds.TokenParser.Next.{try_parse_next}
use mssql_extension.Tds.TokenParser.Rows.{parse_row-raw, row_skip}
use mssql_extension.Tds.TokenParser.Safety.{try_parse_next-safe}
use mssql_extension.Tds.TokenParser.Session.{Call, fresh, session, session-fresh}
use mssql_extension.Tds.TokenParser.Stall.{try_parse_next-short_error}
use mssql_extension.Tds.TokenParser.Tokens.{has_columns, parse_row, raw_row_result}
use mssql_extension.Tds.TokenParser.TxnDescriptor.{
  IsDescriptor, ReplyToken, find_begin_txn_descriptor, find_begin_txn_descriptor-print_reply,
  find_begin_txn_descriptor-safe, print_reply,
}

-- A DONE token.
abbrev done_bytes : List ℕ
done_bytes = 0xfd ∷ 0x10 ∷ 0 ∷ 0xc1 ∷ 0 ∷ 5 ∷ 0 ∷ 0 ∷ 0 ∷ 0 ∷ 0 ∷ 0 ∷ 0 ∷ []

abbrev some_calls : List Call
some_calls =
    Call.feeds (take 5 done_bytes)
    ∷ Call.parses
    ∷ Call.feeds (drop 5 done_bytes)
    ∷ Call.parses
    ∷ Call.parses
    ∷ Call.resets
    ∷ []

session-fresh_example : Ensures Inv (session low_bytes fresh some_calls)
session-fresh_example = session-fresh low_bytes some_calls

fresh-Inv : Inv fresh
unfolding descs_of
fresh-Inv = record { within = omega arith; ready = inl refl }

abbrev with_done : TokenParser
with_done = feed fresh done_bytes

try_parse_next-safe_example :
    Ensures
      (λ x.
        Inv x.0
        × ((x.1 ≡ ParsedTokenType.need_more_data)
            ⊎ (x.1 ≡ ParsedTokenType.nothing)
            ⊎ (length (unread x.0) < length (unread with_done))))
      (try_parse_next low_bytes with_done)
try_parse_next-safe_example =
    try_parse_next-safe low_bytes with_done (feed-Inv fresh done_bytes fresh-Inv)

-- An ERROR token that declares three bytes.
abbrev with_error : TokenParser
with_error = feed fresh (0xaa ∷ 3 ∷ 0 ∷ 1 ∷ 2 ∷ 3 ∷ [])

try_parse_next-short_error_example :
    try_parse_next low_bytes (feed with_error done_bytes)
    ≡ ok (feed with_error done_bytes, ParsedTokenType.need_more_data)
unfolding feed
try_parse_next-short_error_example =
    try_parse_next-short_error low_bytes with_error 3 0 (1 ∷ 2 ∷ 3 ∷ []) done_bytes
      (feed-Inv fresh (0xaa ∷ 3 ∷ 0 ∷ 1 ∷ 2 ∷ 3 ∷ []) fresh-Inv) refl refl (omega arith)

find_begin_txn_descriptor-safe_example :
    Ensures IsDescriptor (find_begin_txn_descriptor (0xe3 ∷ 255 ∷ 255 ∷ 8 ∷ 8 ∷ 1 ∷ []))
find_begin_txn_descriptor-safe_example =
    find_begin_txn_descriptor-safe (0xe3 ∷ 255 ∷ 255 ∷ 8 ∷ 8 ∷ 1 ∷ [])

abbrev before : List ReplyToken
before =
    ReplyToken.env_change_token 3 0 1 (9 ∷ 9 ∷ [])
    ∷ ReplyToken.done_token 0xfd (0 ∷ 0 ∷ 0 ∷ 0 ∷ 0 ∷ 0 ∷ 0 ∷ 0 ∷ 0 ∷ 0 ∷ 0 ∷ 0 ∷ [])
    ∷ []

abbrev a_descriptor : List ℕ
a_descriptor = 1 ∷ 2 ∷ 3 ∷ 4 ∷ 5 ∷ 6 ∷ 7 ∷ 8 ∷ []

find_begin_txn_descriptor-print_reply_example :
    find_begin_txn_descriptor
      (print_reply before (0xe3 ∷ 11 ∷ 0 ∷ 8 ∷ 8 ∷ a_descriptor ++ (0 ∷ done_bytes)))
    ≡ ok (some a_descriptor)
find_begin_txn_descriptor-print_reply_example =
    find_begin_txn_descriptor-print_reply before 11 0 a_descriptor (0 ∷ done_bytes)
      ((λ h. absurd (omega arith), refl), ((omega arith, omega arith, refl), tt)) refl

-- A parser in raw-row mode with a ROW in front.
abbrev at_row : TokenParser
at_row = record fresh {
  columns = two_columns;
  skip_descs = descs_of two_columns;
  raw_row_mode = true;
  buffer = 0xd1 ∷ a_row ++ done_bytes;
}

abbrev past_row : TokenParser
past_row = record at_row {
  raw_row_offset = 1;
  raw_row_length = 11;
  raw_row_nbc = false;
  pending_consume = 12;
}

row_returned : parse_row false at_row ≡ ok (past_row, some ParsedTokenType.row)
unfolding parse_row has_columns raw_row_result skip_row skip_columns_fast skip_fast descs_of
    resolve_skip_form resolve_form_at is_slow skip_by_form skip_form is_plp_type is_max_type read_u8
    read_u16
row_returned = refl

parse_row-raw_example :
    (raw_row past_row ++ unread past_row ≡ drop 1 (current at_row))
    × (row_skip false at_row ≡ ok (some (length (raw_row past_row))))
parse_row-raw_example = parse_row-raw false at_row past_row refl refl refl row_returned
