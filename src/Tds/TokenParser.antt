-- ===== src/Tds/TokenParser.antt =====
-- TokenParser of src/tds/tds_token_parser.cpp and .hpp: the state, and the management of its buffer.
pub mod Message
pub mod Tokens
pub mod Next
pub mod Invariant
pub mod Posts
pub mod PostsText
pub mod Safety
pub mod Session
pub mod Rows
pub mod Stall
pub mod TxnDescriptor
use mssql_extension.Prelude.{
  Bool, List, Option, [], drop, false, if◌then◌else◌, length, ltb, map, none, take, ℕ, ◌&&◌, ◌++◌,
  ◌+◌, ◌/◌,
}
use mssql_extension.Tds.ColumnMetadata.{ColumnMetadata}
use mssql_extension.Tds.ColumnMetadata.Parse.{MetaError}
use mssql_extension.Tds.RowReader.ReadRow.{RowData}
use mssql_extension.Tds.RowReader.Skip.{RowError, SkipDesc}

pub data ParserState : Type 0 where
  waiting_for_token parsing_col_metadata parsing_row parsing_done parsing_error parsing_info
        complete error :
      ParserState

pub data ParsedTokenType : Type 0 where
  nothing col_metadata row done error info env_change need_more_data : ParsedTokenType

-- TdsError and TdsInfo, which have the same fields.
pub record ServerMessage : Type 0 where
  pub number : ℕ
  pub state : ℕ
  pub severity : ℕ
  pub message : List ℕ
  pub server_name : List ℕ
  pub proc_name : List ℕ
  pub line_number : ℕ

pub record DoneToken : Type 0 where
  pub status : ℕ
  pub cur_cmd : ℕ
  pub row_count : ℕ

-- What `parse_error_` says, without its text.
pub data ParseError : Type 0 where
  unknown_token : ℕ → ParseError
  bad_metadata : MetaError → ParseError
  row_before_metadata : ParseError
  bad_row : RowError → ParseError

pub record TokenParser : Type 0 where
  pub state : ParserState
  pub parse_error : Option ParseError
  pub skip_rows : Bool
  pub raw_row_mode : Bool
  pub raw_row_offset : ℕ
  pub raw_row_length : ℕ
  pub raw_row_nbc : Bool
  pub pending_consume : ℕ
  pub buffer : List ℕ
  pub buffer_pos : ℕ
  pub columns : List ColumnMetadata
  pub skip_descs : List SkipDesc
  pub current_row : RowData
  pub current_error : ServerMessage
  pub current_info : ServerMessage
  pub current_done : DoneToken

abbrev pub no_message : ServerMessage
no_message = record {
  number = 0;
  state = 0;
  severity = 0;
  message = [];
  server_name = [];
  proc_name = [];
  line_number = 0;
}

abbrev pub no_done : DoneToken
no_done = record { status = 0; cur_cmd = 0; row_count = 0 }

-- RowData::Clear: the columns stay, each empty and not NULL.
unfoldable pub clear_row : RowData → RowData
clear_row r = record { values = map (λ _. []) r.values; null_mask = map (λ _. false) r.null_mask }

-- The modes, and the mark of a raw NBCROW, stay as they are.
unfoldable pub reset : TokenParser → TokenParser
reset p = record p {
  state = ParserState.waiting_for_token;
  parse_error = none;
  buffer = [];
  buffer_pos = 0;
  columns = [];
  skip_descs = [];
  current_row = clear_row p.current_row;
  current_error = no_message;
  current_info = no_message;
  current_done = no_done;
  pending_consume = 0;
  raw_row_offset = 0;
  raw_row_length = 0;
}

unfoldable pub reset_state : TokenParser → TokenParser
reset_state p = record p { state = ParserState.waiting_for_token }

unfoldable pub feed : TokenParser → List ℕ → TokenParser
feed p bytes = record p { buffer = p.buffer ++ bytes }

-- The bytes from `Current()` on, `Available()` of them.
abbrev pub current : TokenParser → List ℕ
current p = drop p.buffer_pos p.buffer

unfoldable pub compact_buffer : TokenParser → TokenParser
compact_buffer p =
    if ltb (length p.buffer / 2) p.buffer_pos && ltb 4096 p.buffer_pos
    then record p { buffer = drop p.buffer_pos p.buffer; buffer_pos = 0 }
    else p

unfoldable pub consume_bytes : TokenParser → ℕ → TokenParser
consume_bytes p count = compact_buffer (record p { buffer_pos = p.buffer_pos + count })

-- GetRawRow and GetRawRowLength.
unfoldable pub raw_row : TokenParser → List ℕ
raw_row p = take p.raw_row_length (drop p.raw_row_offset p.buffer)
