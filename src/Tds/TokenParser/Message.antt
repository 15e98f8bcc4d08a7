-- ===== src/Tds/TokenParser/Message.antt =====
-- src/tds/tds_token_parser.cpp: ParseUSVarchar, ParseBVarchar, and the fields of an ERROR or INFO token,
-- which ParseError and ParseInfo read alike.
use mssql_extension.Prelude.{List, ℕ, ◌*◌}
use mssql_extension.Tds.Parser.{Parser, chunk, need, pure, u16, u32, u8, ◌>>=◌, ◌>>◌}
use mssql_extension.Tds.RowReader.Skip.{RowError}
use mssql_extension.Tds.TokenParser.{ServerMessage}

module _ (utf16le_decode : List ℕ → List ℕ) where
  -- The fields behind the length of an ERROR or INFO token, within the bytes that it declares.
  unfoldable pub us_varchar : Parser RowError (List ℕ)
  us_varchar = do need 2; n ← u16; need (n * 2); s ← chunk (n * 2); pure (utf16le_decode s)

  unfoldable pub b_varchar : Parser RowError (List ℕ)
  b_varchar = do need 1; n ← u8; need (n * 2); s ← chunk (n * 2); pure (utf16le_decode s)

  unfoldable pub server_message : Parser RowError ServerMessage
  unfolding us_varchar b_varchar
  server_message = do
    number ← u32
    state ← u8
    severity ← u8
    message ← us_varchar
    server_name ← b_varchar
    proc_name ← b_varchar
    need 4
    line_number ← u32
    pure (record {
      number = number;
      state = state;
      severity = severity;
      message = message;
      server_name = server_name;
      proc_name = proc_name;
      line_number = line_number;
    })
