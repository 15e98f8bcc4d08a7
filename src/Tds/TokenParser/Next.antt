-- ===== src/Tds/TokenParser/Next.antt =====
-- src/tds/tds_token_parser.cpp: TryParseNext.
use mssql_extension.Prelude.{
  Bool, List, false, fault, if◌then◌else◌, length, ltb, none, ok, some, suc, throw, true, zero, ℕ,
  ◌>>=◌,
}
use mssql_extension.Tds.Bytes.{read_u8}
use mssql_extension.Tds.TokenParser.{
  ParsedTokenType, ParserState, TokenParser, consume_bytes, current, unknown_token,
}
use mssql_extension.Tds.TokenParser.Tokens.{
  Parsed, Step, fail_with, need_more, parse_col_metadata, parse_done, parse_env_change,
  parse_error_token, parse_info, parse_row, pass_fedauthinfo, pass_token,
}
use mssql_extension.Tds.Types.{TokenType, token_of_byte}

-- `state_ == Complete || state_ == Error`
unfoldable pub is_ended : ParserState → Bool
is_ended ParserState.complete = true
is_ended ParserState.error = true
is_ended _ = false

-- The bytes of the raw row that was returned last.
unfoldable pub take_pending : TokenParser → TokenParser
take_pending p =
    if ltb 0 p.pending_consume
    then consume_bytes (record p { pending_consume = 0 }) p.pending_consume
    else p

module _ (utf16le_decode : List ℕ → List ℕ) where
  -- The switch on the token type.
  unfoldable pub parse_token : TokenType → TokenParser → Step
  parse_token TokenType.colmetadata p = parse_col_metadata utf16le_decode p
  parse_token TokenType.row p = parse_row false p
  parse_token TokenType.nbcrow p = parse_row true p
  parse_token TokenType.done p = parse_done p
  parse_token TokenType.doneproc p = parse_done p
  parse_token TokenType.doneinproc p = parse_done p
  parse_token TokenType.error_token p = parse_error_token utf16le_decode p
  parse_token TokenType.info p = parse_info utf16le_decode p
  parse_token TokenType.envchange p = parse_env_change p
  parse_token TokenType.order p = pass_token none p
  parse_token TokenType.returnstatus p = pass_token none p
  parse_token TokenType.returnvalue p = pass_token none p
  parse_token TokenType.loginack p = pass_token none p
  parse_token TokenType.tabname p = pass_token none p
  parse_token TokenType.colinfo p = pass_token none p
  parse_token TokenType.sspi p = pass_token none p
  parse_token TokenType.fedauthinfo p = pass_fedauthinfo p
  parse_token TokenType.featureextack p =
      ok (fail_with p (unknown_token 0xae), some ParsedTokenType.nothing)
  parse_token (TokenType.unknown b) p =
      ok (fail_with p (unknown_token b), some ParsedTokenType.nothing)

  -- One round of the loop.
  unfoldable pub round : TokenParser → Step
  round p =
      if is_ended p.state
      then need_more p
      else if ltb (length (current p)) 1
      then need_more p
      else (read_u8 (current p) >>= λ b. parse_token (token_of_byte b) p)

  -- Every round that goes on takes 3 bytes at least.
  unfoldable pub rounds : ℕ → TokenParser → Parsed
  rounds zero p = fault
  rounds (suc fuel) p = elim (round p) [
    | ok (q, some t) ↦ ok (q, t)
    | ok (q, none) ↦ rounds fuel q
    | throw e ↦ throw e
    | fault ↦ fault
  ]

  unfoldable pub try_parse_next : TokenParser → Parsed
  try_parse_next p = rounds (suc (length p.buffer)) (take_pending p)
