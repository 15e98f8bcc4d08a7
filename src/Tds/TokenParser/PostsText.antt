-- ===== src/Tds/TokenParser/PostsText.antt =====
-- ParseColMetadata, ParseError, ParseInfo and ParseEnvChange of src/tds/tds_token_parser.cpp keep the
-- invariant, read nothing past the buffer and make progress.
use mssql_extension.Prelude.{
  Ensures, List, Option, Outcome, ap, arith, drop, fault, inl, inr, length, length-drop,
  length-take_le, none, ok, refl, some, take, throw, ℕ, ◌*◌, ◌+◌, ◌-◌, ◌∷◌, ◌≡◌, ◌≤◌,
}
use mssql_extension.Tds.Bytes.Stable.{read_u16_total}
use mssql_extension.Tds.ColumnMetadata.{ColumnMetadata}
use mssql_extension.Tds.ColumnMetadata.Parse.{MetaError, parse}
use mssql_extension.Tds.ColumnMetadata.ParseLaws.{Leaves, parse-safe}
use mssql_extension.Tds.Parser.Safe.{
  IsSafe, call-IsSafe, chunk-IsSafe_all, need-IsSafe, pure-IsSafe, run_safe, u16-IsSafe, u32-IsSafe,
  u8-IsSafe,
}
use mssql_extension.Tds.RowReader.Skip.{RowError}
use mssql_extension.Tds.RowReader.SkipRows.{descs_of}
use mssql_extension.Tds.TokenParser.{
  ParsedTokenType, ParserState, ServerMessage, TokenParser, bad_metadata, current,
}
use mssql_extension.Tds.TokenParser.Invariant.{Inv, consumed-Post, same-Post}
use mssql_extension.Tds.TokenParser.Message.{b_varchar, server_message, us_varchar}
use mssql_extension.Tds.TokenParser.Posts.{Keeps, need_more-Keeps}
use mssql_extension.Tds.TokenParser.Tokens.{
  fail_with, message_result, metadata_result, parse_col_metadata, parse_error_token, parse_info,
  read_message,
}
use native.Mathlib.Decide.{dec_lt}

abbrev pub MessageFits : TokenParser → Option (ℕ × ServerMessage) → Type 0
MessageFits p none = Unit {0}
MessageFits p (some (n, m)) = 3 + n ≤ length (current p)

module _ (utf16le_decode : List ℕ → List ℕ) where
  us_varchar-IsSafe : IsSafe 0 (us_varchar utf16le_decode)
  unfolding us_varchar
  us_varchar-IsSafe =
      need-IsSafe 2
        (u16-IsSafe λ n. need-IsSafe (n * 2) (chunk-IsSafe_all (n * 2) λ v. pure-IsSafe _))

  b_varchar-IsSafe : IsSafe 0 (b_varchar utf16le_decode)
  unfolding b_varchar
  b_varchar-IsSafe =
      need-IsSafe 1
        (u8-IsSafe λ n. need-IsSafe (n * 2) (chunk-IsSafe_all (n * 2) λ v. pure-IsSafe _))

  server_message-IsSafe : IsSafe 6 (server_message utf16le_decode)
  unfolding server_message
  server_message-IsSafe = u32-IsSafe λ number. u8-IsSafe λ state. u8-IsSafe λ severity.
      call-IsSafe us_varchar-IsSafe λ message. call-IsSafe b_varchar-IsSafe λ server.
        call-IsSafe b_varchar-IsSafe λ proc. need-IsSafe 4 (u32-IsSafe λ line. pure-IsSafe _)

  read_message-fits : (p : TokenParser) → Ensures (MessageFits p) (read_message utf16le_decode p)
  unfolding read_message
  read_message-fits p = elim (dec_lt (length (current p)) 3) [
    | yes short ↦ ground arith
    | no enough ↦
        let (n, r) =
          read_u16_total {E = RowError} (drop 1 (current p))
            (omega (arith, length-drop 1 (current p))) in
        ground (
          arith,
          r,
          length-drop 3 (current p),
          length-take_le n (drop 3 (current p)),
          run_safe server_message-IsSafe (take n (drop 3 (current p))),
        )
  ]

  module _ (p : TokenParser) (v : Inv p) (e : p.pending_consume ≡ 0)
      (d : p.skip_descs ≡ descs_of p.columns) where
    error_result-Keeps :
        (r : Outcome RowError (Option (ℕ × ServerMessage)))
        → Ensures (MessageFits p) r
        → Keeps p (message_result (λ q m. record q { current_error = m }) ParsedTokenType.error p r)
    unfolding message_result
    error_result-Keeps (ok none) f = need_more-Keeps p v e
    error_result-Keeps (ok (some (n, m))) f =
        consumed-Post p (record p { current_error = m }) (3 + n) _ e refl refl d (omega arith) f
    error_result-Keeps (throw x) f = tt
    error_result-Keeps fault f = f

    info_result-Keeps :
        (r : Outcome RowError (Option (ℕ × ServerMessage)))
        → Ensures (MessageFits p) r
        → Keeps p (message_result (λ q m. record q { current_info = m }) ParsedTokenType.info p r)
    unfolding message_result
    info_result-Keeps (ok none) f = need_more-Keeps p v e
    info_result-Keeps (ok (some (n, m))) f =
        consumed-Post p (record p { current_info = m }) (3 + n) _ e refl refl d (omega arith) f
    info_result-Keeps (throw x) f = tt
    info_result-Keeps fault f = f

    pub parse_error_token-Keeps : Keeps p (parse_error_token utf16le_decode p)
    unfolding parse_error_token
    parse_error_token-Keeps = error_result-Keeps _ (read_message-fits p)

    pub parse_info-Keeps : Keeps p (parse_info utf16le_decode p)
    unfolding parse_info
    parse_info-Keeps = info_result-Keeps _ (read_message-fits p)

  metadata_result-Keeps :
      (p : TokenParser) (rest : List ℕ)
      → Inv p
      → p.pending_consume ≡ 0
      → current p ≡ 0x81 ∷ rest
      → (cols : List ColumnMetadata) (r : Outcome MetaError (Option (List ℕ)))
      → Ensures (Leaves utf16le_decode (drop 1 (current p))) r
      → Keeps p (metadata_result p (drop 1 (current p)) (cols, r))
  unfolding metadata_result
  metadata_result-Keeps p rest v e at cols (ok none) h =
      same-Post p (record p { columns = cols }) _ (inl refl) v e e refl refl (inr (e, (rest, at)))
  metadata_result-Keeps p rest v e at cols (ok (some left)) h =
      consumed-Post p
        (record p { columns = cols; skip_descs = descs_of cols; state = ParserState.parsing_row })
        (1 + (length (drop 1 (current p)) - length left)) _ e refl refl refl (omega arith)
        (omega (arith, length-drop 1 (current p), ap length at))
  metadata_result-Keeps p rest v e at cols (throw x) h =
      same-Post p (fail_with (record p { columns = cols }) (bad_metadata x)) _ (inl refl) v e e refl
        refl (inr (e, (rest, at)))
  metadata_result-Keeps p rest v e at cols fault h = h

  pub parse_col_metadata-Keeps :
      (p : TokenParser) (rest : List ℕ)
      → Inv p
      → p.pending_consume ≡ 0
      → current p ≡ 0x81 ∷ rest
      → Keeps p (parse_col_metadata utf16le_decode p)
  unfolding parse_col_metadata
  parse_col_metadata-Keeps p rest v e at = ground (
    arith,
    need_more-Keeps p v e,
    metadata_result-Keeps p rest v e at (parse utf16le_decode (drop 1 (current p))).0
        (parse utf16le_decode (drop 1 (current p))).1
        (parse-safe utf16le_decode (drop 1 (current p))),
  )
