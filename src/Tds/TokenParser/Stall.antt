-- ===== src/Tds/TokenParser/Stall.antt =====
-- ERROR and INFO tokens of src/tds/tds_token_parser.cpp that declare fewer than six bytes.
use mssql_extension.Prelude.{
  List, ap, arith, drop-append, none, ok, ℕ, ◌*◌, ◌++◌, ◌+◌, ◌<◌, ◌∙◌, ◌∷◌, ◌≡◌,
}
use mssql_extension.Tds.Bytes.{read_u16, read_u8}
use mssql_extension.Tds.TokenParser.{ParsedTokenType, TokenParser, current, feed}
use mssql_extension.Tds.TokenParser.Invariant.{Inv}
use mssql_extension.Tds.TokenParser.Next.{parse_token, round, rounds, take_pending, try_parse_next}
use mssql_extension.Tds.TokenParser.Tokens.{
  message_result, need_more, parse_error_token, read_message,
}
use mssql_extension.Tds.Types.{token_of_byte}

module _ (utf16le_decode : List ℕ → List ℕ) where
  stalls :
      (p : TokenParser) (a b : ℕ) (rest : List ℕ)
      → current p ≡ 0xaa ∷ a ∷ b ∷ rest
      → a + b * 256 < 6
      → read_message utf16le_decode p ≡ ok none
  unfolding read_message read_u16
  stalls p a b rest at h = ground (arith, at)

  stalled_round :
      (p : TokenParser) (a b : ℕ) (rest : List ℕ)
      → current p ≡ 0xaa ∷ a ∷ b ∷ rest
      → a + b * 256 < 6
      → round utf16le_decode p ≡ need_more p
  unfolding round read_u8 token_of_byte parse_token parse_error_token message_result
  stalled_round p a b rest at h = ground (arith, at, stalls p a b rest at h)

  -- An ERROR token that declares fewer than 6 bytes is neither consumed nor refused: with it in
  -- front of a parser that has the invariant and no pending consume, the
  -- parser asks for more data and stays as it is, however many bytes are fed.
  pub try_parse_next-short_error :
      (p : TokenParser) (a b : ℕ) (rest more : List ℕ)
      → Inv p
      → p.pending_consume ≡ 0
      → current p ≡ 0xaa ∷ a ∷ b ∷ rest
      → a + b * 256 < 6
      → try_parse_next utf16le_decode (feed p more)
        ≡ ok (feed p more, ParsedTokenType.need_more_data)
  unfolding try_parse_next rounds take_pending feed
  try_parse_next-short_error p a b rest more v e at h = ground (
    arith,
    e,
    stalled_round (feed p more) a b (rest ++ more)
        (drop-append p.buffer_pos p.buffer more (omega (arith, v.within)) ∙ ap (λ t. t ++ more) at)
        h,
  )
