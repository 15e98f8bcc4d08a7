-- ===== src/Tds/TokenParser/Session.antt =====
-- The public operations of src/tds/tds_token_parser.hpp's TokenParser, in any order.
use mssql_extension.Prelude.{
  Bool, Ensures, Ensures-cases, List, Outcome, [], arith, false, inl, inr, none, ok, refl, ℕ, ◌>>=◌,
  ◌∷◌,
}
use mssql_extension.Tds.RowReader.ReadRow.{no_columns}
use mssql_extension.Tds.RowReader.Skip.{RowError}
use mssql_extension.Tds.RowReader.SkipRows.{descs_of}
use mssql_extension.Tds.TokenParser.{
  ParserState, TokenParser, feed, no_done, no_message, reset, reset_state,
}
use mssql_extension.Tds.TokenParser.Invariant.{Inv, feed-Inv, reset-Inv, reset_state-Inv}
use mssql_extension.Tds.TokenParser.Next.{try_parse_next}
use mssql_extension.Tds.TokenParser.Safety.{try_parse_next-safe}

pub data Call : Type 0 where
  feeds : List ℕ → Call
  parses resets resets_state : Call
  sets_skip_mode sets_raw_row_mode : Bool → Call

-- A new parser has no bytes, no columns and no modes.
abbrev pub fresh : TokenParser
fresh = record {
  state = ParserState.waiting_for_token;
  parse_error = none;
  skip_rows = false;
  raw_row_mode = false;
  raw_row_offset = 0;
  raw_row_length = 0;
  raw_row_nbc = false;
  pending_consume = 0;
  buffer = [];
  buffer_pos = 0;
  columns = [];
  skip_descs = [];
  current_row = no_columns;
  current_error = no_message;
  current_info = no_message;
  current_done = no_done;
}

module _ (utf16le_decode : List ℕ → List ℕ) where
  -- The parser after a call; an exception that leaves TryParseNext ends the session.
  unfoldable pub perform : TokenParser → Call → Outcome RowError TokenParser
  perform p (feeds bytes) = ok (feed p bytes)
  perform p parses = try_parse_next utf16le_decode p >>= λ r. ok r.0
  perform p resets = ok (reset p)
  perform p resets_state = ok (reset_state p)
  perform p (sets_skip_mode b) = ok (record p { skip_rows = b })
  perform p (sets_raw_row_mode b) = ok (record p { raw_row_mode = b })

  unfoldable pub session : TokenParser → List Call → Outcome RowError TokenParser
  session p [] = ok p
  session p (c ∷ cs) = perform p c >>= λ q. session q cs

  perform-Inv : (p : TokenParser) (c : Call) → Inv p → Ensures Inv (perform p c)
  unfolding perform
  perform-Inv p (feeds bytes) v = feed-Inv p bytes v
  perform-Inv p parses v =
      elim (Ensures-cases _ (try_parse_next utf16le_decode p)
        (try_parse_next-safe utf16le_decode p v)) [
          | inl (r, e, h) ↦ rw e h.0
          | inr (x, e) ↦ rw e tt
        ]
  perform-Inv p resets v = reset-Inv p
  perform-Inv p resets_state v = reset_state-Inv p v
  perform-Inv p (sets_skip_mode b) v = record { within = v.within; ready = v.ready }
  perform-Inv p (sets_raw_row_mode b) v = record { within = v.within; ready = v.ready }

  session-Inv : (p : TokenParser) (cs : List Call) → Inv p → Ensures Inv (session p cs)
  unfolding session
  session-Inv p [] v = v
  session-Inv p (c ∷ cs) v = elim (Ensures-cases _ (perform p c) (perform-Inv p c v)) [
    | inl (q, e, h) ↦ rw e (session-Inv q cs h)
    | inr (x, e) ↦ rw e tt
  ]

  pub session-fresh : (cs : List Call) → Ensures Inv (session fresh cs)
  unfolding descs_of
  session-fresh cs = session-Inv fresh cs (record { within = omega arith; ready = inl refl })
