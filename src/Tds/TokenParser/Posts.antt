-- ===== src/Tds/TokenParser/Posts.antt =====
-- Each token parser of src/tds/tds_token_parser.cpp keeps the invariant, reads nothing past the buffer and
-- makes progress.
use mssql_extension.Prelude.{
  Bool, Bool-cases, Ensures, List, Option, Outcome, arith, drop, false, fault, if◌then◌else◌, inl,
  inr, length, length-drop, none, ok, refl, some, throw, true, ℕ, ◌+◌, ◌≡◌, ◌≤◌,
}
use mssql_extension.Tds.Bytes.Stable.{read_u16_total, read_u32_total, read_u64_total}
use mssql_extension.Tds.RowReader.ReadBounds.{RowFits, read_nbc_row-within, read_row-within}
use mssql_extension.Tds.RowReader.ReadRow.{RowResult, read_nbc_row, read_row}
use mssql_extension.Tds.RowReader.Skip.{RowError}
use mssql_extension.Tds.RowReader.SkipRow.{skip_nbc_row, skip_row}
use mssql_extension.Tds.RowReader.SkipRows.{
  FitsIn, descs_of, skip_nbc_row-FitsIn, skip_nbc_row-descs_of, skip_row-FitsIn, skip_row-descs_of,
}
use mssql_extension.Tds.TokenParser.{
  DoneToken, ParseError, ParsedTokenType, ParserState, TokenParser, consume_bytes, current,
  row_before_metadata,
}
use mssql_extension.Tds.TokenParser.Invariant.{Inv, Post, consumed-Post, same-Post}
use mssql_extension.Tds.TokenParser.Tokens.{
  Step, done_state, fail_with, is_final, need_more, parse_done, parse_row, pass_fedauthinfo,
  pass_token, raw_row_result, read_row_result, skipped_row,
}
use native.Mathlib.Decide.{dec_lt}

abbrev pub Keeps : TokenParser → Step → Type 0
Keeps p r = Ensures (λ x. Post p x.0 x.1) r

pub need_more-Keeps : (p : TokenParser) → Inv p → p.pending_consume ≡ 0 → Keeps p (need_more p)
need_more-Keeps p v e = same-Post p p _ (inl refl) v e e refl refl v.ready

-- The verdict is no part of the invariant.
restate-Post :
    (p q : TokenParser) (s : ParserState) {t : Option ParsedTokenType}
    → Post p q t
    → Post p (record q { state = s }) t
restate-Post p q s h = record {
  inv = record { within = h.inv.within; ready = h.inv.ready };
  progress = h.progress;
  settled = h.settled;
}

module _ (p : TokenParser) (v : Inv p) (e : p.pending_consume ≡ 0)
    (d : p.skip_descs ≡ descs_of p.columns) where
  pub pass_token-Keeps : (t : Option ParsedTokenType) → Keeps p (pass_token t p)
  unfolding pass_token
  pass_token-Keeps t = elim (dec_lt (length (current p)) 3) [
    | yes short ↦ ground (arith, need_more-Keeps p v e)
    | no enough ↦
        let (n, r) =
          read_u16_total {E = RowError} (drop 1 (current p))
            (omega (arith, length-drop 1 (current p))) in
        ground
          (arith, r, need_more-Keeps p v e, consumed-Post p p (n + 3) t e refl refl d (omega arith))
  ]

  pub pass_fedauthinfo-Keeps : Keeps p (pass_fedauthinfo p)
  unfolding pass_fedauthinfo
  pass_fedauthinfo-Keeps = elim (dec_lt (length (current p)) 5) [
    | yes short ↦ ground (arith, need_more-Keeps p v e)
    | no enough ↦
        let (n, r) =
          read_u32_total {E = RowError} (drop 1 (current p))
            (omega (arith, length-drop 1 (current p))) in
        ground (
          arith,
          r,
          need_more-Keeps p v e,
          consumed-Post p p (n + 5) none e refl refl d (omega arith),
        )
  ]

  done_state-Post :
      (x : DoneToken)
      → 13 ≤ length (current p)
      → Post p (done_state p x) (some ParsedTokenType.done)
  unfolding done_state
  done_state-Post x le =
      let h : Post p (consume_bytes (record p { current_done = x }) 13)
          (some ParsedTokenType.done) =
        consumed-Post p (record p { current_done = x }) 13 _ e refl refl d (omega arith) le in
      elim (Bool-cases (is_final x)) [
        | inl f ↦ rw f (restate-Post p _ ParserState.complete h)
        | inr f ↦ rw f h
      ]

  pub parse_done-Keeps : Keeps p (parse_done p)
  unfolding parse_done
  parse_done-Keeps = elim (dec_lt (length (current p)) 13) [
    | yes short ↦ ground (arith, need_more-Keeps p v e)
    | no enough ↦
        let (a, ra) =
          read_u16_total {E = RowError} (drop 1 (current p))
            (omega (arith, length-drop 1 (current p))) in
        let (b, rb) =
          read_u16_total {E = RowError} (drop 3 (current p))
            (omega (arith, length-drop 3 (current p))) in
        let (c, rc) =
          read_u64_total {E = RowError} (drop 5 (current p))
            (omega (arith, length-drop 5 (current p))) in
        ground
          (arith, ra, rb, rc, done_state-Post (record { status = a; cur_cmd = b; row_count = c }))
  ]

  fail_with-Keeps : (x : ParseError) → Keeps p (need_more (fail_with p x))
  fail_with-Keeps x = same-Post p (fail_with p x) _ (inl refl) v e e refl refl (inl d)

  skipped_row-Keeps :
      (r : Outcome RowError (Option ℕ))
      → FitsIn (drop 1 (current p)) r
      → 1 ≤ length (current p)
      → Keeps p (skipped_row p r)
  unfolding skipped_row
  skipped_row-Keeps (ok none) f l = need_more-Keeps p v e
  skipped_row-Keeps (ok (some n)) f l =
      consumed-Post p p (1 + n) _ e refl refl d (omega arith)
        (omega (arith, length-drop 1 (current p)))
  skipped_row-Keeps (throw x) f l = tt
  skipped_row-Keeps fault f l = f

  raw_row_result-Keeps :
      (nbc : Bool) (r : Outcome RowError (Option ℕ))
      → FitsIn (drop 1 (current p)) r
      → 1 ≤ length (current p)
      → Keeps p (raw_row_result nbc p r)
  unfolding raw_row_result
  raw_row_result-Keeps nbc (ok none) f l = need_more-Keeps p v e
  raw_row_result-Keeps nbc (ok (some n)) f l = record {
    inv = record {
      within =
          omega (arith, length-drop 1 (current p), length-drop p.buffer_pos p.buffer, v.within);
      ready = inl d;
    };
    progress =
        inr (inr (omega (arith, length-drop (1 + n) (current p), length-drop 1 (current p))));
    settled = inr refl;
  }
  raw_row_result-Keeps nbc (throw x) f l = tt
  raw_row_result-Keeps nbc fault f l = f

  read_row_result-Keeps :
      (r : RowResult)
      → Ensures (RowFits (drop 1 (current p))) r
      → 1 ≤ length (current p)
      → Keeps p (read_row_result p r)
  unfolding read_row_result
  read_row_result-Keeps (ok none) f l = need_more-Keeps p v e
  read_row_result-Keeps (ok (some (n, row))) f l =
      consumed-Post p (record p { current_row = row }) (1 + n) _ e refl refl d (omega arith)
        (omega (arith, length-drop 1 (current p)))
  read_row_result-Keeps (throw x) f l = fail_with-Keeps _
  read_row_result-Keeps fault f l = f

  skip_fits :
      (nbc : Bool) (buf : List ℕ)
      → FitsIn buf ((if nbc then skip_nbc_row else skip_row) (some p.skip_descs) p.columns buf)
  skip_fits true buf =
      rw (d, skip_nbc_row-descs_of p.columns buf) (skip_nbc_row-FitsIn p.columns buf)
  skip_fits false buf = rw (d, skip_row-descs_of p.columns buf) (skip_row-FitsIn p.columns buf)

  read_fits :
      (nbc : Bool) (buf : List ℕ)
      → Ensures (RowFits buf) ((if nbc then read_nbc_row else read_row) p.columns buf)
  read_fits true buf = read_nbc_row-within p.columns buf
  read_fits false buf = read_row-within p.columns buf

  pub parse_row-Keeps : (nbc : Bool) → 1 ≤ length (current p) → Keeps p (parse_row nbc p)
  unfolding parse_row
  parse_row-Keeps nbc l = ground (
    arith,
    fail_with-Keeps row_before_metadata,
    need_more-Keeps p v e,
    skipped_row-Keeps _ (skip_fits nbc (drop 1 (current p))) l,
    raw_row_result-Keeps nbc _ (skip_fits nbc (drop 1 (current p))) l,
    read_row_result-Keeps _ (read_fits nbc (drop 1 (current p))) l,
  )
