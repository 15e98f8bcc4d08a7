-- ===== src/Tds/TokenParser/Invariant.antt =====
-- What the state of src/tds/tds_token_parser.cpp's TokenParser satisfies between calls.
use mssql_extension.Prelude.{
  List, Option, ap, arith, drop, drop-append, drop-drop, inl, inr, length, length-append,
  length-drop, refl, some, sym, ℕ, ◌++◌, ◌+◌, ◌-◌, ◌<◌, ◌∙◌, ◌∷◌, ◌≡◌, ◌≤◌, ◌⊎◌,
}
use mssql_extension.Tds.RowReader.SkipRows.{descs_of}
use mssql_extension.Tds.TokenParser.{
  ParsedTokenType, TokenParser, compact_buffer, consume_bytes, current, feed, reset, reset_state,
}
use mssql_extension.Tds.Types.{TokenType, token_of_byte}

-- The bytes behind a raw row that is still to be consumed.
abbrev pub unread : TokenParser → List ℕ
unread p = drop p.pending_consume (current p)

-- The next token is a COLMETADATA token, which has been parsed in part.
abbrev pub AtMetadata : TokenParser → Type 0
AtMetadata p = (p.pending_consume ≡ 0) × ((rest : List ℕ) × (current p ≡ 0x81 ∷ rest))

-- The position is within the buffer, with what is still to be consumed; and the skip forms are those of
-- the columns, unless `columns_` holds the part of a COLMETADATA token that will be parsed again.
pub record Inv (p : TokenParser) : Type 0 where
  pub within : p.buffer_pos + p.pending_consume ≤ length p.buffer
  pub ready : (p.skip_descs ≡ descs_of p.columns) ⊎ AtMetadata p

-- After a round: the invariant, and fewer unread bytes unless more data is needed or the token is
-- unknown. A round that goes on leaves nothing pending.
pub record Post (p q : TokenParser) (t : Option ParsedTokenType) : Type 0 where
  pub inv : Inv q
  pub progress :
      (t ≡ some ParsedTokenType.need_more_data)
      ⊎ (t ≡ some ParsedTokenType.nothing)
      ⊎ (length (unread q) < length (current p))
  pub settled : (q.pending_consume ≡ 0) ⊎ (t ≡ some ParsedTokenType.row)

pub token_of_byte_metadata : (b : ℕ) → token_of_byte b ≡ TokenType.colmetadata → b ≡ 0x81
unfolding token_of_byte
token_of_byte_metadata b h = ground arith

pub consume-current : (q : TokenParser) (n : ℕ) → current (consume_bytes q n) ≡ drop n (current q)
unfolding consume_bytes compact_buffer
consume-current q n = ground (arith, drop-drop q.buffer_pos n q.buffer)

pub consume-within :
    (q : TokenParser) (n : ℕ)
    → q.buffer_pos + n ≤ length q.buffer
    → (consume_bytes q n).buffer_pos ≤ length (consume_bytes q n).buffer
unfolding consume_bytes compact_buffer
consume-within q n h = ground arith

pub consume-fields :
    (q : TokenParser) (n : ℕ)
    → ((consume_bytes q n).pending_consume ≡ q.pending_consume)
      × ((consume_bytes q n).skip_descs ≡ q.skip_descs)
      × ((consume_bytes q n).columns ≡ q.columns)
unfolding consume_bytes compact_buffer
consume-fields q n = ground arith

pub length-unread :
    (p : TokenParser) → length (unread p) ≡ length p.buffer - p.buffer_pos - p.pending_consume
length-unread p =
    omega (arith, length-drop p.pending_consume (current p), length-drop p.buffer_pos p.buffer)

pub consumed-Post :
    (p q : TokenParser) (n : ℕ) (t : Option ParsedTokenType)
    → q.pending_consume ≡ 0
    → q.buffer ≡ p.buffer
    → q.buffer_pos ≡ p.buffer_pos
    → q.skip_descs ≡ descs_of q.columns
    → 0 < n
    → n ≤ length (current p)
    → Post p (consume_bytes q n) t
consumed-Post p q n t e eb ep ed pos le =
    let (fp, fd, fc) = consume-fields q n in
    let room : q.buffer_pos + n ≤ length q.buffer =
      rw (eb, ep) (omega (arith, length-drop p.buffer_pos p.buffer)) in
    let same : current q ≡ current p = rw (eb, ep) refl in
    record {
      inv = record {
        within = omega (arith, consume-within q n room, fp);
        ready = inl (fd ∙ ed ∙ ap descs_of (sym fc));
      };
      progress = inr (
          inr (
            omega (
              arith,
              length-unread (consume_bytes q n),
              length-drop (consume_bytes q n).buffer_pos (consume_bytes q n).buffer,
              ap length (consume-current q n),
              ap length same,
              length-drop n (current q),
              fp,
              e,
            )));
      settled = inl (fp ∙ e);
    }

-- A call that leaves the parser as it was, or changes no more than its verdict, asks for more data or
-- reports an unknown token.
pub same-Post :
    (p q : TokenParser) (t : Option ParsedTokenType)
    → (t ≡ some ParsedTokenType.need_more_data) ⊎ (t ≡ some ParsedTokenType.nothing)
    → Inv p
    → p.pending_consume ≡ 0
    → q.pending_consume ≡ 0
    → q.buffer ≡ p.buffer
    → q.buffer_pos ≡ p.buffer_pos
    → (q.skip_descs ≡ descs_of q.columns) ⊎ AtMetadata q
    → Post p q t
same-Post p q t h v e e' eb ep r = record {
  inv = record { within = rw (eb, ep) (omega (arith, v.within)); ready = r };
  progress = ground arith;
  settled = inl e';
}

pub feed-Inv : (p : TokenParser) (bytes : List ℕ) → Inv p → Inv (feed p bytes)
unfolding feed
feed-Inv p bytes v = record {
  within = omega (arith, v.within, length-append p.buffer bytes);
  ready = ready v.ready;
}
  where
    ready :
        (p.skip_descs ≡ descs_of p.columns) ⊎ AtMetadata p
        → (p.skip_descs ≡ descs_of p.columns) ⊎ AtMetadata (feed p bytes)
    ready (inl d) = inl d
    ready (inr (e, (rest, at))) = inr (
      e,
      (
        rest ++ bytes,
        drop-append p.buffer_pos p.buffer bytes (omega (arith, v.within)) ∙ ap (λ t. t ++ bytes) at,
      ),
    )

pub reset-Inv : (p : TokenParser) → Inv (reset p)
unfolding reset descs_of
reset-Inv p = record { within = omega arith; ready = inl refl }

pub reset_state-Inv : (p : TokenParser) → Inv p → Inv (reset_state p)
unfolding reset_state
reset_state-Inv p v = record { within = v.within; ready = v.ready }
