-- ===== src/Tds/TokenParser/Safety.antt =====
-- TryParseNext of src/tds/tds_token_parser.cpp on any bytes: memory safety, termination, progress.
use mssql_extension.Prelude.{
  Bool-cases, Ensures, Ensures-cases, List, [], ap, arith, false, fault, inl, inr, length,
  length-drop, ltb, none, ok, refl, some, subst, suc, sym, throw, true, zero, ℕ, ◌<◌, ◌∙◌, ◌∷◌, ◌≡◌,
  ◌≢◌, ◌≤◌, ◌⊎◌,
}
use mssql_extension.Tds.Bytes.{read_u8}
use mssql_extension.Tds.RowReader.SkipRows.{descs_of}
use mssql_extension.Tds.TokenParser.{
  ParsedTokenType, TokenParser, consume_bytes, current, unknown_token,
}
use mssql_extension.Tds.TokenParser.Invariant.{
  AtMetadata, Inv, Post, consume-current, consume-fields, consume-within, length-unread, same-Post,
  token_of_byte_metadata, unread,
}
use mssql_extension.Tds.TokenParser.Next.{parse_token, round, rounds, take_pending, try_parse_next}
use mssql_extension.Tds.TokenParser.Posts.{
  Keeps, need_more-Keeps, parse_done-Keeps, parse_row-Keeps, pass_fedauthinfo-Keeps,
  pass_token-Keeps,
}
use mssql_extension.Tds.TokenParser.PostsText.{
  parse_col_metadata-Keeps, parse_error_token-Keeps, parse_info-Keeps,
}
use mssql_extension.Tds.TokenParser.Tokens.{Parsed, fail_with, parse_env_change}
use mssql_extension.Tds.Types.{TokenType, token_of_byte}

pub take_pending_lem :
    (p : TokenParser)
    → Inv p
    → Inv (take_pending p)
      × ((take_pending p).pending_consume ≡ 0)
      × (current (take_pending p) ≡ unread p)
unfolding take_pending consume_bytes
take_pending_lem p v = elim (Bool-cases (ltb 0 p.pending_consume)) [
  | inl more ↦
      let q : TokenParser = record p { pending_consume = 0 } in
      let n = p.pending_consume in
      let (fp, fd, fc) = consume-fields q n in
      let taken : take_pending p ≡ consume_bytes q n = rw (take_pending, more) in
      let descs : p.skip_descs ≡ descs_of p.columns = ground (arith, more, v.ready) in
      subst (λ r. Inv r × (r.pending_consume ≡ 0) × (current r ≡ unread p)) (sym taken)
        (
          record {
            within = omega (arith, consume-within q n v.within, fp);
            ready = inl (fd ∙ descs ∙ ap descs_of (sym fc));
          },
          fp,
          consume-current q n,
        )
  | inr not_more ↦
      let taken : take_pending p ≡ p = rw (take_pending, not_more) in
      let settled : p.pending_consume ≡ 0 = ground (arith, not_more) in
      subst (λ r. Inv r × (r.pending_consume ≡ 0) × (current r ≡ unread p)) (sym taken)
        (v, settled, rw settled refl)
]

module _ (utf16le_decode : List ℕ → List ℕ) where
  unknown-Keeps :
      (p : TokenParser) (b : ℕ)
      → Inv p
      → p.pending_consume ≡ 0
      → Keeps p (ok (fail_with p (unknown_token b), some ParsedTokenType.nothing))
  unknown-Keeps p b v e =
      same-Post p (fail_with p (unknown_token b)) _ (inr refl) v e e refl refl v.ready

  ready_descs :
      (p : TokenParser) (b : ℕ) (rest : List ℕ)
      → Inv p
      → current p ≡ b ∷ rest
      → token_of_byte b ≢ TokenType.colmetadata
      → p.skip_descs ≡ descs_of p.columns
  ready_descs p b rest v at h = go v.ready
    where
      same : (xs : List ℕ) (c : ℕ) → xs ≡ b ∷ rest → (r : List ℕ) → xs ≡ c ∷ r → b ≡ c
      same xs c q r q' = cc

      go : (p.skip_descs ≡ descs_of p.columns) ⊎ AtMetadata p → p.skip_descs ≡ descs_of p.columns
      go (inl d) = d
      go (inr (e, (r, q))) =
          absurd (h (rw (same (current p) 0x81 at r q) (unfold token_of_byte in refl)))

  other_token-Keeps :
      (p : TokenParser) (t : TokenType)
      → Inv p
      → p.pending_consume ≡ 0
      → 1 ≤ length (current p)
      → p.skip_descs ≡ descs_of p.columns
      → t ≢ TokenType.colmetadata
      → Keeps p (parse_token utf16le_decode t p)
  unfolding parse_token parse_env_change
  other_token-Keeps p TokenType.colmetadata v e l d h = absurd (h refl)
  other_token-Keeps p TokenType.row v e l d h = parse_row-Keeps p v e d false l
  other_token-Keeps p TokenType.nbcrow v e l d h = parse_row-Keeps p v e d true l
  other_token-Keeps p TokenType.done v e l d h = parse_done-Keeps p v e d
  other_token-Keeps p TokenType.doneproc v e l d h = parse_done-Keeps p v e d
  other_token-Keeps p TokenType.doneinproc v e l d h = parse_done-Keeps p v e d
  other_token-Keeps p TokenType.error_token v e l d h =
      parse_error_token-Keeps utf16le_decode p v e d
  other_token-Keeps p TokenType.info v e l d h = parse_info-Keeps utf16le_decode p v e d
  other_token-Keeps p TokenType.fedauthinfo v e l d h = pass_fedauthinfo-Keeps p v e d
  other_token-Keeps p TokenType.featureextack v e l d h = unknown-Keeps p 0xae v e
  other_token-Keeps p (TokenType.unknown b) v e l d h = unknown-Keeps p b v e
  other_token-Keeps p _ v e l d h = pass_token-Keeps p v e d _

  is_metadata : (t : TokenType) → (t ≡ TokenType.colmetadata) ⊎ (t ≢ TokenType.colmetadata)
  is_metadata TokenType.colmetadata = inl refl
  is_metadata _ = inr (λ q. cc)

  token-Keeps :
      (p : TokenParser) (b : ℕ) (rest : List ℕ)
      → Inv p
      → p.pending_consume ≡ 0
      → current p ≡ b ∷ rest
      → Keeps p (parse_token utf16le_decode (token_of_byte b) p)
  token-Keeps p b rest v e at = elim (is_metadata (token_of_byte b)) [
    | inl m ↦ rw m (
        unfold parse_token in
        parse_col_metadata-Keeps utf16le_decode p rest v e
          (at ∙ ap (λ c. c ∷ rest) (token_of_byte_metadata b m)))
    | inr h ↦
        other_token-Keeps p (token_of_byte b) v e (omega (arith, ap length at))
          (ready_descs p b rest v at h) h
  ]

  round-Keeps : (p : TokenParser) → Inv p → p.pending_consume ≡ 0 → Keeps p (round utf16le_decode p)
  unfolding round read_u8
  round-Keeps p v e = go (current p) refl
    where
      go : (xs : List ℕ) → current p ≡ xs → Keeps p (round utf16le_decode p)
      go [] at = ground (arith, at, need_more-Keeps p v e)
      go (b ∷ rest) at = ground (arith, at, need_more-Keeps p v e, token-Keeps p b rest v e at)

  Post-step :
      (p q r : TokenParser) (t : ParsedTokenType)
      → length (current q) < length (current p)
      → Post q r (some t)
      → Post p r (some t)
  Post-step p q r t l h = record {
    inv = h.inv;
    progress = ground (arith, h.progress);
    settled = h.settled;
  }

  continued :
      (p q : TokenParser)
      → Post p q none
      → (q.pending_consume ≡ 0) × (length (current q) < length (current p))
  continued p q h = (
    settled,
    omega (arith, progress, length-unread q, length-drop q.buffer_pos q.buffer, settled),
  )
    where
      settled : q.pending_consume ≡ 0
      settled = ground (arith, h.settled)

      progress : length (unread q) < length (current p)
      progress = ground (arith, h.progress)

  rounds-Post :
      (fuel : ℕ) (p : TokenParser)
      → Inv p
      → p.pending_consume ≡ 0
      → length (current p) < fuel
      → Ensures (λ x. Post p x.0 (some x.1)) (rounds utf16le_decode fuel p)
  unfolding rounds
  rounds-Post zero p v e l = absurd (omega arith)
  rounds-Post (suc fuel) p v e l =
      elim (Ensures-cases _ (round utf16le_decode p) (round-Keeps p v e)) [
        | inl ((q, some t), r, h) ↦ rw (r, rounds) h
        | inl ((q, none), r, h) ↦
            let (e', l') = continued p q h in
            rw (r, rounds)
              (further p q l' (rounds utf16le_decode fuel q)
                (rounds-Post fuel q h.inv e' (omega arith)))
        | inr (x, r) ↦ rw (r, rounds) tt
      ]
    where
      further :
          (p q : TokenParser)
          → length (current q) < length (current p)
          → (m : Parsed) → Ensures (λ x. Post q x.0 (some x.1)) m
          → Ensures (λ x. Post p x.0 (some x.1)) m
      further p q l (ok (r, t)) h = Post-step p q r t l h
      further p q l (throw x) h = tt
      further p q l fault h = h

  pub try_parse_next-safe :
      (p : TokenParser)
      → Inv p
      → Ensures
          (λ x.
            Inv x.0
            × ((x.1 ≡ ParsedTokenType.need_more_data)
                ⊎ (x.1 ≡ ParsedTokenType.nothing)
                ⊎ (length (unread x.0) < length (unread p))))
          (try_parse_next utf16le_decode p)
  unfolding try_parse_next
  try_parse_next-safe p v =
      let (w, e, c) = take_pending_lem p v in
      report (take_pending p) (ap length c)
        (rounds utf16le_decode (suc (length p.buffer)) (take_pending p))
        (rounds-Post (suc (length p.buffer)) (take_pending p) w e
          (omega (arith, ap length c, length-unread p)))
    where
      report :
          (q : TokenParser)
          → length (current q) ≡ length (unread p)
          → (m : Parsed) → Ensures (λ x. Post q x.0 (some x.1)) m
          → Ensures
              (λ x.
                Inv x.0
                × ((x.1 ≡ ParsedTokenType.need_more_data)
                    ⊎ (x.1 ≡ ParsedTokenType.nothing)
                    ⊎ (length (unread x.0) < length (unread p))))
              m
      report q c (ok (r, t)) h = (h.inv, ground (arith, h.progress, c))
      report q c (throw x) h = tt
      report q c fault h = h
