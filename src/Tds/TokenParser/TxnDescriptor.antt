-- ===== src/Tds/TokenParser/TxnDescriptor.antt =====
-- FindBeginTxnDescriptor of src/tds/tds_token_parser.cpp: the scan of a reply for the descriptor of the
-- transaction that a BEGIN TRANSACTION has opened. `none` is `return false`.
use mssql_extension.Prelude.{
  All, Ensures, List, Option, Outcome, [], arith, drop, drop-length_append, fault, if◌then◌else◌,
  inl, inr, leb, length, length-append, length-drop, length-take_le, ltb, none, not, ok, some, suc,
  sym, take, take-length_append, throw, zero, ℕ, ◌&&◌, ◌*◌, ◌++◌, ◌+◌, ◌<◌, ◌==◌, ◌>>=◌, ◌||◌, ◌∷◌,
  ◌≡◌, ◌≢◌, ◌≤◌,
}
use mssql_extension.Tds.Bytes.{read_bytes, read_u16, read_u8}
use mssql_extension.Tds.Bytes.Stable.{read_bytes_total, read_u16_cases, read_u8_cases}
use native.Mathlib.Decide.{dec_lt}

abbrev pub ScanError : Type 0
ScanError = ⊥

-- The data of an ENVCHANGE token, from its type byte on, looked at as far as the buffer goes.
unfoldable pub begin_trans : List ℕ → Outcome ScanError (Option (List ℕ))
begin_trans rest =
    if ltb (length rest) 1
    then ok none
    else (read_u8 rest >>= λ env_type.
        if not (env_type == 0x08)
        then ok none
        else if ltb (length rest) 2
        then ok none
        else (read_u8 (drop 1 rest) >>= λ new_len.
            if new_len == 8 && leb (1 + 1 + 8) (length rest)
            then (read_bytes 8 (drop 2 rest) >>= λ d. ok (some d))
            else ok none))

-- `return true` with the descriptor, or on with the loop.
unfoldable pub next_scan :
    Outcome ScanError (Option (List ℕ)) → Option (List ℕ) → Outcome ScanError (Option (List ℕ))
next_scan go_on (some d) = ok (some d)
next_scan go_on none = go_on

-- `rest` is the buffer from `offset` on. An ENVCHANGE token ends where its length says or where the
-- buffer does; each round takes a byte at least.
unfoldable pub scan : ℕ → List ℕ → Outcome ScanError (Option (List ℕ))
scan zero rest = fault
scan (suc fuel) [] = ok none
scan (suc fuel) (token_type ∷ rest) =
    let after_done = scan fuel (drop 12 rest) in
    if token_type == 0xe3
    then (if ltb (length rest) 2
        then ok none
        else (read_u16 rest >>= λ token_len. begin_trans (drop 2 rest) >>= λ found.
            next_scan (scan fuel (drop token_len (drop 2 rest))) found))
    else if token_type == 0xfd || token_type == 0xfe || token_type == 0xff
    then after_done
    else ok none

unfoldable pub find_begin_txn_descriptor : List ℕ → Outcome ScanError (Option (List ℕ))
find_begin_txn_descriptor buf = scan (suc (length buf)) buf

abbrev pub IsDescriptor : Option (List ℕ) → Type 0
IsDescriptor none = Unit {0}
IsDescriptor (some d) = length d ≡ 8

begin_trans_safe : (rest : List ℕ) → Ensures IsDescriptor (begin_trans rest)
unfolding begin_trans
begin_trans_safe rest = elim (read_u8_cases {E = ScanError} rest) [
  | inl short ↦ ground arith
  | inr (_, (v, e)) ↦ elim (read_u8_cases {E = ScanError} (drop 1 rest)) [
    | inl short ↦ ground (arith, length-drop 1 rest)
    | inr (_, (w, e')) ↦ elim (dec_lt (length rest) 10) [
      | yes short ↦ ground (arith, length-drop 1 rest)
      | no enough ↦
          let room : 8 ≤ length (drop 2 rest) = omega (arith, length-drop 2 rest) in
          ground (
            arith,
            length-drop 1 rest,
            length-take_le 8 (drop 2 rest) room,
            read_bytes_total {E = ScanError} 8 (drop 2 rest) room,
          )
    ]
  ]
]

next_safe :
    (m : Outcome ScanError (Option (List ℕ))) (go_on : Outcome ScanError (Option (List ℕ)))
    → Ensures IsDescriptor m
    → Ensures IsDescriptor go_on
    → Ensures IsDescriptor (m >>= next_scan go_on)
unfolding next_scan
next_safe (ok (some d)) go_on h g = h
next_safe (ok none) go_on h g = g
next_safe (throw e) go_on h g = tt
next_safe fault go_on h g = h

scan_safe : (fuel : ℕ) (rest : List ℕ) → length rest < fuel → Ensures IsDescriptor (scan fuel rest)
unfolding scan
scan_safe zero rest h = absurd (omega arith)
scan_safe (suc fuel) [] h = tt
scan_safe (suc fuel) (t ∷ rest) h =
    let done_case = scan_safe fuel (drop 12 rest) (omega (arith, length-drop 12 rest)) in
    elim (read_u16_cases {E = ScanError} rest) [
      | inl short ↦ ground (arith, done_case)
      | inr (_, (w, e)) ↦
          let env_case : Ensures IsDescriptor (
              begin_trans (drop 2 rest) >>= λ found.
              next_scan (scan fuel (drop w (drop 2 rest))) found) =
            next_safe (begin_trans (drop 2 rest)) _ (begin_trans_safe (drop 2 rest)) (
              scan_safe fuel (drop w (drop 2 rest))
                (omega (arith, length-drop 2 rest, length-drop w (drop 2 rest)))) in
          ground (arith, done_case, env_case)
    ]

-- The scan reads only inside the reply and ends, whatever lengths the tokens announce; a descriptor
-- that it returns has 8 bytes.
pub find_begin_txn_descriptor-safe :
    (buf : List ℕ) → Ensures IsDescriptor (find_begin_txn_descriptor buf)
unfolding find_begin_txn_descriptor
find_begin_txn_descriptor-safe buf = scan_safe (suc (length buf)) buf (omega arith)

-- The tokens of a reply in front of the one that opens the transaction: a DONE token, or an ENVCHANGE
-- of another type, by the two bytes of its length and the data behind its type byte.
pub data ReplyToken : Type 0 where
  done_token : ℕ → List ℕ → ReplyToken
  env_change_token : ℕ → ℕ → ℕ → List ℕ → ReplyToken

abbrev pub IsReplyToken : ReplyToken → Type 0
IsReplyToken (done_token t body) = (0xfd ≤ t) × (t ≤ 0xff) × (length body ≡ 12)
IsReplyToken (env_change_token l0 l1 env_type body) =
    (env_type ≢ 8) × (l0 + l1 * 256 ≡ suc (length body))

abbrev pub print_reply : List ReplyToken → List ℕ → List ℕ
print_reply [] rest = rest
print_reply (done_token t body ∷ tokens) rest = t ∷ body ++ print_reply tokens rest
print_reply (env_change_token l0 l1 env_type body ∷ tokens) rest =
    0xe3 ∷ l0 ∷ l1 ∷ env_type ∷ body ++ print_reply tokens rest

begin_trans-own : (d rest : List ℕ) → length d ≡ 8 → begin_trans (8 ∷ 8 ∷ d ++ rest) ≡ ok (some d)
unfolding begin_trans read_u8
begin_trans-own d rest e =
    let whole : take 8 (d ++ rest) ≡ d = rw (sym e) (take-length_append d rest) in
    let room : 8 ≤ length (d ++ rest) = omega (arith, length-append d rest) in
    ground (arith, whole, read_bytes_total {E = ScanError} 8 (d ++ rest) room)

begin_trans-other :
    (env_type : ℕ) (rest : List ℕ) → env_type ≢ 8 → begin_trans (env_type ∷ rest) ≡ ok none
unfolding begin_trans read_u8
begin_trans-other env_type rest h = ground arith

scan-print_reply :
    (fuel : ℕ) (tokens : List ReplyToken) (l0 l1 : ℕ) (d rest : List ℕ)
    → All IsReplyToken tokens
    → length d ≡ 8
    → length tokens < fuel
    → scan fuel (print_reply tokens (0xe3 ∷ l0 ∷ l1 ∷ 8 ∷ 8 ∷ d ++ rest)) ≡ ok (some d)
unfolding scan next_scan read_u16
scan-print_reply zero tokens l0 l1 d rest p e h = absurd (omega arith)
scan-print_reply (suc fuel) [] l0 l1 d rest p e h = ground (arith, begin_trans-own d rest e)
scan-print_reply (suc fuel) (done_token t body ∷ tokens) l0 l1 d rest ((low, high, eb), p) e h =
    let after = scan-print_reply fuel tokens l0 l1 d rest p e (omega arith) in
    let tail = print_reply tokens (0xe3 ∷ l0 ∷ l1 ∷ 8 ∷ 8 ∷ d ++ rest) in
    let skip : drop 12 (body ++ tail) ≡ tail = rw (sym eb) (drop-length_append body tail) in
    ground (arith, after, skip)
scan-print_reply (suc fuel) (env_change_token m0 m1 env_type body ∷ tokens) l0 l1 d rest
      ((other, el), p) e h =
    let after = scan-print_reply fuel tokens l0 l1 d rest p e (omega arith) in
    let tail = print_reply tokens (0xe3 ∷ l0 ∷ l1 ∷ 8 ∷ 8 ∷ d ++ rest) in
    let skip : drop (m0 + m1 * 256) (env_type ∷ body ++ tail) ≡ tail =
      rw el (drop-length_append body tail) in
    ground (arith, begin_trans-other env_type (body ++ tail) other, skip, after)

length-print_reply :
    (tokens : List ReplyToken) (rest : List ℕ) → length tokens ≤ length (print_reply tokens rest)
length-print_reply [] rest = omega arith
length-print_reply (done_token t body ∷ tokens) rest =
    omega (arith, length-append body (print_reply tokens rest), length-print_reply tokens rest)
length-print_reply (env_change_token m0 m1 env_type body ∷ tokens) rest =
    omega (arith, length-append body (print_reply tokens rest), length-print_reply tokens rest)

-- After any number of DONE tokens and of ENVCHANGE tokens of other types, the descriptor of the
-- ENVCHANGE that opens the transaction is found, whatever comes behind it and whatever length that
-- token announces.
pub find_begin_txn_descriptor-print_reply :
    (tokens : List ReplyToken) (l0 l1 : ℕ) (d rest : List ℕ)
    → All IsReplyToken tokens
    → length d ≡ 8
    → find_begin_txn_descriptor (print_reply tokens (0xe3 ∷ l0 ∷ l1 ∷ 8 ∷ 8 ∷ d ++ rest))
      ≡ ok (some d)
unfolding find_begin_txn_descriptor
find_begin_txn_descriptor-print_reply tokens l0 l1 d rest p e =
    scan-print_reply _ tokens l0 l1 d rest p e
      (omega (arith, length-print_reply tokens (0xe3 ∷ l0 ∷ l1 ∷ 8 ∷ 8 ∷ d ++ rest)))
