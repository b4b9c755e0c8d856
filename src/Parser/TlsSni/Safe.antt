-- ===== src/Parser/TlsSni/Safe.antt =====
-- `parser_extract_tls_sni` of src/parser.c on any payload at all: no read leaves the payload, the
-- loops end, and a name that is returned is a text that fits the caller's buffer.
use if_flow.Base.{
  ℕ, zero, suc, ◌+◌, ◌≤◌, ◌<◌, ◌&&◌, inl, inr, Option, none, some, Bytes, c_str, c_str-le,
  c_str-no_nul, ◌≡◌, ◌≢◌, refl, All, arith, length, ltb, leb, ◌==◌, Bool-cases,
}
use if_flow.Parser.Reads.{
  Parse, fault, starved, absent, ok, ◌>>=◌, Gives, IsSlice, read_ok, read_u16_ok, slice_ok,
  Gives-bind,
}
use if_flow.Parser.TlsSni.{
  name_loop, or_else, ext_loop, skip_u8, field_u16, open_hello, find_extensions,
  parser_extract_tls_sni,
}

-- A piece of the payload that is not empty and fits, with its terminator, a buffer of `out_sz` bytes.
pub record IsPiece (payload : Bytes) (out_sz : ℕ) (piece : Bytes) : Type 0 where
  pub not_empty : 0 < length piece
  pub piece_fits : length piece < out_sz
  pub from_payload : IsSlice payload piece

-- The text in the buffer that bytes with `P` were copied to: it is in front of their first NUL, so it
-- is all of them or a shorter text.
pub record IsCut (P : Bytes → Type 0) (out_sz : ℕ) (text : Bytes) : Type 0 where
  pub copied : Bytes
  pub is_copied : P copied
  pub is_text : text ≡ c_str copied
  pub no_nul : All (λ c. c ≢ 0) text
  pub fits : length text < out_sz

pub cut_lem :
    (P : Bytes → Type 0) (out_sz : ℕ) (piece : Bytes)
    → P piece
    → length piece < out_sz
    → IsCut P out_sz (c_str piece)
cut_lem P out_sz piece p h = record {
  copied = piece;
  is_copied = p;
  is_text = refl;
  no_nul = c_str-no_nul piece;
  fits = omega (arith, c_str-le piece);
}

abbrev pub IsText : Bytes → ℕ → Bytes → Type 0
IsText payload out_sz text = IsCut (IsPiece payload out_sz) out_sz text

abbrev IsText? : Bytes → ℕ → Option Bytes → Type 0
IsText? payload out_sz none = Unit {0}
IsText? payload out_sz (some text) = IsText payload out_sz text

module _ (payload : Bytes) (out_sz : ℕ) where
  name_loop-Gives :
      (fuel q q_end : ℕ)
      → q ≤ q_end
      → q_end < q + fuel
      → q_end ≤ length payload
      → Gives (IsText? payload out_sz) (name_loop fuel payload out_sz q q_end)
  unfolding name_loop
  name_loop-Gives zero q q_end a b c = absurd (omega arith)
  name_loop-Gives (suc fuel) q q_end a b c = elim (Bool-cases (leb (q + 3) q_end)) [
    | inr h ↦ rw h tt
    | inl h ↦
        let within : q + 3 ≤ q_end = ground arith in
        let (nt, e) = read_ok payload q (omega arith) in
        let (nln, f) = read_u16_ok payload (q + 1) (omega arith) in
        rw (h, e, f)
          (elim (Bool-cases (ltb q_end (q + 3 + nln))) [
            | inl over ↦ rw over tt
            | inr inside ↦
                let fits : q + 3 + nln ≤ q_end = ground arith in
                rw inside (elim (Bool-cases (nt == 0 && ltb 0 nln && ltb nln out_sz)) [
                  | inl hit ↦
                      let (text, g, len, from) = slice_ok payload (q + 3) nln (omega arith) in
                      rw (hit, g)
                        (cut_lem (IsPiece payload out_sz) out_sz text
                          (record {
                            not_empty = ground arith;
                            piece_fits = ground arith;
                            from_payload = from;
                          })
                          (ground arith))
                  | inr miss ↦
                      rw miss (name_loop-Gives fuel (q + 3 + nln) q_end fits (omega arith) c)
                ])
          ])
  ]

  ext_loop-Gives :
      (fuel ex ex_end : ℕ)
      → ex ≤ ex_end
      → ex_end < ex + fuel
      → ex_end ≤ length payload
      → Gives (IsText payload out_sz) (ext_loop fuel payload out_sz ex ex_end)
  unfolding ext_loop
  ext_loop-Gives zero ex ex_end a b c = absurd (omega arith)
  ext_loop-Gives (suc fuel) ex ex_end a b c = elim (Bool-cases (leb (ex + 4) ex_end)) [
    | inr h ↦ rw h tt
    | inl h ↦
        let within : ex + 4 ≤ ex_end = ground arith in
        let (typ, e) = read_u16_ok payload ex (omega arith) in
        let (ln, f) = read_u16_ok payload (ex + 2) (omega arith) in
        rw (h, e, f)
          (elim (Bool-cases (ltb ex_end (ex + 4 + ln))) [
            | inl over ↦ rw over tt
            | inr inside ↦
                let fits : ex + 4 + ln ≤ ex_end = ground arith in
                let rest = ext_loop-Gives fuel (ex + 4 + ln) ex_end fits (omega arith) c in
                rw inside (elim (Bool-cases (typ == 0 && leb 2 ln)) [
                  | inl names ↦ rw names (
                      or_else-Gives _ _
                        (name_loop-Gives (length payload) (ex + 4 + 2) (ex + 4 + ln) (ground arith)
                          (omega arith) (omega arith))
                        rest)
                  | inr other ↦ rw other rest
                ])
          ])
  ]
    where
      or_else-Gives :
          (m : Parse (Option Bytes)) (go_on : Parse Bytes)
          → Gives (IsText? payload out_sz) m
          → Gives (IsText payload out_sz) go_on
          → Gives (IsText payload out_sz) (m >>= or_else go_on)
      or_else-Gives fault go_on a b = a
      or_else-Gives starved go_on a b = a
      or_else-Gives absent go_on a b = tt
      or_else-Gives (ok none) go_on a b = b
      or_else-Gives (ok (some text)) go_on a b = a

  skip_u8-Gives : (p : ℕ) → p ≤ length payload → Gives (λ n. n ≤ length payload) (skip_u8 payload p)
  unfolding skip_u8
  skip_u8-Gives p a = elim (Bool-cases (ltb (length payload) (p + 1))) [
    | inl short ↦ rw short tt
    | inr long ↦
        let (n, e) = read_ok payload p (ground arith) in
        rw (long, e)
          (elim (Bool-cases (ltb (length payload) (p + 1 + n))) [
            | inl short ↦ rw short tt
            | inr fits ↦ rw fits (ground arith)
          ])
  ]

  field_u16-Gives :
      (p : ℕ) → Gives (λ x. (2 ≤ x.0) × (x.0 + x.1 ≤ length payload)) (field_u16 payload p)
  unfolding field_u16
  field_u16-Gives p = elim (Bool-cases (ltb (length payload) (p + 2))) [
    | inl short ↦ rw short tt
    | inr long ↦
        let (n, e) = read_u16_ok payload p (ground arith) in
        rw (long, e)
          (elim (Bool-cases (ltb (length payload) (p + 2 + n))) [
            | inl short ↦ rw short tt
            | inr fits ↦ rw fits (omega arith, ground arith)
          ])
  ]

  open_hello-Gives : Gives (λ p. p ≤ length payload) (open_hello payload)
  unfolding open_hello
  open_hello-Gives = elim (Bool-cases (ltb (length payload) 9)) [
    | inl short ↦ rw short tt
    | inr long ↦
        let (content, e) = read_ok payload 0 (ground arith) in
        let (handshake, f) = read_ok payload 5 (ground arith) in
        rw (long, e)
          (elim (Bool-cases (content == 0x16)) [
            | inr other ↦ rw other tt
            | inl record_is ↦
                rw (record_is, f)
                  (elim (Bool-cases (handshake == 0x01)) [
                    | inr other ↦ rw other tt
                    | inl hello ↦ rw hello (elim (Bool-cases (ltb (length payload) 43)) [
                      | inl short ↦ rw short tt
                      | inr fits ↦ rw fits (ground arith)
                    ])
                  ])
          ])
  ]

  abbrev InPayload : ℕ → Type 0
  InPayload p = p ≤ length payload

  abbrev IsField : ℕ × ℕ → Type 0
  IsField x = (2 ≤ x.0) × (x.0 + x.1 ≤ length payload)

  find_extensions-Gives : Gives IsField (find_extensions payload)
  unfolding find_extensions
  find_extensions-Gives =
      Gives-bind InPayload IsField (open_hello payload) _ open_hello-Gives λ hello a.
        Gives-bind InPayload IsField (skip_u8 payload hello) _ (skip_u8-Gives hello a) λ sid b.
          Gives-bind IsField IsField (field_u16 payload sid) _ (field_u16-Gives sid) λ suites c.
            Gives-bind InPayload IsField (skip_u8 payload (suites.0 + suites.1)) _
              (skip_u8-Gives (suites.0 + suites.1) c.1) λ comp d. field_u16-Gives comp

  -- On every payload and for every buffer the parser stays inside the payload, its two loops end,
  -- and what it returns is the text in front of the first NUL of a piece of the payload that is not
  -- empty and fits the buffer.
  pub parser_extract_tls_sni-Gives :
      Gives (IsText payload out_sz) (parser_extract_tls_sni payload out_sz)
  unfolding parser_extract_tls_sni
  parser_extract_tls_sni-Gives = elim (Bool-cases (out_sz == 0)) [
    | inl none_fits ↦ rw none_fits tt
    | inr some_fit ↦ rw some_fit (
        Gives-bind IsField (IsText payload out_sz) (find_extensions payload) _ find_extensions-Gives
          λ exts a.
            ext_loop-Gives (length payload) exts.0 (exts.0 + exts.1) (omega arith) (omega arith)
              a.1)
  ]
