-- ===== src/Parser/HttpHost/RoundTrip.antt =====
-- `parser_extract_http_host` of src/parser.c finds the Host header of a request in which it is the
-- first header, in any case of letters.
use mathlib.Core.List.{append_assoc, append-nil}
use if_flow.Base.{
  ℕ, suc, ◌+◌, ◌-◌, ◌<◌, ◌≡◌, ◌≢◌, refl, true, false, not, ◌||◌, [], ◌∷◌, ◌++◌, Bytes, sym,
  take-append, arith, length, length-append, take, All, ltb, leb, ◌==◌, ap, subst, codes, map,
  c_str-all,
}
use if_flow.Parser.Reads.{ok}
use if_flow.Parser.Cursor.{At, At-start, At-skip, At-slice}
use if_flow.Parser.HttpHost.{
  tolower, match_loop, memcasestr_n, find_header, is_blank, is_line_end, blank_at, read_value,
  parser_extract_http_host,
}
use if_flow.Parser.HttpHost.Scan.{
  NoStop, search_loop-hit, search_loop-skip, match_loop-hit, strchr_loop-At, skip_while-At,
  first-host, trim_loop-full,
}

-- The bytes that are those of `needle` but for the case of letters.
abbrev pub SameLetters : Bytes → Bytes → Type 0
SameLetters xs needle = map tolower xs ≡ map tolower needle

no_stop : (xs needle : Bytes) → SameLetters xs needle → All NoStop needle → All NoStop xs
no_stop [] needle e h = tt
no_stop (x ∷ xs) [] e h = absurd (ground arith)
no_stop (x ∷ xs) (b ∷ needle) e h = (
  (unfold tolower in ground (arith, h.0), unfold tolower in ground (arith, h.0)),
  no_stop xs needle (ground arith) h.1,
)

-- A request line, then the Host header, then anything.
pub record Request : Type 0 where
  pub line : Bytes
  pub key : Bytes
  pub pad : Bytes
  pub host : Bytes
  pub stop : ℕ
  pub rest : Bytes

pub record IsRequest (m : Request) : Type 0 where
  pub one_line : All (λ c. c ≢ b'\r') m.line
  pub is_key : SameLetters m.key (codes "Host")
  pub blanks : All (λ c. is_blank c ≡ true) m.pad
  pub no_end : All (λ c. not (is_line_end c) ≡ true) m.host
  pub no_blank_first : blank_at m.host 0 ≡ false
  pub no_blank_last : blank_at m.host (length m.host - 1) ≡ false
  pub no_nul : All (λ c. c ≢ 0) m.host
  pub is_stop : is_line_end m.stop ≡ true

abbrev pub value : Request → Bytes
value m = m.pad ++ (m.host ++ m.stop ∷ m.rest)

abbrev pub header : Request → Bytes
header m = b'\r' ∷ b'\n' ∷ (m.key ++ b':' ∷ value m)

abbrev pub request : Request → Bytes
request m = m.line ++ header m

host_letters : All NoStop (codes "Host")
host_letters = (
  (omega arith, omega arith),
  ((omega arith, omega arith), ((omega arith, omega arith), ((omega arith, omega arith), tt))),
)

length-same : (xs needle : Bytes) → SameLetters xs needle → length xs ≡ length needle
length-same [] [] e = refl
length-same [] (b ∷ needle) e = absurd (ground arith)
length-same (x ∷ xs) [] e = absurd (ground arith)
length-same (x ∷ xs) (b ∷ needle) e = ap suc (length-same xs needle (ground arith))

SameLetters-colon :
    (xs needle : Bytes)
    → SameLetters xs needle
    → SameLetters (xs ++ b':' ∷ []) (needle ++ b':' ∷ [])
SameLetters-colon [] [] e = refl
SameLetters-colon [] (b ∷ needle) e = absurd (ground arith)
SameLetters-colon (x ∷ xs) [] e = absurd (ground arith)
SameLetters-colon (x ∷ xs) (b ∷ needle) e =
    let later = SameLetters-colon xs needle (ground arith) in ground (arith, later)

module _ (payload : Bytes) (m : Request) (h : IsRequest m) where
  header-hit :
      (p : ℕ) → At payload p (header m) → match_loop payload p (codes "\r\nHost:") ≡ ok true
  header-hit p b =
      match_loop-hit payload (b'\r' ∷ b'\n' ∷ (m.key ++ b':' ∷ [])) (codes "\r\nHost:") (value m) p
        (ap (λ (xs : Bytes). tolower b'\r' ∷ tolower b'\n' ∷ xs)
          (SameLetters-colon m.key (codes "Host") h.is_key))
        (subst (λ xs. At payload p (b'\r' ∷ b'\n' ∷ xs))
          (sym (append_assoc m.key (b':' ∷ []) (value m))) b)

  find_header-At : At payload 0 (request m) → find_header payload ≡ ok (length m.line)
  unfolding find_header memcasestr_n
  find_header-At a =
      let k = length (value m) in
      let four = length-same m.key (codes "Host") h.is_key in
      let long = length-append m.line (header m) in
      let long' = length-append m.key (b':' ∷ value m) in
      let starts : length payload + 1 - 7 ≡ length m.line + suc k =
        omega (arith, a.size, four, long, long') in
      let b = At-skip {p = 0} m.line (length m.line) (omega arith) a in
      let fits : ltb (length payload) 7 ≡ false = ground (arith, a.size, four, long, long') in
      let hit =
        search_loop-hit payload (codes "\r\nHost:") k (length m.line)
          (header-hit (length m.line) b) in
      let skip =
        search_loop-skip payload m.line (header m) (codes "\nHost:") (suc k) 0 h.one_line a in
      let zero_plus : 0 + length m.line ≡ length m.line = omega arith in
      rw (fits, starts, skip, zero_plus, hit) refl

  read_value-At :
      (out_sz colon : ℕ)
      → 0 < length m.host
      → length m.host < out_sz
      → At payload (colon + 1) (value m)
      → read_value payload out_sz colon ≡ ok m.host
  unfolding read_value
  read_value-At out_sz colon n s a =
      let start = colon + 1 + length m.pad in
      let after = m.stop ∷ m.rest in
      let long = length-append m.pad (m.host ++ after) in
      let long' = length-append m.host after in
      let p =
        skip_while-At payload is_blank m.pad (m.host ++ after) (length payload + 1) (colon + 1)
          (omega (arith, a.size)) h.blanks (first-host payload m.host after n h.no_blank_first) a in
      let b = At-skip m.pad start refl a in
      let q =
        skip_while-At payload (λ c. not (is_line_end c)) m.host after (length payload + 1) start
          (omega (arith, a.size)) h.no_end (rw h.is_stop refl) b in
      let e : start + length m.host - start ≡ length m.host = omega arith in
      let full = trim_loop-full payload m.host h.no_blank_last n in
      let fits : (length m.host == 0 || leb out_sz (length m.host)) ≡ false = ground arith in
      let pos : ltb 0 (length m.host) ≡ true = ground arith in
      let take_all : take (length m.host) m.host ≡ m.host =
        subst (λ xs. take (length m.host) xs ≡ m.host) (append-nil m.host)
          (take-append m.host []) in
      rw (p, q, e, At-slice m.host after b, full, fits, pos, take_all, c_str-all m.host h.no_nul)
        refl

-- A request whose first header is Host, in letters of either case, gives the text behind the colon
-- and its blanks up to the end of the line, whatever follows, if that text is one line that is not
-- empty, has no NUL and no blank at either end and fits the buffer.
pub parser_extract_http_host-request :
    (m : Request) (out_sz : ℕ)
    → IsRequest m
    → 0 < length m.host
    → length m.host < out_sz
    → parser_extract_http_host (request m) out_sz ≡ ok m.host
unfolding parser_extract_http_host
parser_extract_http_host-request m out_sz h n s =
    let payload = request m in
    let four = length-same m.key (codes "Host") h.is_key in
    let a = At-start payload in
    let b = At-skip {p = 0} m.line (length m.line) (omega arith) a in
    let size = b.size in
    let long = length-append m.key (b':' ∷ value m) in
    let more = length-append m.pad (m.host ++ m.stop ∷ m.rest) in
    let pos : (out_sz == 0) ≡ false = ground arith in
    let room : ltb (length payload) 8 ≡ false =
      ground (arith, size, long, more, length-append m.host (m.stop ∷ m.rest), four) in
    let letters = no_stop m.key (codes "Host") h.is_key host_letters in
    let no_colon : All NoStop (b'\r' ∷ b'\n' ∷ m.key) =
      ((omega arith, omega arith), ((omega arith, omega arith), letters)) in
    let colon =
      strchr_loop-At payload (b'\r' ∷ b'\n' ∷ m.key) (value m) (length payload) (length m.line)
        (omega (arith, size, long)) no_colon b in
    let c = At-skip (b'\r' ∷ b'\n' ∷ m.key) (length m.line + 6) (omega (arith, four)) b in
    let d = At-skip (b':' ∷ []) (length m.line + 6 + 1) refl c in
    let six : length m.line + suc (suc (length m.key)) ≡ length m.line + 6 = omega (arith, four) in
    rw (pos, room, find_header-At payload m h a, colon, six)
      (read_value-At payload m h out_sz (length m.line + 6) n s d)
