-- ===== src/Parser/HttpHost.antt =====
-- `parser_extract_http_host` of src/parser.c and its case-insensitive search. The result is the text
-- in `out` afterwards, the bytes in front of its first NUL; `absent` is the return of 0.
pub mod Search
pub mod Safe
pub mod Scan
pub mod RoundTrip
use if_flow.Base.{
  ℕ, zero, suc, ◌+◌, ◌-◌, Bool, true, false, not, ◌&&◌, ◌||◌, Option, none, some, List, [], ◌∷◌,
  Bytes, codes, c_str, length, get_elem?, take, ltb, leb, ◌==◌, if◌then◌else◌,
}
use if_flow.Parser.Reads.{Parse, starved, absent, ok, ◌>>=◌, ◌>>◌, guard, read, slice}

-- `tolower` in the C locale, the only one that the program runs in.
unfoldable pub tolower : ℕ → ℕ
tolower c = if leb b'A' c && leb c b'Z' then c + 32 else c

-- The inner loop: whether the rest of the needle stands at `k`.
pub match_loop : Bytes → ℕ → Bytes → Parse Bool
unfolding read tolower
match_loop hay k [] = ok true
match_loop hay k (b ∷ needle) = do
  a ← read hay k
  let rest = match_loop hay (k + 1) needle
  if tolower a == tolower b then rest else ok false

-- The outer loop, over the starts that are left.
pub search_loop : ℕ → Bytes → ℕ → Bytes → Parse (Option ℕ)
unfolding match_loop
search_loop zero hay i needle = ok none
search_loop (suc starts) hay i needle = do
  hit ← match_loop hay i needle
  let rest = search_loop starts hay (i + 1) needle
  if hit then ok (some i) else rest

pub memcasestr_n : Bytes → Bytes → Parse (Option ℕ)
unfolding search_loop
memcasestr_n hay needle =
    if length needle == 0 || ltb (length hay) (length needle)
    then ok none
    else search_loop (length hay + 1 - length needle) hay 0 needle

-- `strchr(h, ':')`, which stops at a NUL.
pub strchr_loop : ℕ → Bytes → ℕ → Parse ℕ
unfolding read
strchr_loop zero payload h = starved
strchr_loop (suc fuel) payload h = do
  c ← read payload h
  let rest = strchr_loop fuel payload (h + 1)
  if c == b':' then ok h else if c == 0 then absent else rest

abbrev pub is_blank : ℕ → Bool
is_blank c = c == b' ' || c == b'\t'

abbrev pub is_line_end : ℕ → Bool
is_line_end c = c == b'\r' || c == b'\n'

-- `while (h < len && test(*h)) ++h`
pub skip_while : (ℕ → Bool) → ℕ → Bytes → ℕ → Parse ℕ
unfolding read
skip_while test zero payload h = starved
skip_while test (suc fuel) payload h =
    if ltb h (length payload)
    then (do
      c ← read payload h
      let rest = skip_while test fuel payload (h + 1)
      if test c then rest else ok h)
    else ok h

abbrev pub blank_at : Bytes → ℕ → Bool
blank_at out i = elim (get_elem? out i) [ none ↦ false | some c ↦ is_blank c ]

-- The length of `out` without the blanks at its end.
pub trim_loop : Bytes → ℕ → ℕ
trim_loop out zero = 0
trim_loop out (suc n) = let rest = trim_loop out n in if blank_at out n then rest else suc n

abbrev or_search : Bytes → Bytes → Option ℕ → Parse (Option ℕ)
or_search payload needle none = memcasestr_n payload needle
or_search payload needle (some h) = ok (some h)

abbrev or_absent {ℓ} : {A : Type ℓ} → Option A → Parse A
or_absent none = absent
or_absent (some a) = ok a

-- The three searches for the header.
pub find_header : Bytes → Parse ℕ
unfolding memcasestr_n
find_header payload = do
  first ← memcasestr_n payload (codes "\r\nHost:")
  second ← or_search payload (codes "\nhost:") first
  third ← or_search payload (codes "Host:") second
  or_absent third

-- What follows the colon: blanks, and then the text up to the end of the line.
pub read_value : Bytes → ℕ → ℕ → Parse Bytes
unfolding skip_while slice trim_loop c_str
read_value payload out_sz colon = do
  h ← skip_while is_blank (length payload + 1) payload (colon + 1)
  e ← skip_while (λ c. not (is_line_end c)) (length payload + 1) payload h
  let n = e - h
  guard (not (n == 0 || leb out_sz n))
  out ← slice payload h n
  let kept = trim_loop out n
  guard (ltb 0 kept)
  ok (c_str (take kept out))

unfoldable pub parser_extract_http_host : Bytes → ℕ → Parse Bytes
unfolding find_header strchr_loop read_value
parser_extract_http_host payload out_sz = do
  guard (not (out_sz == 0))
  guard (not (ltb (length payload) 8))
  header ← find_header payload
  colon ← strchr_loop (length payload) payload header
  read_value payload out_sz colon
