-- ===== src/Parser/TlsSni.antt =====
-- `parser_extract_tls_sni` of src/parser.c. The result is the text in `out` afterwards, the
-- bytes in front of its first NUL; `absent` is the return of 0.
pub mod Safe
pub mod Hello
pub mod RoundTrip
use if_flow.Base.{
  ℕ, zero, suc, ◌+◌, Bool, true, false, not, ◌&&◌, Option, none, some, Bytes, c_str, length, ltb,
  leb, ◌==◌, if◌then◌else◌,
}
use if_flow.Parser.Reads.{Parse, starved, absent, ok, ◌>>=◌, ◌>>◌, guard, read, read_u16, slice}

-- The loop over the names of the extension: `none` where it ends or breaks with no name.
pub name_loop : ℕ → Bytes → ℕ → ℕ → ℕ → Parse (Option Bytes)
unfolding read read_u16 slice c_str
name_loop zero payload out_sz q q_end = starved
name_loop (suc fuel) payload out_sz q q_end =
    if leb (q + 3) q_end
    then (do
      nt ← read payload q
      nln ← read_u16 payload (q + 1)
      let next = q + 3
      let rest = name_loop fuel payload out_sz (next + nln) q_end
      if ltb q_end (next + nln)
          then ok none
          else if nt == 0 && ltb 0 nln && ltb nln out_sz
          then (do name ← slice payload next nln; ok (some (c_str name)))
          else rest)
    else ok none

-- `return 1` with a name, or go on.
abbrev pub or_else : Parse Bytes → Option Bytes → Parse Bytes
or_else go_on none = go_on
or_else go_on (some name) = ok name

-- The loop over the extensions.
pub ext_loop : ℕ → Bytes → ℕ → ℕ → ℕ → Parse Bytes
unfolding name_loop read_u16
ext_loop zero payload out_sz ex ex_end = starved
ext_loop (suc fuel) payload out_sz ex ex_end =
    if leb (ex + 4) ex_end
    then (do
      typ ← read_u16 payload ex
      ln ← read_u16 payload (ex + 2)
      let start = ex + 4
      let rest = ext_loop fuel payload out_sz (start + ln) ex_end
      if ltb ex_end (start + ln)
          then absent
          else if typ == 0 && leb 2 ln
          then (name_loop (length payload) payload out_sz (start + 2) (start + ln) >>= or_else rest)
          else rest)
    else absent

-- A field with its length in one byte: the position behind it.
pub skip_u8 : Bytes → ℕ → Parse ℕ
unfolding read
skip_u8 payload p = do
  guard (not (ltb (length payload) (p + 1)))
  n ← read payload p
  guard (not (ltb (length payload) (p + 1 + n)))
  ok (p + 1 + n)

-- A length in two bytes, which the payload must hold: the position behind it, and the length.
pub field_u16 : Bytes → ℕ → Parse (ℕ × ℕ)
unfolding read_u16
field_u16 payload p = do
  guard (not (ltb (length payload) (p + 2)))
  n ← read_u16 payload p
  guard (not (ltb (length payload) (p + 2 + n)))
  ok (p + 2, n)

-- The record and the handshake header, the version and the random.
pub open_hello : Bytes → Parse ℕ
unfolding read
open_hello payload = do
  guard (not (ltb (length payload) 9))
  content ← read payload 0
  guard (content == 0x16)
  handshake ← read payload 5
  guard (handshake == 0x01)
  guard (not (ltb (length payload) (9 + 2 + 32)))
  ok (9 + 2 + 32)

-- `p` behind the session id, the cipher suites and the compression methods; `ex` and the length of
-- the extensions.
pub find_extensions : Bytes → Parse (ℕ × ℕ)
unfolding open_hello skip_u8 field_u16
find_extensions payload = do
  hello ← open_hello payload
  sid ← skip_u8 payload hello
  suites ← field_u16 payload sid
  comp ← skip_u8 payload (suites.0 + suites.1)
  field_u16 payload comp

unfoldable pub parser_extract_tls_sni : Bytes → ℕ → Parse Bytes
unfolding find_extensions ext_loop
parser_extract_tls_sni payload out_sz = do
  guard (not (out_sz == 0))
  exts ← find_extensions payload
  ext_loop (length payload) payload out_sz exts.0 (exts.0 + exts.1)
