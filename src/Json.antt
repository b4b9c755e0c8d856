-- ===== src/Json.antt =====
-- `json_escape` of src/writer_jsonl.c and the number formats of `fprintf` that it uses. What is
-- written is the bytes that go to the file.
pub mod Reader
pub mod Cases
pub mod Length
pub mod Numbers
pub mod RoundTrip
pub mod Inline
use if_flow.Base.{
  ℕ, zero, suc, ◌+◌, ◌-◌, ◌*◌, ◌/◌, ◌%◌, Bool, true, false, ◌||◌, List, [], ◌∷◌, ◌++◌, Bytes, codes,
  ℤ, pos, negsuc, ltb, leb, ◌==◌, if◌then◌else◌,
}

-- A digit of `%x`.
unfoldable pub hex_digit : ℕ → ℕ
hex_digit n = if ltb n 10 then b'0' + n else b'a' + n - 10

-- `\\u%04x` of a byte.
unfoldable pub unicode_escape : ℕ → Bytes
unfolding hex_digit
unicode_escape c = b'\\' ∷ b'u' ∷ b'0' ∷ b'0' ∷ hex_digit (c / 16) ∷ hex_digit (c % 16) ∷ []

-- One turn of the loop.
unfoldable pub escape_char : ℕ → Bytes
unfolding unicode_escape
escape_char c =
    if c == b'"'
    then codes "\\\""
    else if c == b'\\'
    then codes "\\\\"
    else if c == b'\n'
    then codes "\\n"
    else if c == b'\r'
    then codes "\\r"
    else if c == b'\t'
    then codes "\\t"
    else if ltb c 32 || leb 128 c
    then unicode_escape c
    else c ∷ []

unfoldable pub escape_loop : Bytes → Bytes
unfolding escape_char
escape_loop [] = []
escape_loop (c ∷ s) = escape_char c ++ escape_loop s

unfoldable pub json_escape : Bytes → Bytes
unfolding escape_loop
json_escape s = b'"' ∷ (escape_loop s ++ b'"' ∷ [])

-- The decimal digits of `n` in front of `rest`; the first argument bounds their number.
unfoldable pub digits_loop : ℕ → ℕ → Bytes → Bytes
digits_loop zero n rest = rest
digits_loop (suc fuel) n rest =
    let more = digits_loop fuel (n / 10) ((b'0' + n % 10) ∷ rest) in
    if ltb n 10 then (b'0' + n) ∷ rest else more

-- `%llu` and `%u`; no number has more digits than its value and one.
unfoldable pub decimal : ℕ → Bytes
unfolding digits_loop
decimal n = digits_loop (n + 1) n []

-- `%d`
unfoldable pub signed_decimal : ℤ → Bytes
unfolding decimal
signed_decimal (pos n) = decimal n
signed_decimal (negsuc n) = b'-' ∷ decimal (n + 1)
