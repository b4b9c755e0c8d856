-- ===== src/Json/Reader.antt =====
-- A reader of JSON strings by the grammar of RFC 8259, for code points below 256: what downstream
-- tools do with the output of src/writer_jsonl.c.
use if_flow.Base.{
  ℕ, zero, suc, ◌+◌, ◌-◌, ◌*◌, ◌&&◌, ◌||◌, Option, none, some, [], ◌∷◌, ◌++◌, Bytes, ltb, leb, ◌==◌,
  if◌then◌else◌,
}

-- Between characters, behind a backslash, or with digits of a code point still to come.
pub data Mode : Type 0 where
  plain : Mode
  escape : Mode
  hex : ℕ → ℕ → Mode

-- What a byte leads to.
pub data Step : Type 0 where
  finish : Step
  malformed : Step
  go : Bytes → Mode → Step

unfoldable pub hex_value : ℕ → Option ℕ
hex_value c =
    if leb b'0' c && leb c b'9'
    then some (c - b'0')
    else if leb b'a' c && leb c b'f'
    then some (c - b'a' + 10)
    else if leb b'A' c && leb c b'F'
    then some (c - b'A' + 10)
    else none

unfoldable pub plain_step : ℕ → Step
plain_step c =
    if c == b'"'
    then finish
    else if c == b'\\'
    then go [] escape
    else if ltb c 32
    then malformed
    else go (c ∷ []) plain

unfoldable pub escape_step : ℕ → Step
escape_step c =
    if c == b'"' || c == b'\\' || c == b'/'
    then go (c ∷ []) plain
    else if c == b'b'
    then go (8 ∷ []) plain
    else if c == b'f'
    then go (12 ∷ []) plain
    else if c == b'n'
    then go (b'\n' ∷ []) plain
    else if c == b'r'
    then go (b'\r' ∷ []) plain
    else if c == b't'
    then go (b'\t' ∷ []) plain
    else if c == b'u'
    then go [] (hex 4 0)
    else malformed

abbrev hex_go : ℕ → ℕ → Step
hex_go zero acc = malformed
hex_go (suc zero) acc = go (acc ∷ []) plain
hex_go (suc (suc n)) acc = go [] (hex (suc n) acc)

unfoldable pub step : Mode → ℕ → Step
unfolding hex_value plain_step escape_step
step plain c = plain_step c
step escape c = escape_step c
step (hex n acc) c = elim (hex_value c) [ none ↦ malformed | some v ↦ hex_go n (acc * 16 + v) ]

abbrev pub push : Bytes → Option (Bytes × Bytes) → Option (Bytes × Bytes)
push out none = none
push out (some (text, rest)) = some (out ++ text, rest)

-- The text up to the closing quote, and what stands behind it.
unfoldable pub read_text : Mode → Bytes → Option (Bytes × Bytes)
unfolding step
read_text m [] = none
read_text m (c ∷ xs) = elim (step m c) [
  | finish ↦ some ([], xs)
  | malformed ↦ none
  | go out m' ↦ push out (read_text m' xs)
]

unfoldable pub read_string : Bytes → Option (Bytes × Bytes)
unfolding read_text
read_string [] = none
read_string (c ∷ xs) = if c == b'"' then read_text plain xs else none
