-- ===== src/Writer/Record/Fields.antt =====
-- The fields of a record of src/writer_jsonl.c are ASCII from the blank to DEL.
use if_flow.Base.{
  ℕ, zero, suc, ◌*◌, ◌/◌, ◌^◌, ◌<◌, ◌≡◌, refl, Bool, true, false, ◌&&◌, [], ◌∷◌, ◌++◌, Bytes, arith,
  All, codes, ltb, leb, ◌==◌, if◌then◌else◌,
}
use if_flow.Json.{json_escape, decimal}
use if_flow.Json.Inline.{IsInline, All-++, json_escape-IsInline, decimal-IsInline}
use if_flow.Writer.Record.{
  round_even, to_double_loop, two_decimals, units, units_loop, format_bytes_human, or_text,
  text_field, number_field,
}

-- The test, for literals.
abbrev pub is_inline : Bytes → Bool
is_inline [] = true
is_inline (c ∷ s) = leb 32 c && ltb c 128 && is_inline s

pub literal : (s : Bytes) → is_inline s ≡ true → All IsInline s
literal [] h = tt
literal (c ∷ s) h = ((ground arith, ground arith), literal s (ground arith))

abbrev pub AreBytes : Bytes → Type 0
AreBytes s = All (λ c. c < 256) s

pub bytes_of : (s : Bytes) → All IsInline s → AreBytes s
bytes_of [] h = tt
bytes_of (c ∷ s) h = (omega (arith, h.0.1), bytes_of s h.1)

pub text_field-IsInline :
    (name text : Bytes)
    → is_inline name ≡ true
    → AreBytes text
    → All IsInline (text_field name text)
unfolding text_field
text_field-IsInline name text n h = All-++ IsInline name _ (literal name n) (
    All-++ IsInline (json_escape text) (codes ",") (json_escape-IsInline text h)
      (literal (codes ",") refl))

pub number_field-IsInline :
    (name : Bytes) (n : ℕ) → is_inline name ≡ true → All IsInline (number_field name n)
unfolding number_field
number_field-IsInline name n h =
    All-++ IsInline name _ (literal name h)
      (All-++ IsInline (decimal n) (codes ",") (decimal-IsInline n) (literal (codes ",") refl))

-- A field that is printed as it is.
pub raw_field-IsInline :
    (name value : Bytes)
    → is_inline name ≡ true
    → All IsInline value
    → All IsInline (name ++ (value ++ codes ","))
raw_field-IsInline name value n h =
    All-++ IsInline name _ (literal name n)
      (All-++ IsInline value (codes ",") h (literal (codes ",") refl))

-- One more in front.
infixr 2 ◌▸◌
abbrev pub ◌▸◌ : {A B : Type 0} → A → B → A × B
a ▸ b = (a, b)

pub or_text-AreBytes :
    (other text : Bytes) → is_inline other ≡ true → AreBytes text → AreBytes (or_text other text)
or_text-AreBytes other [] o h = bytes_of other (literal other o)
or_text-AreBytes other (c ∷ text) o h = h

two_decimals-AreBytes : (v d : ℕ) → AreBytes (two_decimals v d)
unfolding two_decimals
two_decimals-AreBytes v d =
    let n = round_even (v * 100) d in
    All-++ (λ c. c < 256) (decimal (n / 100)) _ (bytes_of _ (decimal-IsInline (n / 100)))
      (omega arith, (omega arith, (omega arith, tt)))

units-AreBytes : (idx : ℕ) → AreBytes (units idx)
units-AreBytes zero = bytes_of (codes "B") (literal (codes "B") refl)
units-AreBytes (suc zero) = bytes_of (codes "KB") (literal (codes "KB") refl)
units-AreBytes (suc (suc zero)) = bytes_of (codes "MB") (literal (codes "MB") refl)
units-AreBytes (suc (suc (suc zero))) = bytes_of (codes "GB") (literal (codes "GB") refl)
units-AreBytes (suc (suc (suc (suc n)))) = bytes_of (codes "TB") (literal (codes "TB") refl)

pub format_bytes_human-AreBytes : (n : ℕ) → AreBytes (format_bytes_human n)
unfolding format_bytes_human
format_bytes_human-AreBytes n =
    let v = to_double_loop 11 1 n in
    let idx = units_loop 4 0 v in
    All-++ (λ c. c < 256) (if idx == 0 then decimal n else two_decimals v (1024 ^ idx))
      (b' ' ∷ units idx) (either (idx == 0) v idx) (omega arith, units-AreBytes idx)
  where
    either :
        (b : Bool) (v idx : ℕ) → AreBytes (if b then decimal n else two_decimals v (1024 ^ idx))
    either true v idx = bytes_of _ (decimal-IsInline n)
    either false v idx = two_decimals-AreBytes v (1024 ^ idx)
