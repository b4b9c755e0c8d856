-- ===== src/Json/RoundTrip.antt =====
-- `json_escape` of src/writer_jsonl.c is undone by a JSON reader.
use mathlib.Core.List.{append_assoc}
use if_flow.Base.{
  ℕ, ◌/◌, ◌%◌, ◌<◌, ◌≡◌, refl, ◌∙◌, Option, none, some, [], ◌∷◌, ◌++◌, Bytes, arith, All,
}
use if_flow.Json.Cases.{escape_char-cases}
use if_flow.Json.{hex_digit, unicode_escape, escape_char, escape_loop, json_escape}
use if_flow.Json.Reader.{
  Mode, plain, escape, go, step, plain_step, escape_step, push, hex_value, read_text, read_string,
}

hex_value-hex_digit : (n : ℕ) → n < 16 → hex_value (hex_digit n) ≡ some n
unfolding hex_value hex_digit
hex_value-hex_digit n h = ground arith

read_text-go :
    (m m' : Mode) (c : ℕ) (out xs : Bytes)
    → step m c ≡ go out m'
    → read_text m (c ∷ xs) ≡ push out (read_text m' xs)
unfolding read_text
read_text-go m m' c out xs h = rw (h, read_text) refl

push-nil : (o : Option (Bytes × Bytes)) → push [] o ≡ o
push-nil none = refl
push-nil (some p) = refl

read_text-unicode :
    (c : ℕ) (xs : Bytes)
    → c < 256
    → read_text plain (unicode_escape c ++ xs) ≡ push (c ∷ []) (read_text plain xs)
unfolding unicode_escape
read_text-unicode c xs h =
    let high = hex_value-hex_digit (c / 16) (omega arith) in
    let low = hex_value-hex_digit (c % 16) (omega arith) in
    unfold read_text step escape_step plain_step in
    rw (high, low) (pushed (read_text plain xs) (omega arith))
  where
    pushed :
        {v : ℕ} (o : Option (Bytes × Bytes))
        → v ≡ c
        → push [] (push [] (push [] (push [] (push [] (push (v ∷ []) o))))) ≡ push (c ∷ []) o
    pushed none e = refl
    pushed (some p) e = rw e refl

-- A backslash and a letter.
read_text-pair :
    (d c : ℕ) (xs : Bytes)
    → escape_step d ≡ go (c ∷ []) plain
    → read_text plain (b'\\' ∷ d ∷ xs) ≡ push (c ∷ []) (read_text plain xs)
unfolding step
read_text-pair d c xs h =
    read_text-go plain escape b'\\' [] (d ∷ xs) (unfold plain_step in refl)
    ∙ push-nil (read_text escape (d ∷ xs))
    ∙ read_text-go escape plain d (c ∷ []) xs h

read_text-escape_char :
    (c : ℕ) (xs : Bytes)
    → c < 256
    → read_text plain (escape_char c ++ xs) ≡ push (c ∷ []) (read_text plain xs)
read_text-escape_char c xs h =
    escape_char-cases (λ out. read_text plain (out ++ xs) ≡ push (c ∷ []) (read_text plain xs)) c
      (λ e. rw e (read_text-pair b'"' b'"' xs (unfold escape_step in refl)))
      (λ e. rw e (read_text-pair b'\\' b'\\' xs (unfold escape_step in refl)))
      (λ e. rw e (read_text-pair b'n' b'\n' xs (unfold escape_step in refl)))
      (λ e. rw e (read_text-pair b'r' b'\r' xs (unfold escape_step in refl)))
      (λ e. rw e (read_text-pair b't' b'\t' xs (unfold escape_step in refl)))
      (read_text-unicode c xs h)
      (λ low high q b.
        read_text-go plain plain c (c ∷ []) xs (unfold step plain_step in ground arith))

read_text-escape_loop :
    (s rest : Bytes)
    → All (λ c. c < 256) s
    → read_text plain (escape_loop s ++ b'"' ∷ rest) ≡ some (s, rest)
unfolding escape_loop
read_text-escape_loop [] rest h = unfold read_text in refl
read_text-escape_loop (c ∷ s) rest h =
    rw
      (
        append_assoc (escape_char c) (escape_loop s) (b'"' ∷ rest),
        read_text-escape_char c (escape_loop s ++ b'"' ∷ rest) h.0,
        read_text-escape_loop s rest h.1,
      )
      refl

-- A JSON reader gets back the very bytes that were escaped, and stops behind the closing quote,
-- whatever the bytes are.
pub read_string-json_escape :
    (s rest : Bytes) → All (λ c. c < 256) s → read_string (json_escape s ++ rest) ≡ some (s, rest)
unfolding read_string json_escape
read_string-json_escape s rest h =
    rw (append_assoc (escape_loop s) (b'"' ∷ []) rest) (read_text-escape_loop s rest h)
