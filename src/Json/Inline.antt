-- ===== src/Json/Inline.antt =====
-- The output of src/writer_jsonl.c for texts and numbers has bytes from
-- the blank to DEL alone, and so no line end.
use if_flow.Base.{
  ℕ, zero, suc, ◌+◌, ◌/◌, ◌%◌, ◌≤◌, ◌<◌, List, [], ◌∷◌, ◌++◌, Bytes, arith, All, ltb, Bool-cases,
  inl, inr, ℤ, pos, negsuc,
}
use if_flow.Json.Cases.{escape_char-cases}
use if_flow.Json.{
  hex_digit, unicode_escape, escape_char, escape_loop, json_escape, digits_loop, decimal,
  signed_decimal,
}

-- From the blank to DEL, which json_escape writes as it is: neither a line end nor another control
-- character below the blank, nor a byte above ASCII.
abbrev pub IsInline : ℕ → Type 0
IsInline c = (32 ≤ c) × (c < 128)

pub All-++ {ℓ κ} :
    {A : Type ℓ} (P : A → Type κ) (xs ys : List A) → All P xs → All P ys → All P (xs ++ ys)
All-++ P [] ys h k = k
All-++ P (x ∷ xs) ys h k = (h.0, All-++ P xs ys h.1 k)

hex_digit-IsInline : (n : ℕ) → n < 16 → IsInline (hex_digit n)
unfolding hex_digit
hex_digit-IsInline n h = ground arith

unicode_escape-IsInline : (c : ℕ) → c < 256 → All IsInline (unicode_escape c)
unfolding unicode_escape
unicode_escape-IsInline c h = (
  (omega arith, omega arith),
  (
    (omega arith, omega arith),
    (
      (omega arith, omega arith),
      (
        (omega arith, omega arith),
        (
          hex_digit-IsInline (c / 16) (omega arith),
          (hex_digit-IsInline (c % 16) (omega arith), tt),
        ),
      ),
    ),
  ),
)

escape_char-IsInline : (c : ℕ) → c < 256 → All IsInline (escape_char c)
escape_char-IsInline c h =
    escape_char-cases (All IsInline) c (λ e. two b'"' (omega arith) (omega arith))
      (λ e. two b'\\' (omega arith) (omega arith)) (λ e. two b'n' (omega arith) (omega arith))
      (λ e. two b'r' (omega arith) (omega arith)) (λ e. two b't' (omega arith) (omega arith))
      (unicode_escape-IsInline c h) (λ low high q b. ((low, high), tt))
  where
    two : (d : ℕ) → 32 ≤ d → d < 128 → All IsInline (b'\\' ∷ d ∷ [])
    two d low high = ((omega arith, omega arith), ((low, high), tt))

escape_loop-IsInline : (s : Bytes) → All (λ c. c < 256) s → All IsInline (escape_loop s)
unfolding escape_loop
escape_loop-IsInline [] h = tt
escape_loop-IsInline (c ∷ s) h =
    All-++ IsInline (escape_char c) (escape_loop s) (escape_char-IsInline c h.0)
      (escape_loop-IsInline s h.1)

pub json_escape-IsInline : (s : Bytes) → All (λ c. c < 256) s → All IsInline (json_escape s)
unfolding json_escape
json_escape-IsInline s h = (
  (omega arith, omega arith),
  All-++ IsInline (escape_loop s) (b'"' ∷ []) (escape_loop-IsInline s h)
      ((omega arith, omega arith), tt),
)

digits_loop-IsInline :
    (fuel n : ℕ) (rest : Bytes) → All IsInline rest → All IsInline (digits_loop fuel n rest)
unfolding digits_loop
digits_loop-IsInline zero n rest h = h
digits_loop-IsInline (suc fuel) n rest h = elim (Bool-cases (ltb n 10)) [
  | inl last ↦ rw last ((ground arith, ground arith), h)
  | inr more ↦ rw more (digits_loop-IsInline fuel (n / 10) _ ((omega arith, omega arith), h))
]

pub decimal-IsInline : (n : ℕ) → All IsInline (decimal n)
unfolding decimal
decimal-IsInline n = digits_loop-IsInline (n + 1) n [] tt

pub signed_decimal-IsInline : (z : ℤ) → All IsInline (signed_decimal z)
unfolding signed_decimal
signed_decimal-IsInline (pos n) = decimal-IsInline n
signed_decimal-IsInline (negsuc n) = ((omega arith, omega arith), decimal-IsInline (n + 1))
