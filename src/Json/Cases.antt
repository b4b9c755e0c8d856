-- ===== src/Json/Cases.antt =====
-- The branches of `json_escape` of src/writer_jsonl.c, for proofs by cases.
use if_flow.Base.{
  ℕ, ◌≤◌, ◌<◌, ◌≡◌, ◌≢◌, ◌||◌, [], ◌∷◌, Bytes, arith, ltb, leb, ◌==◌, codes, Bool-cases, inl, inr,
}
use if_flow.Json.{unicode_escape, escape_char}

-- What holds of each form holds of whatever is written for a byte.
pub escape_char-cases {ℓ} :
    (P : Bytes → Type ℓ) (c : ℕ)
    → (c ≡ b'"' → P (codes "\\\""))
    → (c ≡ b'\\' → P (codes "\\\\"))
    → (c ≡ b'\n' → P (codes "\\n"))
    → (c ≡ b'\r' → P (codes "\\r"))
    → (c ≡ b'\t' → P (codes "\\t"))
    → P (unicode_escape c)
    → (32 ≤ c → c < 128 → c ≢ b'"' → c ≢ b'\\' → P (c ∷ []))
    → P (escape_char c)
unfolding escape_char
escape_char-cases P c quote backslash line return tab other raw = elim (Bool-cases (c == b'"')) [
  | inl h ↦ rw h (quote (ground arith))
  | inr h1 ↦ rw h1 (elim (Bool-cases (c == b'\\')) [
    | inl h ↦ rw h (backslash (ground arith))
    | inr h2 ↦ rw h2 (elim (Bool-cases (c == b'\n')) [
      | inl h ↦ rw h (line (ground arith))
      | inr h3 ↦ rw h3 (elim (Bool-cases (c == b'\r')) [
        | inl h ↦ rw h (return (ground arith))
        | inr h4 ↦ rw h4 (elim (Bool-cases (c == b'\t')) [
          | inl h ↦ rw h (tab (ground arith))
          | inr h5 ↦ rw h5 (elim (Bool-cases (ltb c 32 || leb 128 c)) [
            | inl h ↦ rw h other
            | inr h ↦ rw h (raw (ground arith) (ground arith) (ground arith) (ground arith))
          ])
        ])
      ])
    ])
  ])
]
