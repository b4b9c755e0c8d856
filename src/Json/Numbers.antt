-- ===== src/Json/Numbers.antt =====
-- The numbers that src/writer_jsonl.c prints are read back.
use if_flow.Base.{
  ℕ, zero, suc, ◌+◌, ◌-◌, ◌*◌, ◌/◌, ◌%◌, ◌<◌, ◌≡◌, refl, ap, [], ◌∷◌, Bytes, arith, ltb, Bool-cases,
  inl, inr,
}
use if_flow.Json.{digits_loop, decimal}

-- The number that decimal digits stand for, behind those read already.
unfoldable pub read_digits : ℕ → Bytes → ℕ
read_digits acc [] = acc
read_digits acc (c ∷ xs) = read_digits (acc * 10 + (c - b'0')) xs

digits_loop_lem :
    (fuel n : ℕ) (rest : Bytes)
    → n < fuel
    → read_digits 0 (digits_loop fuel n rest) ≡ read_digits n rest
unfolding digits_loop read_digits
digits_loop_lem zero n rest h = absurd (omega arith)
digits_loop_lem (suc fuel) n rest h = elim (Bool-cases (ltb n 10)) [
  | inl last ↦
      let e : 0 + (b'0' + n - b'0') ≡ n = omega arith in rw last (ap (λ v. read_digits v rest) e)
  | inr more ↦
      let e : n / 10 * 10 + (b'0' + n % 10 - b'0') ≡ n = omega arith in
      rw (more, digits_loop_lem fuel (n / 10) ((b'0' + n % 10) ∷ rest) (ground arith), e) refl
]

-- The digits that are printed for a number stand for that number: the loop has enough turns.
pub read_digits-decimal : (n : ℕ) → read_digits 0 (decimal n) ≡ n
unfolding decimal read_digits
read_digits-decimal n = digits_loop_lem (n + 1) n [] (omega arith)
