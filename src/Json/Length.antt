-- ===== src/Json/Length.antt =====
-- src/writer_jsonl.c and its like: how many digits `%u` prints.
use if_flow.Base.{
  ℕ, zero, suc, ◌+◌, ◌*◌, ◌/◌, ◌%◌, ◌<◌, ◌≤◌, ◌≡◌, refl, true, [], ◌∷◌, Bytes, arith, length, ltb,
  if◌then◌else◌, Bool-cases, inl, inr,
}
use if_flow.Json.{digits_loop, decimal}

pub digits_loop-cons :
    (fuel n : ℕ) (rest : Bytes)
    → digits_loop (suc fuel) n rest
      ≡ (if ltb n 10 then (b'0' + n) ∷ rest else digits_loop fuel (n / 10) ((b'0' + n % 10) ∷ rest))
unfolding digits_loop
digits_loop-cons fuel n rest = refl

unfoldable pub ten_to : ℕ → ℕ
ten_to zero = 1
ten_to (suc k) = 10 * ten_to k

ten_to-suc : (k : ℕ) → ten_to (suc k) ≡ 10 * ten_to k
unfolding ten_to
ten_to-suc k = refl

length-loop :
    (k fuel n : ℕ) (rest : Bytes)
    → n < ten_to (suc k)
    → length (digits_loop fuel n rest) ≤ suc k + length rest
length-loop k zero n rest h = unfold digits_loop in omega arith
length-loop zero (suc fuel) n rest h =
    let small : ltb n 10 ≡ true = unfold ten_to in ground (arith, h) in
    rw (digits_loop-cons fuel n rest, small) (omega arith)
length-loop (suc k) (suc fuel) n rest h =
    let less : n / 10 < ten_to (suc k) = omega (arith, h, ten_to-suc (suc k)) in
    let more = length-loop k fuel (n / 10) ((b'0' + n % 10) ∷ rest) less in
    elim (Bool-cases (ltb n 10)) [
      | inl small ↦ rw (digits_loop-cons fuel n rest, small) (omega arith)
      | inr large ↦ rw (digits_loop-cons fuel n rest, large) (omega (arith, more))
    ]

-- A number below 10 to the k is printed with k digits at most.
pub length-decimal : (k n : ℕ) → n < ten_to (suc k) → length (decimal n) ≤ suc k
unfolding decimal
length-decimal k n h = omega (arith, length-loop k (n + 1) n [] h)
