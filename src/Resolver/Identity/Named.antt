-- ===== src/Resolver/Identity/Named.antt =====
-- src/resolver.c: the name of a process that is known from elsewhere outlives the loss of its
-- `comm` file.
use if_flow.Base.{
  ℕ, zero, suc, ◌+◌, ◌/◌, ◌%◌, ◌^◌, ◌≤◌, ◌<◌, ◌≡◌, refl, true, false, none, [], ◌∷◌, ◌++◌, Bytes,
  codes, arith, length, safe_copy_all, is_empty, ltb, Bool-cases, inl, inr,
}
use if_flow.Flow.{if_flow_max_proc_name}
use if_flow.EbpfTracker.{starts_with}
use if_flow.Json.{digits_loop, decimal}
use if_flow.Json.Length.{digits_loop-cons, ten_to, length-decimal}
use if_flow.Resolver.{Texts, entry_sizes}
use if_flow.Resolver.ProcFs.{ProcFs, all_digits, is_pid_placeholder_name}
use if_flow.Resolver.Identity.{read_comm, read_texts, pid_placeholder}

-- The digits of a number are digits, one at least, and no more than they need.
all_digits-loop :
    (fuel n : ℕ) (rest : Bytes)
    → all_digits rest ≡ true
    → all_digits (digits_loop fuel n rest) ≡ true
all_digits-loop zero n rest h = unfold digits_loop in h
all_digits-loop (suc fuel) n rest h =
    let low : all_digits ((b'0' + n % 10) ∷ rest) ≡ true = unfold all_digits in ground (arith, h) in
    let only : ltb n 10 ≡ true → all_digits ((b'0' + n) ∷ rest) ≡ true =
      unfold all_digits in (λ small. ground (arith, h)) in
    let more = all_digits-loop fuel (n / 10) ((b'0' + n % 10) ∷ rest) low in
    elim (Bool-cases (ltb n 10)) [
      | inl small ↦ rw (digits_loop-cons fuel n rest, small) (only small)
      | inr large ↦ rw (digits_loop-cons fuel n rest, large) more
    ]

is_empty-loop :
    (fuel n : ℕ) (rest : Bytes) → is_empty rest ≡ false → is_empty (digits_loop fuel n rest) ≡ false
is_empty-loop zero n rest h = unfold digits_loop in h
is_empty-loop (suc fuel) n rest h =
    let more = is_empty-loop fuel (n / 10) ((b'0' + n % 10) ∷ rest) refl in
    elim (Bool-cases (ltb n 10)) [
      | inl small ↦ rw (digits_loop-cons fuel n rest, small) refl
      | inr large ↦ rw (digits_loop-cons fuel n rest, large) more
    ]

decimal_lem :
    (n : ℕ)
    → n < 2 ^ 31
    → (all_digits (decimal n) ≡ true) × (is_empty (decimal n) ≡ false) × (length (decimal n) ≤ 10)
unfolding decimal
decimal_lem n h =
    let below : n < ten_to 10 = unfold ten_to in omega (arith, h) in
    (all_digits-loop (n + 1) n [] (unfold all_digits in refl), nonempty n, length-decimal 9 n below)
  where
    nonempty : (n : ℕ) → is_empty (digits_loop (n + 1) n []) ≡ false
    nonempty n =
        let one : n + 1 ≡ suc n = omega arith in
        let more = is_empty-loop n (n / 10) ((b'0' + n % 10) ∷ []) refl in
        rw (one, digits_loop-cons n n [])
          (elim (Bool-cases (ltb n 10)) [ inl small ↦ rw small refl | inr large ↦ rw large more ])

-- The placeholder is told from a name.
placeholder_lem :
    (pid : ℕ)
    → pid < 2 ^ 31
    → is_pid_placeholder_name (pid_placeholder pid if_flow_max_proc_name) ≡ true
unfolding is_pid_placeholder_name pid_placeholder starts_with
placeholder_lem pid h =
    let (digits, some_digit, short) = decimal_lem pid h in
    let whole =
      safe_copy_all [] if_flow_max_proc_name (codes "pid_" ++ decimal pid) (omega (arith, short)) in
    rw (whole, digits, some_digit) refl

read_comm-gone :
    (fs : ProcFs) (pid sz : ℕ) → fs.comm pid ≡ none → read_comm fs pid sz ≡ pid_placeholder pid sz
unfolding read_comm
read_comm-gone fs pid sz gone = rw (gone, read_comm) refl

-- Where the `comm` file of a process is gone, a name that the buffer holds is kept, if it fits.
pub read_texts-process :
    (fs : ProcFs) (pid : ℕ) (texts : Texts)
    → pid < 2 ^ 31
    → fs.comm pid ≡ none
    → is_empty texts.process ≡ false
    → length texts.process < if_flow_max_proc_name
    → (read_texts fs pid entry_sizes texts).process ≡ texts.process
unfolding read_texts
read_texts-process fs pid texts range gone named fits =
    let held = safe_copy_all [] if_flow_max_proc_name texts.process fits in
    let kept = safe_copy_all texts.process if_flow_max_proc_name texts.process fits in
    rw
      (
        read_comm-gone fs pid if_flow_max_proc_name gone,
        placeholder_lem pid range,
        held,
        named,
        kept,
      )
      refl
