-- ===== src/Base/Sweep.antt =====
-- The loop that compacts an array in place: entries that are kept slide towards the front, in
-- order. Three components have it: the final flush of the flow table and the pruning of two caches.
use Prim.Native.Nat.{ℕ, zero, suc, ◌+◌, ◌≤◌}
use mathlib.Core.Path.{◌≡◌, refl, ap, ◌∙◌}
use mathlib.Core.Logic.{inl, inr}
use mathlib.Core.Bool.{Bool, true, false}
use mathlib.Core.Option.{none, some}
use mathlib.Core.List.{List, [], ◌∷◌, ◌++◌, append_assoc, append-nil}
use native.Mathlib.Omega.{arith}
use if_flow.Base.Tests.{◌==◌, if◌then◌else◌, Bool-cases}
use if_flow.Base.Lists.{
  length, get_elem?, set, take, get_elem?-append, get_elem?-append_zero, set-append, take-append,
  length-append, All,
}

pub record Swept {ℓ} (A : Type ℓ) : Type ℓ where
  pub cells : List A
  pub write_idx : ℕ
  pub dropped : List A

module _ {ℓ} {A : Type ℓ} (keep : ℕ → A → Bool) where
  -- The body of the loop, on the entry `x` that stands at `read_idx`.
  advance : ℕ → A → Swept A → Swept A
  advance read_idx x s =
      if keep read_idx x
      then record {
        cells = if s.write_idx == read_idx then s.cells else set s.cells s.write_idx x;
        write_idx = s.write_idx + 1;
        dropped = s.dropped;
      }
      else record s { dropped = s.dropped ++ x ∷ [] }

  -- `rounds` cells are still to be read. What is dropped is collected as it stood in the array when
  -- the loop read it.
  sweep_loop : ℕ → ℕ → Swept A → Swept A
  unfolding advance
  sweep_loop zero read_idx s = s
  sweep_loop (suc rounds) read_idx s = elim (get_elem? s.cells read_idx) [
    | none ↦ s
    | some x ↦ sweep_loop rounds (read_idx + 1) (advance read_idx x s)
  ]

  abbrev result : Swept A → List A × List A
  result s = (take s.write_idx s.cells, s.dropped)

  -- The entries that are left, and those that were dropped.
  unfoldable pub sweep : List A → List A × List A
  unfolding sweep_loop
  sweep xs = result (sweep_loop (length xs) 0 (record { cells = xs; write_idx = 0; dropped = [] }))

  -- The entries that the test keeps, in order; `i` is the index of the first.
  unfoldable pub kept : ℕ → List A → List A
  kept i [] = []
  kept i (x ∷ xs) = if keep i x then x ∷ kept (i + 1) xs else kept (i + 1) xs

  unfoldable pub rejected : ℕ → List A → List A
  rejected i [] = []
  rejected i (x ∷ xs) = if keep i x then rejected (i + 1) xs else x ∷ rejected (i + 1) xs

  -- `front` is compacted, `stale` holds cells that are free again, `xs` is unread.
  abbrev state : List A → List A → List A → List A → Swept A
  state front stale xs out = record {
    cells = front ++ (stale ++ xs);
    write_idx = length front;
    dropped = out;
  }

  get-state :
      (i : ℕ) (front stale xs : List A) (x : A)
      → i ≡ length front + length stale
      → get_elem? (front ++ (stale ++ x ∷ xs)) i ≡ some x
  get-state i front stale xs x e = rw e (
      get_elem?-append front (stale ++ x ∷ xs) (length stale)
      ∙ get_elem?-append_zero stale (x ∷ xs))

  advance_reject :
      (i : ℕ) (front stale xs out : List A) (x : A)
      → keep i x ≡ false
      → advance i x (state front stale (x ∷ xs) out)
        ≡ state front (stale ++ x ∷ []) xs (out ++ x ∷ [])
  unfolding advance
  advance_reject i front stale xs out x h = rw h (rw (append_assoc stale (x ∷ []) xs))

  advance_keep :
      (i : ℕ) (front stale xs out : List A) (x : A)
      → i ≡ length front + length stale
      → keep i x ≡ true
      → (stale' : List A) × (length stale' ≡ length stale)
        × (advance i x (state front stale (x ∷ xs) out) ≡ state (front ++ x ∷ []) stale' xs out)
  unfolding advance
  advance_keep i front [] xs out x e h =
      ([], refl, ground (arith, append_assoc front (x ∷ []) xs, length-append front (x ∷ [])))
  advance_keep i front (y ∷ stale) xs out x e h = (
    stale ++ x ∷ [],
    omega (arith, length-append stale (x ∷ [])),
    ground (
      arith,
      append_assoc front (x ∷ []) (stale ++ x ∷ xs),
      append_assoc stale (x ∷ []) xs,
      length-append front (x ∷ []),
      set-append front (stale ++ x ∷ xs) y x,
    ),
  )

  step_lem :
      (n i : ℕ) (s : Swept A) (x : A)
      → get_elem? s.cells i ≡ some x
      → sweep_loop (suc n) i s ≡ sweep_loop n (i + 1) (advance i x s)
  unfolding sweep_loop
  step_lem n i s x e = rw (e, sweep_loop)

  loop_lem :
      (xs : List A) (i : ℕ) (front stale out : List A)
      → i ≡ length front + length stale
      → result (sweep_loop (length xs) i (state front stale xs out))
        ≡ (front ++ kept i xs, out ++ rejected i xs)
  unfolding kept rejected
  loop_lem [] i front stale out e =
      unfold sweep_loop in
      rw (append-nil front, append-nil out) (ap (λ z. (z, out)) (take-append front (stale ++ [])))
  loop_lem (x ∷ xs) i front stale out e =
      ap result (step_lem (length xs) i _ x (get-state i front stale xs x e))
      ∙ elim (Bool-cases (keep i x)) [
        | inl h ↦
            let (stale', same, step) = advance_keep i front stale xs out x e h in
            rw (step, h)
              (loop_lem xs (i + 1) (front ++ x ∷ []) stale' out
                  (omega (arith, length-append front (x ∷ [])))
                ∙ rw (append_assoc front (x ∷ []) (kept (i + 1) xs)))
        | inr h ↦
            rw (advance_reject i front stale xs out x h, h)
              (loop_lem xs (i + 1) front (stale ++ x ∷ []) (out ++ x ∷ [])
                  (omega (arith, length-append stale (x ∷ [])))
                ∙ rw (append_assoc out (x ∷ []) (rejected (i + 1) xs)))
      ]

  -- The loop in place computes the two sublists.
  pub sweep_lem : (xs : List A) → sweep xs ≡ (kept 0 xs, rejected 0 xs)
  unfolding sweep
  sweep_lem xs = loop_lem xs 0 [] [] [] refl

  -- Whatever holds of all entries holds of those that are kept.
  pub All-kept {κ} : (P : A → Type κ) (i : ℕ) (xs : List A) → All P xs → All P (kept i xs)
  unfolding kept
  All-kept P i [] h = tt
  All-kept P i (x ∷ xs) h = elim (Bool-cases (keep i x)) [
    | inl b ↦ rw b (h.0, All-kept P (i + 1) xs h.1)
    | inr b ↦ rw b (All-kept P (i + 1) xs h.1)
  ]

  pub length-kept : (i : ℕ) (xs : List A) → length (kept i xs) ≤ length xs
  unfolding kept
  length-kept i [] = omega arith
  length-kept i (x ∷ xs) = ground (arith, length-kept (i + 1) xs)

  pub kept-append :
      (i : ℕ) (xs : List A) (x : A)
      → kept i (xs ++ x ∷ []) ≡ (if keep (i + length xs) x then kept i xs ++ x ∷ [] else kept i xs)
  unfolding kept
  kept-append i [] x = let e : i + 0 ≡ i = omega arith in rw e refl
  kept-append i (y ∷ xs) x =
      let e : i + suc (length xs) ≡ i + 1 + length xs = omega arith in
      rw e (ground (arith, kept-append (i + 1) xs x))
