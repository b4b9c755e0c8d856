-- ===== src/FlowTable/Runs/Closed.antt =====
-- The minutes of the entries of src/flow_table.c: none is behind the last packet, so a flush of the
-- minutes up to there leaves no entry.
use if_flow.Base.{
  ℕ, ◌+◌, ◌*◌, ◌≤◌, ◌<◌, ◌≡◌, refl, Bool, true, some, List, [], ◌∷◌, arith, All, All-append, ltb,
  Bool-cases, inl, inr,
}
use if_flow.Flow.{FlowEntry, second, minute_bucket_for}
use if_flow.FlowTable.{
  FlowTable, Touch, merge, fresh_entry, learn_identity, learn_names, touch_loop, flow_table_touch,
  emit_loop, flow_table_emit_ready,
}
use if_flow.FlowTable.Invariant.{Inv}
use if_flow.FlowTable.Touching.{touch_cases, touch_loop_step}
use if_flow.FlowTable.Emission.{after_emit, emit_loop-cons}
use if_flow.FlowTable.Flush.{open_entries, open_entries-cons, flush_lem}
use if_flow.FlowTable.Runs.{Event, touches, emits, flushes, Capture, step, run, IsEvent, step-Inv}

-- The entry is of a minute up to that of `stop`.
abbrev pub IsUpTo : ℕ → FlowEntry → Type 0
IsUpTo stop e = e.minute_bucket ≤ minute_bucket_for stop

-- A packet comes at `stop` at the latest.
abbrev pub ComesBy : ℕ → Event → Type 0
ComesBy stop (touches realloc t) = t.now_sec ≤ stop
ComesBy stop _ = Unit {0}

minute_bucket_for_mono : (a b : ℕ) → a ≤ b → minute_bucket_for a ≤ minute_bucket_for b
unfolding minute_bucket_for
minute_bucket_for_mono a b h = omega arith

minute_bucket_for_next : (t : ℕ) → minute_bucket_for t < minute_bucket_for (t + 60 * second)
unfolding minute_bucket_for
minute_bucket_for_next t = omega arith

merge_minute : (t : Touch) (e : FlowEntry) → (merge t e).minute_bucket ≡ e.minute_bucket
unfolding merge learn_identity learn_names
merge_minute t e = ground arith

fresh_minute : (t : Touch) → (fresh_entry t).minute_bucket ≡ minute_bucket_for t.now_sec
unfolding fresh_entry
fresh_minute t = refl

emit_minute : (m now : ℕ) (e : FlowEntry) → (after_emit m now e).minute_bucket ≡ e.minute_bucket
unfolding after_emit
emit_minute m now e = ground arith

touch_loop-IsUpTo :
    (stop : ℕ) (t : Touch) (es : List FlowEntry) {es' : List FlowEntry}
    → All (IsUpTo stop) es
    → touch_loop t es ≡ some es'
    → All (IsUpTo stop) es'
touch_loop-IsUpTo stop t [] h found = absurd (unfold touch_loop in cc)
touch_loop-IsUpTo stop t (e ∷ es) h found =
    touch_loop_step (All (IsUpTo stop)) t e es found
      (λ _. (omega (arith, h.0, merge_minute t e), h.1))
      (λ rest _ later. (h.0, touch_loop-IsUpTo stop t es h.1 later))

touch-IsUpTo :
    (realloc : ℕ → Bool) (stop : ℕ) (t : Touch) (ft : FlowTable)
    → t.now_sec ≤ stop
    → Inv ft
    → All (IsUpTo stop) ft.entries
    → All (IsUpTo stop) (flow_table_touch realloc t ft).entries
touch-IsUpTo realloc stop t ft soon v h = elim (touch_cases realloc t ft v) [
  | inl (es, found, e) ↦ rw e (touch_loop-IsUpTo stop t ft.entries h found)
  | inr (inl (missing, room, e)) ↦ rw e (
      All-append (IsUpTo stop) ft.entries (fresh_entry t) h
        (omega (arith, fresh_minute t, minute_bucket_for_mono t.now_sec stop soon)))
  | inr (inr (missing, full, e)) ↦ rw e h
]

emit_loop-IsUpTo :
    (stop m now : ℕ) (es : List FlowEntry)
    → All (IsUpTo stop) es
    → All (IsUpTo stop) (emit_loop m now es).0
emit_loop-IsUpTo stop m now [] h = unfold emit_loop in tt
emit_loop-IsUpTo stop m now (e ∷ es) h =
    rw (emit_loop-cons m now e es)
      (omega (arith, h.0, emit_minute m now e), emit_loop-IsUpTo stop m now es h.1)

open_entries-IsUpTo :
    (stop m : ℕ) (es : List FlowEntry)
    → All (IsUpTo stop) es
    → All (IsUpTo stop) (open_entries m es)
open_entries-IsUpTo stop m [] h = unfold open_entries in tt
open_entries-IsUpTo stop m (e ∷ es) h = elim (Bool-cases (ltb e.minute_bucket m)) [
  | inl closed ↦ rw (open_entries-cons m e es, closed) (open_entries-IsUpTo stop m es h.1)
  | inr open_yet ↦ rw (open_entries-cons m e es, open_yet) (h.0, open_entries-IsUpTo stop m es h.1)
]

step-IsUpTo :
    (stop : ℕ) (c : Capture) (v : Event)
    → ComesBy stop v
    → Inv c.table
    → All (IsUpTo stop) c.table.entries
    → All (IsUpTo stop) (step c v).table.entries
unfolding step
step-IsUpTo stop c (touches realloc t) h v es = touch-IsUpTo realloc stop t c.table h v es
step-IsUpTo stop c (emits m now) h v es =
    unfold flow_table_emit_ready in emit_loop-IsUpTo stop m now c.table.entries es
step-IsUpTo stop c (flushes m) h v es =
    rw (flush_lem m c.table) (open_entries-IsUpTo stop m c.table.entries es)

run-IsUpTo :
    (stop : ℕ) (c : Capture) (vs : List Event)
    → All IsEvent vs
    → All (ComesBy stop) vs
    → Inv c.table
    → All (IsUpTo stop) c.table.entries
    → All (IsUpTo stop) (run c vs).table.entries
unfolding run
run-IsUpTo stop c [] h b v es = es
run-IsUpTo stop c (e ∷ vs) h b v es =
    run-IsUpTo stop (step c e) vs h.1 b.1 (step-Inv c e h.0 v) (step-IsUpTo stop c e b.0 v es)

open_entries-none :
    (stop : ℕ) (es : List FlowEntry)
    → All (IsUpTo stop) es
    → open_entries (minute_bucket_for (stop + 60 * second)) es ≡ []
open_entries-none stop [] h = unfold open_entries in refl
open_entries-none stop (e ∷ es) h =
    let next = minute_bucket_for (stop + 60 * second) in
    let closed : ltb e.minute_bucket next ≡ true =
      ground (arith, h.0, minute_bucket_for_next stop) in
    rw (open_entries-cons next e es, closed) (open_entries-none stop es h.1)

-- A flush of the minutes before that of `stop` and 60 seconds more leaves no entry, if no packet
-- came after `stop`.
pub run-drained :
    (stop : ℕ) (c : Capture) (vs : List Event)
    → All IsEvent vs
    → All (ComesBy stop) vs
    → Inv c.table
    → All (IsUpTo stop) c.table.entries
    → (step (run c vs) (flushes (minute_bucket_for (stop + 60 * second)))).table.entries ≡ []
unfolding step
run-drained stop c vs h b v es =
    rw (flush_lem (minute_bucket_for (stop + 60 * second)) (run c vs).table)
      (open_entries-none stop (run c vs).table.entries (run-IsUpTo stop c vs h b v es))
