-- ===== src/FlowTable/Runs/Account.antt =====
-- No packet and no byte that the table of src/flow_table.c accepts is lost or counted twice.
use if_flow.Base.{
  ℕ, ◌+◌, ◌%◌, ◌<◌, ◌^◌, Bool, true, ◌≡◌, refl, none, some, List, [], ◌∷◌, ◌++◌, arith,
  if◌then◌else◌, All, inl, inr,
}
use if_flow.Flow.{FlowEntry, u64_mod}
use if_flow.FlowTable.{
  FlowTable, Touch, flow_table_init, merge, fresh_entry, touch_loop, flow_table_touch, emit_loop,
  flow_table_emit_ready, learn_identity, learn_names,
}
use if_flow.FlowTable.Lookup.{touch_id, lookup, touch_loop-none, touch_loop-some}
use if_flow.FlowTable.Invariant.{Inv}
use if_flow.FlowTable.Touching.{has_room, touch_cases, touch_loop_step}
use if_flow.FlowTable.Emission.{after_emit, emit_loop-cons}
use if_flow.FlowTable.Flush.{open_entries, closed_entries, flush_lem}
use if_flow.FlowTable.Runs.{
  Event, touches, emits, flushes, Capture, step, run, IsEvent, step-Inv, init-Inv, start,
}

-- A counter of the entries, and what a touch adds to it; counters are uint64_t and wrap.
pub record Meter : Type 0 where
  pub reading : FlowEntry → ℕ
  pub amount : Touch → ℕ
  pub merge_adds :
      (t : Touch) (e : FlowEntry) → reading (merge t e) % u64_mod ≡ (reading e + amount t) % u64_mod
  pub fresh_adds : (t : Touch) → reading (fresh_entry t) ≡ amount t
  pub emit_keeps : (m now : ℕ) (e : FlowEntry) → reading (after_emit m now e) ≡ reading e

-- The touch finds its entry or makes one.
pub accepted : (ℕ → Bool) → Touch → FlowTable → Bool
accepted realloc t ft = elim (lookup (touch_id t) ft.entries) [
  | none ↦ has_room realloc ft
  | some e ↦ true
]

module _ (meter : Meter) where
  open meter use {reading, amount, merge_adds, fresh_adds, emit_keeps}

  unfoldable pub total : List FlowEntry → ℕ
  total [] = 0
  total (e ∷ es) = reading e + total es

  total-append : (es fs : List FlowEntry) → total (es ++ fs) ≡ total es + total fs
  unfolding total
  total-append [] fs = omega arith
  total-append (e ∷ es) fs = omega (arith, total-append es fs)

  total-touch_loop :
      (t : Touch) (es : List FlowEntry) {es' : List FlowEntry}
      → touch_loop t es ≡ some es'
      → total es' % u64_mod ≡ (total es + amount t) % u64_mod
  unfolding total
  total-touch_loop t [] h = absurd (unfold touch_loop in cc)
  total-touch_loop t (e ∷ es) h =
      touch_loop_step (λ r. total r % u64_mod ≡ (reading e + total es + amount t) % u64_mod) t e es
        h (λ _. omega (arith, merge_adds t e))
        (λ rest _ found. omega (arith, total-touch_loop t es found))

  total-touch :
      (realloc : ℕ → Bool) (t : Touch) (ft : FlowTable)
      → Inv ft
      → total (flow_table_touch realloc t ft).entries % u64_mod
        ≡ (total ft.entries + (if accepted realloc t ft then amount t else 0)) % u64_mod
  unfolding accepted
  total-touch realloc t ft v = elim (touch_cases realloc t ft v) [
    | inl (es, found, e) ↦
        let (old, was, _) = touch_loop-some t ft.entries (touch_id t) found in
        rw (e, accepted, was) (total-touch_loop t ft.entries found)
    | inr (inl (missing, room, e)) ↦
        rw (e, accepted, touch_loop-none t ft.entries missing, room, total-append)
          (unfold total in omega (arith, fresh_adds t))
    | inr (inr (missing, full, e)) ↦
        rw (e, accepted, touch_loop-none t ft.entries missing, full) (omega arith)
  ]

  total-emit_loop : (m now : ℕ) (es : List FlowEntry) → total (emit_loop m now es).0 ≡ total es
  unfolding total
  total-emit_loop m now [] = unfold emit_loop in refl
  total-emit_loop m now (e ∷ es) =
      rw (emit_loop-cons m now e es) (omega (arith, emit_keeps m now e, total-emit_loop m now es))

  total-flush :
      (m : ℕ) (es : List FlowEntry)
      → total (open_entries m es) + total (closed_entries m es) ≡ total es
  unfolding total open_entries closed_entries
  total-flush m [] = refl
  total-flush m (e ∷ es) = ground (arith, total-flush m es)

  -- What a call puts into the table: nothing where it finds no room.
  pub taken : Capture → Event → ℕ
  taken c (touches realloc t) = if accepted realloc t c.table then amount t else 0
  taken c _ = 0

  pub offered : Capture → List Event → ℕ
  offered c [] = 0
  offered c (v ∷ vs) = taken c v + offered (step c v) vs

  -- What the table holds, and what has been handed over for good.
  unfoldable pub accounted : Capture → ℕ
  accounted c = total c.table.entries + total c.finals

  step_accounts :
      (c : Capture) (v : Event)
      → Inv c.table
      → accounted (step c v) % u64_mod ≡ (accounted c + taken c v) % u64_mod
  unfolding accounted step taken
  step_accounts c (touches realloc t) v = omega (arith, total-touch realloc t c.table v)
  step_accounts c (emits m now) v =
      unfold flow_table_emit_ready in omega (arith, total-emit_loop m now c.table.entries)
  step_accounts c (flushes m) v =
      rw (flush_lem m c.table, total-append) (omega (arith, total-flush m c.table.entries))

  -- Modulo the width of a counter, what a capture has put in is what it still holds and what it has
  -- handed over in final records.
  pub run_accounts :
      (c : Capture) (vs : List Event)
      → All IsEvent vs
      → Inv c.table
      → accounted (run c vs) % u64_mod ≡ (accounted c + offered c vs) % u64_mod
  unfolding run offered
  run_accounts c [] h v = omega arith
  run_accounts c (e ∷ vs) h v =
      omega (arith, step_accounts c e v, run_accounts (step c e) vs h.1 (step-Inv c e h.0 v))

  start_total : (max_flows : ℕ) → accounted (start max_flows) ≡ 0
  unfolding accounted total flow_table_init
  start_total max_flows = refl

  capture_lem :
      (max_flows : ℕ) (vs : List Event)
      → max_flows < 2 ^ 31
      → All IsEvent vs
      → accounted (run (start max_flows) vs) % u64_mod ≡ offered (start max_flows) vs % u64_mod
  capture_lem max_flows vs h hs =
      omega
        (arith, start_total max_flows, run_accounts (start max_flows) vs hs (init-Inv max_flows h))

pub packet_merge :
    (t : Touch) (e : FlowEntry) → (merge t e).packets % u64_mod ≡ (e.packets + 1) % u64_mod
unfolding merge learn_identity learn_names
packet_merge t e = ground arith

pub byte_merge :
    (t : Touch) (e : FlowEntry) → (merge t e).bytes % u64_mod ≡ (e.bytes + t.bytes) % u64_mod
unfolding merge learn_identity learn_names
byte_merge t e = ground arith

pub packet_emit : (m now : ℕ) (e : FlowEntry) → (after_emit m now e).packets ≡ e.packets
unfolding after_emit
packet_emit m now e = ground arith

pub byte_emit : (m now : ℕ) (e : FlowEntry) → (after_emit m now e).bytes ≡ e.bytes
unfolding after_emit
byte_emit m now e = ground arith

pub packet_fresh : (t : Touch) → (fresh_entry t).packets ≡ 1
unfolding fresh_entry
packet_fresh t = refl

pub byte_fresh : (t : Touch) → (fresh_entry t).bytes ≡ t.bytes
unfolding fresh_entry
byte_fresh t = refl

abbrev pub packet_meter : Meter
packet_meter = record {
  reading = λ e. e.packets;
  amount = λ t. 1;
  merge_adds = packet_merge;
  fresh_adds = packet_fresh;
  emit_keeps = packet_emit;
}

abbrev pub byte_meter : Meter
byte_meter = record {
  reading = λ e. e.bytes;
  amount = λ t. t.bytes;
  merge_adds = byte_merge;
  fresh_adds = byte_fresh;
  emit_keeps = byte_emit;
}

-- From an empty table: the packets and the bytes that were accepted are, modulo 2 ^ 64, those of the
-- table and of the final records.
pub capture_accounts :
    (max_flows : ℕ) (vs : List Event)
    → max_flows < 2 ^ 31
    → All IsEvent vs
    → let c = run (start max_flows) vs in
      (accounted packet_meter c % u64_mod ≡ offered packet_meter (start max_flows) vs % u64_mod)
      × (accounted byte_meter c % u64_mod ≡ offered byte_meter (start max_flows) vs % u64_mod)
capture_accounts max_flows vs h hs =
    (capture_lem packet_meter max_flows vs h hs, capture_lem byte_meter max_flows vs h hs)
