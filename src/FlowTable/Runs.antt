-- ===== src/FlowTable/Runs.antt =====
-- The table of src/flow_table.c over a whole capture: any sequence of touches, streaming rounds and
-- final flushes, as src/main.c makes them.
pub mod Account
pub mod Sticky
pub mod Closed
use if_flow.Base.{
  ℕ, ◌+◌, ◌≤◌, ◌<◌, ◌^◌, Bool, true, false, ◌||◌, ◌≡◌, refl, Option, none, some, List, [], ◌∷◌,
  ◌++◌, arith, if◌then◌else◌, All,
}
use if_flow.Flow.{FlowEntry, u64_mod}
use if_flow.FlowTable.{
  FlowTable, Touch, flow_table_init, flow_table_touch, flow_table_emit_ready,
  flow_table_flush_older_than,
}
use if_flow.FlowTable.Lookup.{touch_id, lookup}
use if_flow.FlowTable.Invariant.{Inv}
use if_flow.FlowTable.Touching.{has_room}
use if_flow.FlowTable.Touching.Keeps.{touch-Inv}
use if_flow.FlowTable.Emission.{emit_ready-Inv}
use if_flow.FlowTable.Flush.{flush-Inv}

-- One call, with what the allocator would grant during it.
pub data Event : Type 0 where
  touches : (ℕ → Bool) → Touch → Event
  emits : ℕ → ℕ → Event
  flushes : ℕ → Event

-- The table and what the callback has been given, oldest first.
pub record Capture : Type 0 where
  pub table : FlowTable
  pub updates : List FlowEntry
  pub finals : List FlowEntry

unfoldable pub step : Capture → Event → Capture
step c (touches realloc t) = record c { table = flow_table_touch realloc t c.table }
step c (emits m now) =
    let (ft, sent) = flow_table_emit_ready m now c.table in
    record c { table = ft; updates = c.updates ++ sent }
step c (flushes m) =
    let (ft, sent) = flow_table_flush_older_than m c.table in
    record c { table = ft; finals = c.finals ++ sent }

unfoldable pub run : Capture → List Event → Capture
run c [] = c
run c (v ∷ vs) = run (step c v) vs

abbrev pub start : ℕ → Capture
start max_flows = record { table = flow_table_init max_flows; updates = []; finals = [] }

-- The size of a packet is a uint64_t.
abbrev pub IsEvent : Event → Type 0
IsEvent (touches realloc t) = t.bytes < u64_mod
IsEvent _ = Unit {0}

pub init-Inv : (max_flows : ℕ) → max_flows < 2 ^ 31 → Inv (flow_table_init max_flows)
unfolding flow_table_init
init-Inv max_flows h = record {
  within_cap = omega arith;
  within_max = omega arith;
  int_max = h;
  distinct = tt;
  entries_inv = tt;
}

pub step-Inv : (c : Capture) (v : Event) → IsEvent v → Inv c.table → Inv (step c v).table
unfolding step
step-Inv c (touches realloc t) h v = touch-Inv realloc t c.table h v
step-Inv c (emits m now) h v = emit_ready-Inv m now c.table v
step-Inv c (flushes m) h v = flush-Inv m c.table v

pub run-Inv : (c : Capture) (vs : List Event) → All IsEvent vs → Inv c.table → Inv (run c vs).table
unfolding run
run-Inv c [] h v = v
run-Inv c (e ∷ vs) h v = run-Inv (step c e) vs h.1 (step-Inv c e h.0 v)

-- After any capture the array is within its bounds, no identity has two entries, and every text and
-- counter is in range.
pub run-init-Inv :
    (max_flows : ℕ) (vs : List Event)
    → max_flows < 2 ^ 31
    → All IsEvent vs
    → Inv (run (start max_flows) vs).table
run-init-Inv max_flows vs h hs = run-Inv (start max_flows) vs hs (init-Inv max_flows h)
