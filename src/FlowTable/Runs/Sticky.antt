-- ===== src/FlowTable/Runs/Sticky.antt =====
-- What src/flow_table.c has learnt of a flow stays with it until its minute is flushed.
use if_flow.Base.{
  ℕ, ◌≡◌, ◌⊎◌, inl, inr, refl, ◌∙◌, true, false, Option, some, List, [], ◌∷◌, Bytes, arith, All,
  is_empty, is_neg, ltb, Bool-cases,
}
use if_flow.Flow.{FlowEntry, if_flow_max_name, if_flow_max_class}
use if_flow.FlowTable.{Touch, merge, learn_identity, learn_names, fill_text, is_ready}
use if_flow.FlowTable.Lookup.{FlowId, touch_id, lookup, id_eq, id_eq_iff}
use if_flow.FlowTable.Invariant.{Inv}
use if_flow.FlowTable.Touching.{lookup-touch}
use if_flow.FlowTable.Emission.{emit_ready_lem, after_emit}
use if_flow.FlowTable.Flush.{lookup-flush}
use if_flow.FlowTable.Runs.{Event, touches, emits, flushes, Capture, step, run, IsEvent, step-Inv}

-- A text that is set stays.
abbrev pub Stays : Bytes → Bytes → Type 0
Stays x y = (is_empty x ≡ true) ⊎ (y ≡ x)

abbrev pub SameProcess : FlowEntry → FlowEntry → Type 0
SameProcess e e' =
    (e'.pid ≡ e.pid)
    × (e'.process ≡ e.process)
    × (e'.cmdline ≡ e.cmdline)
    × (e'.workload ≡ e.workload)
    × (e'.attr_source ≡ e.attr_source)

-- From `e` to `e'` the flow keeps its start, a process that is known, and names that are known.
pub record Keeps (e e' : FlowEntry) : Type 0 where
  pub start : e'.first_seen ≡ e.first_seen
  pub process : (is_neg e.pid ≡ true) ⊎ SameProcess e e'
  pub sni : Stays e.sni e'.sni
  pub host : Stays e.host e'.host
  pub class : Stays e.class_tag e'.class_tag

Keeps-refl : (e : FlowEntry) → Keeps e e
Keeps-refl e = record {
  start = refl;
  process = inr (refl, refl, refl, refl, refl);
  sni = inr refl;
  host = inr refl;
  class = inr refl;
}

Stays-trans : (x y z : Bytes) → Stays x y → Stays y z → Stays x z
Stays-trans x y z (inl a) b = inl a
Stays-trans x y z (inr a) (inl b) = inl (rw (← a) b)
Stays-trans x y z (inr a) (inr b) = inr (b ∙ a)

fill_text-Stays : (x : Bytes) (sz : ℕ) (src : Option Bytes) → Stays x (fill_text x sz src)
unfolding fill_text
fill_text-Stays x sz src = elim (Bool-cases (is_empty x)) [
  | inl a ↦ inl a
  | inr a ↦ inr (rw a refl)
]

merge-Keeps : (t : Touch) (e : FlowEntry) → Keeps e (merge t e)
unfolding merge learn_identity learn_names
merge-Keeps t e = record {
  start = ground arith;
  process = elim (Bool-cases (is_neg e.pid)) [
    | inl a ↦ inl a
    | inr a ↦ inr (
      ground (arith, a),
      ground (arith, a),
      ground (arith, a),
      ground (arith, a),
      ground (arith, a),
    )
  ];
  sni = ground (arith, fill_text-Stays e.sni if_flow_max_name t.sni);
  host = ground (arith, fill_text-Stays e.host if_flow_max_name t.host);
  class = ground (arith, fill_text-Stays e.class_tag if_flow_max_class t.class_tag);
}

after_emit-Keeps : (m now : ℕ) (e : FlowEntry) → Keeps e (after_emit m now e)
unfolding after_emit
after_emit-Keeps m now e = elim (Bool-cases (is_ready m now e)) [
  | inl a ↦ rw a (record {
    start = refl;
    process = inr (refl, refl, refl, refl, refl);
    sni = inr refl;
    host = inr refl;
    class = inr refl;
  })
  | inr a ↦ rw a (Keeps-refl e)
]

Same-trans : (a b c : FlowEntry) → SameProcess a b → SameProcess b c → SameProcess a c
Same-trans a b c (p, q, r, s, t) (p', q', r', s', t') = (p' ∙ p, q' ∙ q, r' ∙ r, s' ∙ s, t' ∙ t)

process_trans :
    (a b c : FlowEntry)
    → (is_neg a.pid ≡ true) ⊎ SameProcess a b
    → (is_neg b.pid ≡ true) ⊎ SameProcess b c
    → (is_neg a.pid ≡ true) ⊎ SameProcess a c
process_trans a b c (inl h) k = inl h
process_trans a b c (inr h) (inl k) = inl (rw (← h.0) k)
process_trans a b c (inr h) (inr k) = inr (Same-trans a b c h k)

Keeps-trans : (a b c : FlowEntry) → Keeps a b → Keeps b c → Keeps a c
Keeps-trans a b c h k = record {
  start = k.start ∙ h.start;
  process = process_trans a b c h.process k.process;
  sni = Stays-trans a.sni b.sni c.sni h.sni k.sni;
  host = Stays-trans a.host b.host c.host h.host k.host;
  class = Stays-trans a.class_tag b.class_tag c.class_tag h.class k.class;
}

-- A final flush that leaves the minute of the flow open.
abbrev pub LeavesOpen : FlowId → Event → Type 0
LeavesOpen i (flushes m) = ltb i.minute_bucket m ≡ false
LeavesOpen i _ = Unit {0}

-- The entry that a capture has for the flow keeps what `e` knows.
abbrev pub Kept : FlowId → FlowEntry → Capture → Type 0
Kept i e c = (e' : FlowEntry) × (lookup i c.table.entries ≡ some e') × Keeps e e'

step-Kept :
    (i : FlowId) (e : FlowEntry) (c : Capture) (v : Event)
    → LeavesOpen i v
    → Inv c.table
    → lookup i c.table.entries ≡ some e
    → Kept i e (step c v)
unfolding step
step-Kept i e c (touches realloc t) o v h = elim (Bool-cases (id_eq (touch_id t) i)) [
  | inl same ↦
      let e_id : touch_id t ≡ i = (id_eq_iff (touch_id t) i).0 same in
      let found : lookup (touch_id t) c.table.entries ≡ some e = rw e_id h in
      (merge t e, rw (lookup-touch realloc t c.table i v, same, found) refl, merge-Keeps t e)
  | inr other ↦ (e, rw (lookup-touch realloc t c.table i v, other) h, Keeps-refl e)
]
step-Kept i e c (emits m now) o v h =
    (after_emit m now e, rw (emit_ready_lem m now i c.table, h) refl, after_emit-Keeps m now e)
step-Kept i e c (flushes m) o v h = (e, rw (lookup-flush m i c.table).0 (rw o h), Keeps-refl e)

-- Whatever else a capture does, what the table has learnt of a flow stays with it until its minute is
-- flushed: its entry keeps its start, a process that is known, and a server name, host name and class
-- that are set.
pub run-Kept :
    (i : FlowId) (e : FlowEntry) (c : Capture) (vs : List Event)
    → All IsEvent vs
    → All (LeavesOpen i) vs
    → Inv c.table
    → lookup i c.table.entries ≡ some e
    → Kept i e (run c vs)
unfolding run
run-Kept i e c [] s o v h = (e, h, Keeps-refl e)
run-Kept i e c (x ∷ vs) s o v h =
    let (e', found, k) = step-Kept i e c x o.0 v h in
    let (e'', later, l) = run-Kept i e' (step c x) vs s.1 o.1 (step-Inv c x s.0 v) found in
    (e'', later, Keeps-trans e e' e'' k l)
