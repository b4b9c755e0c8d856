-- ===== src/FlowTable/Emission.antt =====
-- `flow_table_emit_ready` of src/flow_table.c: which entries are streamed, and what it leaves.
use if_flow.Base.{
  ℕ, ◌+◌, ◌≤◌, ◌<◌, true, false, ◌≡◌, refl, ◌⊎◌, inl, inr, Option, none, some, List, [], ◌∷◌, arith,
  length, All, Bool-cases, if◌then◌else◌, ap, ◌∙◌, suc, subst,
}
use mathlib.Core.Option
use if_flow.Flow.{FlowEntry}
use if_flow.FlowTable.{FlowTable, is_ready, emit_loop, flow_table_emit_ready}
use if_flow.FlowTable.Lookup.{FlowId, entry_id, id_eq, id_eq_iff, lookup, lookup-cons}
use if_flow.FlowTable.Invariant.{Inv, IsDistinct, EntryInv}

-- What a round does to one entry.
unfoldable pub after_emit : ℕ → ℕ → FlowEntry → FlowEntry
after_emit min_interval_sec now_sec e =
    if is_ready min_interval_sec now_sec e
    then record e { dirty = false; last_emit = now_sec }
    else e

after_emit_id : (m now : ℕ) (e : FlowEntry) → entry_id (after_emit m now e) ≡ entry_id e
unfolding after_emit entry_id
after_emit_id m now e = ground arith

pub emit_loop-cons :
    (m now : ℕ) (e : FlowEntry) (es : List FlowEntry)
    → (emit_loop m now (e ∷ es)).0 ≡ after_emit m now e ∷ (emit_loop m now es).0
unfolding emit_loop after_emit
emit_loop-cons m now e es = ground arith

emit_loop-sent :
    (m now : ℕ) (e : FlowEntry) (es : List FlowEntry)
    → (emit_loop m now (e ∷ es)).1
      ≡ (if is_ready m now e then e ∷ (emit_loop m now es).1 else (emit_loop m now es).1)
unfolding emit_loop
emit_loop-sent m now e es = ground arith

lookup-emit_loop :
    (m now : ℕ) (i : FlowId) (es : List FlowEntry)
    → lookup i (emit_loop m now es).0 ≡ Option.map (after_emit m now) (lookup i es)
lookup-emit_loop m now i [] = unfold emit_loop lookup in refl
lookup-emit_loop m now i (e ∷ es) = rw (emit_loop-cons m now e es) (
    ground (
      arith,
      after_emit_id m now e,
      lookup-cons i (after_emit m now e) (emit_loop m now es).0,
      lookup-cons i e es,
      lookup-emit_loop m now i es,
    ))

pub emit_ready_lem :
    (m now : ℕ) (i : FlowId) (ft : FlowTable)
    → lookup i (flow_table_emit_ready m now ft).0.entries
      ≡ Option.map (after_emit m now) (lookup i ft.entries)
unfolding flow_table_emit_ready
emit_ready_lem m now i ft = lookup-emit_loop m now i ft.entries

-- A sent entry had changed, and was sent last at least the interval ago, or never.
abbrev pub IsDue : ℕ → ℕ → FlowEntry → Type 0
IsDue m now e = (e.dirty ≡ true) × ((e.last_emit ≡ 0) ⊎ (e.last_emit + m ≤ now))

-- A changed entry that stays behind was sent less than the interval ago.
abbrev pub IsHeld : ℕ → ℕ → FlowEntry → Type 0
IsHeld m now e = e.dirty ≡ true → (0 < e.last_emit) × (now < e.last_emit + m)

is_ready-IsDue : (m now : ℕ) (e : FlowEntry) → is_ready m now e ≡ true → IsDue m now e
unfolding is_ready
is_ready-IsDue m now e h = ground arith

after_emit-IsHeld : (m now : ℕ) (e : FlowEntry) → IsHeld m now (after_emit m now e)
unfolding after_emit is_ready
after_emit-IsHeld m now e = ground arith

emit_loop-IsDue : (m now : ℕ) (es : List FlowEntry) → All (IsDue m now) (emit_loop m now es).1
emit_loop-IsDue m now [] = unfold emit_loop in tt
emit_loop-IsDue m now (e ∷ es) = elim (Bool-cases (is_ready m now e)) [
  | inl h ↦ rw (emit_loop-sent m now e es, h) (is_ready-IsDue m now e h, emit_loop-IsDue m now es)
  | inr h ↦ rw (emit_loop-sent m now e es, h) (emit_loop-IsDue m now es)
]

emit_loop-IsHeld : (m now : ℕ) (es : List FlowEntry) → All (IsHeld m now) (emit_loop m now es).0
emit_loop-IsHeld m now [] = unfold emit_loop in tt
emit_loop-IsHeld m now (e ∷ es) =
    rw (emit_loop-cons m now e es) (after_emit-IsHeld m now e, emit_loop-IsHeld m now es)

-- What becomes of the entry of a flow: `after` is what the table has of it afterwards, and `sent` what
-- is handed over.
abbrev pub IsStreamed : ℕ → ℕ → Option FlowEntry → Option FlowEntry → Option FlowEntry → Type 0
IsStreamed m now none after sent = (after ≡ none) × (sent ≡ none)
IsStreamed m now (some e) after sent =
    (IsDue m now e × (after ≡ some (record e { dirty = false; last_emit = now })) × (sent ≡ some e))
    ⊎ ((IsDue m now e → ⊥) × (after ≡ some e) × (sent ≡ none))

is_ready-not_IsDue : (m now : ℕ) (e : FlowEntry) → is_ready m now e ≡ false → IsDue m now e → ⊥
unfolding is_ready
is_ready-not_IsDue m now e h d = absurd (ground (arith, h, d))

lookup-sent_none :
    (m now : ℕ) (i : FlowId) (es : List FlowEntry)
    → lookup i es ≡ none
    → lookup i (emit_loop m now es).1 ≡ none
lookup-sent_none m now i [] h = unfold emit_loop lookup in refl
lookup-sent_none m now i (e ∷ es) h = rw (emit_loop-sent m now e es) (
    ground (
      arith,
      lookup-cons i e es,
      lookup-cons i e (emit_loop m now es).1,
      lookup-sent_none m now i es,
    ))

lookup-after_cons :
    (m now : ℕ) (i : FlowId) (e : FlowEntry) (es : List FlowEntry)
    → lookup i (emit_loop m now (e ∷ es)).0 ≡ (
        if id_eq (entry_id e) i then some (after_emit m now e) else lookup i (emit_loop m now es).0)
lookup-after_cons m now i e es =
    ap (lookup i) (emit_loop-cons m now e es)
    ∙ lookup-cons i (after_emit m now e) (emit_loop m now es).0
    ∙ ap (λ k. if id_eq k i then some (after_emit m now e) else lookup i (emit_loop m now es).0)
        (after_emit_id m now e)

lookup-sent_other :
    (m now : ℕ) (i : FlowId) (e : FlowEntry) (es : List FlowEntry)
    → id_eq (entry_id e) i ≡ false
    → lookup i (emit_loop m now (e ∷ es)).1 ≡ lookup i (emit_loop m now es).1
lookup-sent_other m now i e es h =
    rw (emit_loop-sent m now e es) (ground (arith, lookup-cons i e (emit_loop m now es).1, h))

IsStreamed-here :
    (m now : ℕ) (i : FlowId) (e : FlowEntry) (es : List FlowEntry)
    → id_eq (entry_id e) i ≡ true
    → lookup i es ≡ none
    → IsStreamed m now (some e) (some (after_emit m now e)) (lookup i (emit_loop m now (e ∷ es)).1)
IsStreamed-here m now i e es same h = elim (Bool-cases (is_ready m now e)) [
  | inl ready ↦ inl (
    is_ready-IsDue m now e ready,
    unfold after_emit in simp ready,
    rw (emit_loop-sent m now e es, ready, lookup-cons i e (emit_loop m now es).1, same) refl,
  )
  | inr held ↦ inr (
    is_ready-not_IsDue m now e held,
    unfold after_emit in simp held,
    rw (emit_loop-sent m now e es, held) (lookup-sent_none m now i es h),
  )
]

IsStreamed-loop :
    (m now : ℕ) (i : FlowId) (es : List FlowEntry)
    → IsDistinct es
    → IsStreamed m now
        (lookup i es)
        (lookup i (emit_loop m now es).0)
        (lookup i (emit_loop m now es).1)
IsStreamed-loop m now i [] d = unfold emit_loop lookup in (refl, refl)
IsStreamed-loop m now i (e ∷ es) d = elim (Bool-cases (id_eq (entry_id e) i)) [
  | inl here ↦
      let missing : lookup i es ≡ none =
        subst (λ k. lookup k es ≡ none) ((id_eq_iff (entry_id e) i).0 here) d.0 in
      rw (lookup-cons i e es, lookup-after_cons m now i e es, here)
        (IsStreamed-here m now i e es here missing)
  | inr other ↦
      rw
        (
          lookup-sent_other m now i e es other,
          lookup-cons i e es,
          lookup-after_cons m now i e es,
          other,
        )
        (IsStreamed-loop m now i es d.1)
]

-- In a table without two entries of one identity: a flow stays in the table, and it is handed over,
-- as it was, just where it had changed and was sent last at least the interval ago, or never; its
-- entry is then clean and stamped with the time, and any other entry is as it was.
pub lookup-emit_ready :
    (m now : ℕ) (i : FlowId) (ft : FlowTable)
    → IsDistinct ft.entries
    → IsStreamed m now
        (lookup i ft.entries)
        (lookup i (flow_table_emit_ready m now ft).0.entries)
        (lookup i (flow_table_emit_ready m now ft).1)
unfolding flow_table_emit_ready
lookup-emit_ready m now i ft d = IsStreamed-loop m now i ft.entries d

-- The rate limit, both ways: what is sent is due, and what stays behind changed is not.
pub emit_ready_rate :
    (m now : ℕ) (ft : FlowTable)
    → All (IsDue m now) (flow_table_emit_ready m now ft).1
      × All (IsHeld m now) (flow_table_emit_ready m now ft).0.entries
unfolding flow_table_emit_ready
emit_ready_rate m now ft = (emit_loop-IsDue m now ft.entries, emit_loop-IsHeld m now ft.entries)

not_ready : (m now : ℕ) (e : FlowEntry) → is_ready m now (after_emit m now e) ≡ false
unfolding after_emit is_ready
not_ready m now e = ground arith

emit_loop_twice :
    (m now : ℕ) (es : List FlowEntry) → (emit_loop m now (emit_loop m now es).0).1 ≡ []
emit_loop_twice m now [] = unfold emit_loop in refl
emit_loop_twice m now (e ∷ es) =
    rw (emit_loop-cons m now e es, emit_loop-sent, not_ready m now e) (emit_loop_twice m now es)

-- A second round at the same time sends nothing.
pub emit_ready_twice :
    (m now : ℕ) (ft : FlowTable)
    → (flow_table_emit_ready m now (flow_table_emit_ready m now ft).0).1 ≡ []
unfolding flow_table_emit_ready
emit_ready_twice m now ft = emit_loop_twice m now ft.entries

emit_loop-length : (m now : ℕ) (es : List FlowEntry) → length (emit_loop m now es).0 ≡ length es
emit_loop-length m now [] = unfold emit_loop in refl
emit_loop-length m now (e ∷ es) =
    rw (emit_loop-cons m now e es) (ap suc (emit_loop-length m now es))

emit_loop-IsDistinct :
    (m now : ℕ) (es : List FlowEntry) → IsDistinct es → IsDistinct (emit_loop m now es).0
emit_loop-IsDistinct m now [] d = unfold emit_loop in tt
emit_loop-IsDistinct m now (e ∷ es) d = rw (emit_loop-cons m now e es) (
  rw (after_emit_id m now e)
      (lookup-emit_loop m now (entry_id e) es ∙ ap (Option.map (after_emit m now)) d.0),
  emit_loop-IsDistinct m now es d.1,
)

after_emit-EntryInv : (m now : ℕ) (e : FlowEntry) → EntryInv e → EntryInv (after_emit m now e)
unfolding after_emit
after_emit-EntryInv m now e v = elim (Bool-cases (is_ready m now e)) [
  | inl h ↦ rw h (omega arith)
  | inr h ↦ rw h v
]

emit_loop-EntryInv :
    (m now : ℕ) (es : List FlowEntry) → All EntryInv es → All EntryInv (emit_loop m now es).0
emit_loop-EntryInv m now [] v = unfold emit_loop in tt
emit_loop-EntryInv m now (e ∷ es) v =
    rw (emit_loop-cons m now e es)
      (after_emit-EntryInv m now e v.0, emit_loop-EntryInv m now es v.1)

pub emit_ready-Inv : (m now : ℕ) (ft : FlowTable) → Inv ft → Inv (flow_table_emit_ready m now ft).0
unfolding flow_table_emit_ready
emit_ready-Inv m now ft v = record {
  within_cap = rw (emit_loop-length m now ft.entries) v.within_cap;
  within_max = v.within_max;
  int_max = v.int_max;
  distinct = emit_loop-IsDistinct m now ft.entries v.distinct;
  entries_inv = emit_loop-EntryInv m now ft.entries v.entries_inv;
}
