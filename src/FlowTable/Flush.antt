-- ===== src/FlowTable/Flush.antt =====
-- `flow_table_flush_older_than` of src/flow_table.c splits the table by the minute bucket.
use if_flow.Base.{
  ℕ, ◌+◌, ◌≤◌, false, ◌≡◌, ◌≢◌, refl, none, List, [], ◌∷◌, arith, ltb, length, All, Bool-cases, inl,
  inr, if◌then◌else◌, sweep_lem, kept, rejected,
}
use if_flow.Flow.{FlowEntry}
use if_flow.FlowTable.{FlowTable, is_open, flow_table_flush_older_than}
use if_flow.FlowTable.Lookup.{FlowId, entry_id, id_eq, lookup, lookup-cons}
use if_flow.FlowTable.Invariant.{Inv, IsDistinct, EntryInv}

-- Written without the index, which the test ignores.
unfoldable pub open_entries : ℕ → List FlowEntry → List FlowEntry
open_entries m [] = []
open_entries m (e ∷ es) = if ltb e.minute_bucket m then open_entries m es else e ∷ open_entries m es

unfoldable pub closed_entries : ℕ → List FlowEntry → List FlowEntry
closed_entries m [] = []
closed_entries m (e ∷ es) =
    if ltb e.minute_bucket m then e ∷ closed_entries m es else closed_entries m es

pub open_entries-cons :
    (m : ℕ) (e : FlowEntry) (es : List FlowEntry)
    → open_entries m (e ∷ es)
      ≡ (if ltb e.minute_bucket m then open_entries m es else e ∷ open_entries m es)
unfolding open_entries
open_entries-cons m e es = refl

closed_entries-cons :
    (m : ℕ) (e : FlowEntry) (es : List FlowEntry)
    → closed_entries m (e ∷ es)
      ≡ (if ltb e.minute_bucket m then e ∷ closed_entries m es else closed_entries m es)
unfolding closed_entries
closed_entries-cons m e es = refl

kept_lem : (m i : ℕ) (es : List FlowEntry) → kept (is_open m) i es ≡ open_entries m es
unfolding kept open_entries
kept_lem m i [] = refl
kept_lem m i (e ∷ es) = ground (arith, kept_lem m (i + 1) es)

rejected_lem : (m i : ℕ) (es : List FlowEntry) → rejected (is_open m) i es ≡ closed_entries m es
unfolding rejected closed_entries
rejected_lem m i [] = refl
rejected_lem m i (e ∷ es) = ground (arith, rejected_lem m (i + 1) es)

-- The compaction in place keeps the entries of the open minutes and hands over the closed ones, each
-- as it was and both in the order of the table.
pub flush_lem :
    (m : ℕ) (ft : FlowTable)
    → flow_table_flush_older_than m ft
      ≡ (record ft { entries = open_entries m ft.entries }, closed_entries m ft.entries)
unfolding flow_table_flush_older_than
flush_lem m ft =
    rw (sweep_lem (is_open m) ft.entries, kept_lem m 0 ft.entries, rejected_lem m 0 ft.entries)

-- An entry of another minute than `i` does not have the identity `i`.
bucket_of :
    (m : ℕ) (i : FlowId) (e : FlowEntry)
    → ltb i.minute_bucket m ≢ ltb e.minute_bucket m
    → id_eq (entry_id e) i ≡ false
unfolding id_eq entry_id
bucket_of m i e h = ground arith

lookup-open :
    (m : ℕ) (i : FlowId) (es : List FlowEntry)
    → lookup i (open_entries m es) ≡ (if ltb i.minute_bucket m then none else lookup i es)
lookup-open m i [] = unfold open_entries lookup in ground arith
lookup-open m i (e ∷ es) = ground (
  arith,
  lookup-cons i e es,
  lookup-cons i e (open_entries m es),
  open_entries-cons m e es,
  bucket_of m i e,
  lookup-open m i es,
)

lookup-closed :
    (m : ℕ) (i : FlowId) (es : List FlowEntry)
    → lookup i (closed_entries m es) ≡ (if ltb i.minute_bucket m then lookup i es else none)
lookup-closed m i [] = unfold closed_entries lookup in ground arith
lookup-closed m i (e ∷ es) = ground (
  arith,
  lookup-cons i e es,
  lookup-cons i e (closed_entries m es),
  closed_entries-cons m e es,
  bucket_of m i e,
  lookup-closed m i es,
)

-- A flow of a closed minute is handed over and gone; any other flow stays and is not handed over.
pub lookup-flush :
    (m : ℕ) (i : FlowId) (ft : FlowTable)
    → (lookup i (flow_table_flush_older_than m ft).0.entries
        ≡ (if ltb i.minute_bucket m then none else lookup i ft.entries))
      × (lookup i (flow_table_flush_older_than m ft).1
          ≡ (if ltb i.minute_bucket m then lookup i ft.entries else none))
lookup-flush m i ft = rw flush_lem (lookup-open m i ft.entries, lookup-closed m i ft.entries)

open_entries-length : (m : ℕ) (es : List FlowEntry) → length (open_entries m es) ≤ length es
open_entries-length m [] = unfold open_entries in omega arith
open_entries-length m (e ∷ es) = ground (arith, open_entries-cons m e es, open_entries-length m es)

open_entries-IsDistinct :
    (m : ℕ) (es : List FlowEntry) → IsDistinct es → IsDistinct (open_entries m es)
open_entries-IsDistinct m [] d = unfold open_entries in tt
open_entries-IsDistinct m (e ∷ es) d = elim (Bool-cases (ltb e.minute_bucket m)) [
  | inl h ↦ rw (open_entries-cons m e es, h) (open_entries-IsDistinct m es d.1)
  | inr h ↦
      rw (open_entries-cons m e es, h)
        (ground (arith, lookup-open m (entry_id e) es, d.0), open_entries-IsDistinct m es d.1)
]

open_entries-EntryInv :
    (m : ℕ) (es : List FlowEntry) → All EntryInv es → All EntryInv (open_entries m es)
open_entries-EntryInv m [] v = unfold open_entries in tt
open_entries-EntryInv m (e ∷ es) v = elim (Bool-cases (ltb e.minute_bucket m)) [
  | inl h ↦ rw (open_entries-cons m e es, h) (open_entries-EntryInv m es v.1)
  | inr h ↦ rw (open_entries-cons m e es, h) (v.0, open_entries-EntryInv m es v.1)
]

pub flush-Inv : (m : ℕ) (ft : FlowTable) → Inv ft → Inv (flow_table_flush_older_than m ft).0
flush-Inv m ft v = rw flush_lem (record {
  within_cap = omega (arith, open_entries-length m ft.entries, v.within_cap);
  within_max = v.within_max;
  int_max = v.int_max;
  distinct = open_entries-IsDistinct m ft.entries v.distinct;
  entries_inv = open_entries-EntryInv m ft.entries v.entries_inv;
})
