-- ===== src/FlowTable/Touching.antt =====
-- `flow_table_touch` of src/flow_table.c as an operation on the map from identities to entries.
pub mod Keeps
use if_flow.Base.{
  ℕ, ◌+◌, ◌*◌, ◌^◌, ◌%◌, ◌≤◌, ◌<◌, Bool, true, false, ◌&&◌, ◌||◌, ◌≡◌, ◌≢◌, ◌↔◌, refl, Option, none,
  some, List, [], ◌∷◌, ◌++◌, arith, ltb, leb, ◌==◌, if◌then◌else◌, length, length-append, All,
  Bool-cases, Option-cases, inl, inr, subst, suc, ◌∙◌, ◌⊎◌,
}
use if_flow.Flow.{FlowEntry, u64_mod}
use if_flow.FlowTable.{
  FlowTable, Touch, is_same_flow, merge, fresh_entry, touch_loop, grow, after_search, append_fresh,
  flow_table_touch,
}
use if_flow.FlowTable.Lookup.{
  FlowId, entry_id, touch_id, id_eq, id_eq_iff, lookup, merge_id, fresh_id, same_id, other_id,
  touch_loop-none, touch_loop-some, lookup-append, lookup_appended,
}
use if_flow.FlowTable.Invariant.{Inv, IsDistinct, EntryInv, merge-EntryInv, fresh_entry-EntryInv}

-- The size that a full array grows to: twice as much, 4096 at first, and never above the maximum.
abbrev pub next_cap : FlowTable → ℕ
next_cap ft =
    let wanted = if ft.cap == 0 then 4096 else ft.cap * 2 in
    if leb wanted ft.max_flows then wanted else ft.max_flows

-- There is a free cell, or the array may grow and the allocator agrees.
abbrev pub has_room : (ℕ → Bool) → FlowTable → Bool
has_room realloc ft =
    ltb (length ft.entries) ft.cap || (ltb ft.cap ft.max_flows && realloc (next_cap ft))

-- What a touch makes of the entry under its identity.
abbrev pub touched : Bool → Touch → Option FlowEntry → Option FlowEntry
touched room t none = if room then some (fresh_entry t) else none
touched room t (some e) = some (merge t e)

pub grown : (ℕ → Bool) → FlowTable → FlowTable
grown realloc ft = if length ft.entries == ft.cap then record ft { cap = next_cap ft } else ft

grow_lem :
    (realloc : ℕ → Bool) (ft : FlowTable)
    → Inv ft
    → grow realloc ft ≡ (if has_room realloc ft then some (grown realloc ft) else none)
unfolding grow grown
grow_lem realloc ft v = ground arith

pub grown_entries : (realloc : ℕ → Bool) (ft : FlowTable) → (grown realloc ft).entries ≡ ft.entries
unfolding grown
grown_entries realloc ft = ground arith

-- A touch merges with the entry that it finds, or appends a new one, or leaves the table alone.
pub touch_cases :
    (realloc : ℕ → Bool) (t : Touch) (ft : FlowTable)
    → Inv ft
    → ((es : List FlowEntry) × (touch_loop t ft.entries ≡ some es)
        × (flow_table_touch realloc t ft ≡ record ft { entries = es }))
      ⊎ ((touch_loop t ft.entries ≡ none)
          × (has_room realloc ft ≡ true)
          × (flow_table_touch realloc t ft
              ≡ record (grown realloc ft) { entries = ft.entries ++ fresh_entry t ∷ [] }))
      ⊎ ((touch_loop t ft.entries ≡ none)
          × (has_room realloc ft ≡ false)
          × (flow_table_touch realloc t ft ≡ ft))
unfolding flow_table_touch
touch_cases realloc t ft v = elim (Option-cases (touch_loop t ft.entries)) [
  | inr (es, found) ↦ inl (es, found, rw (found, flow_table_touch))
  | inl missing ↦ elim (Bool-cases (has_room realloc ft)) [
    | inl room ↦ inr (
        inl
          (missing, room, ground (arith, missing, grow_lem realloc ft v, grown_entries realloc ft)))
    | inr full ↦ inr (inr (missing, full, ground (arith, missing, grow_lem realloc ft v)))
  ]
]

-- Under the touch's identity the table then holds the merged or the new entry, unless that is new
-- and there is no room for it; every other identity keeps its entry.
pub lookup-touch :
    (realloc : ℕ → Bool) (t : Touch) (ft : FlowTable) (i : FlowId)
    → Inv ft
    → lookup i (flow_table_touch realloc t ft).entries ≡ (
        if id_eq (touch_id t) i
        then touched (has_room realloc ft) t (lookup (touch_id t) ft.entries)
        else lookup i ft.entries)
lookup-touch realloc t ft i v = elim (touch_cases realloc t ft v) [
  | inl (es, found, e) ↦
      let (old, was, now) = touch_loop-some t ft.entries i found in rw (e, was) now
  | inr (inl (missing, room, e)) ↦
      rw (e, touch_loop-none t ft.entries missing, room)
        (ground (
          arith,
          touch_loop-none t ft.entries missing,
          id_eq_iff (touch_id t) i,
          fresh_id t,
          lookup-append i ft.entries (fresh_entry t),
          lookup_appended i ft.entries (fresh_entry t),
        ))
  | inr (inr (missing, full, e)) ↦
      rw (e, touch_loop-none t ft.entries missing, full)
        (ground (arith, touch_loop-none t ft.entries missing, id_eq_iff (touch_id t) i))
]

-- The loop replaces one entry in place.
pub touch_loop_step {ℓ} :
    (P : List FlowEntry → Type ℓ) (t : Touch) (e : FlowEntry) (es : List FlowEntry)
    {es' : List FlowEntry}
    → touch_loop t (e ∷ es) ≡ some es'
    → (is_same_flow t e ≡ true → P (merge t e ∷ es))
    → ((rest : List FlowEntry)
        → is_same_flow t e ≡ false
        → touch_loop t es ≡ some rest
        → P (e ∷ rest))
    → P es'
unfolding touch_loop
touch_loop_step P t e es {es'} h hit miss = elim (Bool-cases (is_same_flow t e)) [
  | inl same ↦ subst P (ground arith) (hit same)
  | inr other ↦ elim (Option-cases (touch_loop t es)) [
    | inl gone ↦ absurd (ground arith)
    | inr (rest, found) ↦ subst P (ground arith) (miss rest other found)
  ]
]

pub grown_bounds :
    (realloc : ℕ → Bool) (ft : FlowTable)
    → Inv ft
    → has_room realloc ft ≡ true
    → (length ft.entries < (grown realloc ft).cap)
      × ((grown realloc ft).cap ≤ ft.max_flows)
      × ((grown realloc ft).max_flows ≡ ft.max_flows)
unfolding grown
grown_bounds realloc ft v h = ground arith
