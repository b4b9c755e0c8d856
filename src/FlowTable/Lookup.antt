-- ===== src/FlowTable/Lookup.antt =====
-- The table of src/flow_table.c seen as a map from flow identities to entries.
use if_flow.Base.{
  ℕ, Bool, true, false, ◌&&◌, ◌≡◌, ◌≢◌, ◌↔◌, inl, inr, refl, Option, none, some, List, [], ◌∷◌,
  ◌++◌, arith, ◌==◌, if◌then◌else◌, Bool-cases, Option-cases,
}
use if_flow.Flow.{
  FlowKey, FlowDirection, FlowEntry, flow_key_equal, flow_key_equal_iff, direction_eq,
  direction_eq_iff, minute_bucket_for,
}
use if_flow.FlowTable.{Touch, is_same_flow, merge, fresh_entry, touch_loop}

-- What tells two entries apart.
pub record FlowId : Type 0 where
  pub key : FlowKey
  pub direction : FlowDirection
  pub minute_bucket : ℕ

unfoldable pub entry_id : FlowEntry → FlowId
entry_id e = record { key = e.key; direction = e.direction; minute_bucket = e.minute_bucket }

unfoldable pub touch_id : Touch → FlowId
touch_id t = record {
  key = t.key;
  direction = t.direction;
  minute_bucket = minute_bucket_for t.now_sec;
}

unfoldable pub id_eq : FlowId → FlowId → Bool
id_eq a b =
    a.minute_bucket == b.minute_bucket
    && flow_key_equal a.key b.key
    && direction_eq a.direction b.direction

pub id_eq_iff : (a b : FlowId) → (id_eq a b ≡ true) ↔ (a ≡ b)
unfolding id_eq
id_eq_iff a b =
    ground (arith, flow_key_equal_iff a.key b.key, direction_eq_iff a.direction b.direction)

unfoldable pub lookup : FlowId → List FlowEntry → Option FlowEntry
lookup i [] = none
lookup i (e ∷ es) = if id_eq (entry_id e) i then some e else lookup i es

pub lookup-cons :
    (i : FlowId) (e : FlowEntry) (es : List FlowEntry)
    → lookup i (e ∷ es) ≡ (if id_eq (entry_id e) i then some e else lookup i es)
unfolding lookup
lookup-cons i e es = refl

pub is_same_flow_lem :
    (t : Touch) (e : FlowEntry) → is_same_flow t e ≡ id_eq (entry_id e) (touch_id t)
unfolding is_same_flow id_eq entry_id touch_id
is_same_flow_lem t e = refl

-- Merging keeps the identity.
pub merge_id : (t : Touch) (e : FlowEntry) → entry_id (merge t e) ≡ entry_id e
unfolding merge entry_id
merge_id t e = ground arith

pub fresh_id : (t : Touch) → entry_id (fresh_entry t) ≡ touch_id t
unfolding fresh_entry entry_id touch_id
fresh_id t = refl

pub same_id : (t : Touch) (e : FlowEntry) → is_same_flow t e ≡ true → entry_id e ≡ touch_id t
same_id t e h = ground (arith, is_same_flow_lem t e, id_eq_iff (entry_id e) (touch_id t))

pub other_id : (t : Touch) (e : FlowEntry) → is_same_flow t e ≡ false → entry_id e ≢ touch_id t
other_id t e h = ground (arith, is_same_flow_lem t e, id_eq_iff (entry_id e) (touch_id t))

pub touch_loop-none :
    (t : Touch) (es : List FlowEntry) → touch_loop t es ≡ none → lookup (touch_id t) es ≡ none
unfolding touch_loop lookup
touch_loop-none t [] h = refl
touch_loop-none t (e ∷ es) h = ground (arith, is_same_flow_lem t e, touch_loop-none t es)

pub touch_loop-some :
    (t : Touch) (es : List FlowEntry) {es' : List FlowEntry} (i : FlowId)
    → touch_loop t es ≡ some es'
    → (e : FlowEntry) × (lookup (touch_id t) es ≡ some e)
      × (lookup i es' ≡ (if id_eq (touch_id t) i then some (merge t e) else lookup i es))
unfolding touch_loop lookup
touch_loop-some t [] i h = absurd (cc)
touch_loop-some t (e ∷ es) i h = elim (Bool-cases (is_same_flow t e)) [
  | inl same ↦
      (e, ground (arith, is_same_flow_lem t e), ground (arith, same_id t e same, merge_id t e))
  | inr other ↦ elim (Option-cases (touch_loop t es)) [
    | inl gone ↦ absurd (ground (arith, gone))
    | inr (rest, found) ↦
        let (old, was, later) = touch_loop-some t es i found in
        (
          old,
          ground (arith, is_same_flow_lem t e),
          ground (arith, other_id t e other, id_eq_iff (entry_id e) i, id_eq_iff (touch_id t) i),
        )
  ]
]

pub lookup-append :
    (i : FlowId) (es : List FlowEntry) (x : FlowEntry)
    → lookup i es ≡ none
    → lookup i (es ++ x ∷ []) ≡ (if id_eq (entry_id x) i then some x else none)
unfolding lookup
lookup-append i [] x h = refl
lookup-append i (e ∷ es) x h = ground (arith, lookup-append i es x)

pub lookup-append_found :
    (i : FlowId) (es : List FlowEntry) (x e : FlowEntry)
    → lookup i es ≡ some e
    → lookup i (es ++ x ∷ []) ≡ some e
unfolding lookup
lookup-append_found i [] x e h = absurd (cc)
lookup-append_found i (y ∷ es) x e h = ground (arith, lookup-append_found i es x e)

-- An entry of another identity behind the list is not seen.
pub lookup_appended :
    (i : FlowId) (es : List FlowEntry) (x : FlowEntry)
    → id_eq (entry_id x) i ≡ false
    → lookup i (es ++ x ∷ []) ≡ lookup i es
unfolding lookup
lookup_appended i [] x h = ground arith
lookup_appended i (e ∷ es) x h = ground (arith, lookup_appended i es x)

pub lookup-cons_none :
    (i : FlowId) (e : FlowEntry) (es : List FlowEntry)
    → lookup i (e ∷ es) ≡ none
    → (id_eq (entry_id e) i ≡ false) × (lookup i es ≡ none)
unfolding lookup
lookup-cons_none i e es h = ground arith
