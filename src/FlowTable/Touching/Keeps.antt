-- ===== src/FlowTable/Touching/Keeps.antt =====
-- `flow_table_touch` of src/flow_table.c keeps the invariant of the table.
use if_flow.Base.{
  ℕ, ◌<◌, Bool, ◌≡◌, refl, none, some, List, [], ◌∷◌, ◌++◌, arith, length, length-append, All, inl,
  inr, suc, ◌∙◌,
}
use if_flow.Flow.{FlowEntry, u64_mod}
use if_flow.FlowTable.{FlowTable, Touch, fresh_entry, touch_loop, flow_table_touch}
use if_flow.FlowTable.Lookup.{
  entry_id, touch_id, id_eq_iff, lookup, merge_id, fresh_id, other_id, touch_loop-none,
  touch_loop-some, lookup_appended, lookup-cons_none,
}
use if_flow.FlowTable.Invariant.{Inv, IsDistinct, EntryInv, merge-EntryInv, fresh_entry-EntryInv}
use if_flow.FlowTable.Touching.{touch_cases, touch_loop_step, grown_bounds}

touch_loop-IsDistinct :
    (t : Touch) (es : List FlowEntry) {es' : List FlowEntry}
    → touch_loop t es ≡ some es'
    → IsDistinct es
    → IsDistinct es'
touch_loop-IsDistinct t [] h d = absurd (unfold touch_loop in cc)
touch_loop-IsDistinct t (e ∷ es) h d =
    touch_loop_step IsDistinct t e es h (λ same. (rw (merge_id t e) d.0, d.1))
      (λ rest other found.
        let (old, was, now) = touch_loop-some t es (entry_id e) found in
        (
          now ∙ ground (arith, other_id t e other, id_eq_iff (touch_id t) (entry_id e)),
          touch_loop-IsDistinct t es found d.1,
        ))

touch_loop-EntryInv :
    (t : Touch) (es : List FlowEntry) {es' : List FlowEntry}
    → touch_loop t es ≡ some es'
    → All EntryInv es
    → All EntryInv es'
touch_loop-EntryInv t [] h v = absurd (unfold touch_loop in cc)
touch_loop-EntryInv t (e ∷ es) h v =
    touch_loop_step (All EntryInv) t e es h (λ _. (merge-EntryInv t e v.0, v.1))
      (λ rest _ found. (v.0, touch_loop-EntryInv t es found v.1))

touch_loop-length :
    (t : Touch) (es : List FlowEntry) {es' : List FlowEntry}
    → touch_loop t es ≡ some es'
    → length es' ≡ length es
touch_loop-length t [] h = absurd (unfold touch_loop in cc)
touch_loop-length t (e ∷ es) h =
    touch_loop_step (λ r. length r ≡ suc (length es)) t e es h (λ _. refl)
      (λ rest _ found. omega (arith, touch_loop-length t es found))

append-IsDistinct :
    (es : List FlowEntry) (x : FlowEntry)
    → lookup (entry_id x) es ≡ none
    → IsDistinct es
    → IsDistinct (es ++ x ∷ [])
append-IsDistinct [] x h d = (h, tt)
append-IsDistinct (e ∷ es) x h d =
    let (other, later) = lookup-cons_none (entry_id x) e es h in
    (
      lookup_appended (entry_id e) es x (
            ground
              (arith, id_eq_iff (entry_id x) (entry_id e), id_eq_iff (entry_id e) (entry_id x)))
          ∙ d.0,
      append-IsDistinct es x later d.1,
    )

append-EntryInv :
    (es : List FlowEntry) (x : FlowEntry)
    → EntryInv x
    → All EntryInv es
    → All EntryInv (es ++ x ∷ [])
append-EntryInv [] x h v = (h, tt)
append-EntryInv (e ∷ es) x h v = (v.0, append-EntryInv es x h v.1)

-- Every touch with a 64-bit size keeps the invariant.
pub touch-Inv :
    (realloc : ℕ → Bool) (t : Touch) (ft : FlowTable)
    → t.bytes < u64_mod
    → Inv ft
    → Inv (flow_table_touch realloc t ft)
touch-Inv realloc t ft h v = elim (touch_cases realloc t ft v) [
  | inl (es, found, e) ↦ rw e (record {
    within_cap = rw (touch_loop-length t ft.entries found) v.within_cap;
    within_max = v.within_max;
    int_max = v.int_max;
    distinct = touch_loop-IsDistinct t ft.entries found v.distinct;
    entries_inv = touch_loop-EntryInv t ft.entries found v.entries_inv;
  })
  | inr (inl (missing, room, e)) ↦
      let b = grown_bounds realloc ft v room in
      rw e (record {
        within_cap = omega (arith, length-append ft.entries (fresh_entry t ∷ []));
        within_max = omega arith;
        int_max = omega (arith, v.int_max);
        distinct =
            append-IsDistinct ft.entries (fresh_entry t)
              (rw (fresh_id t) (touch_loop-none t ft.entries missing)) v.distinct;
        entries_inv =
            append-EntryInv ft.entries (fresh_entry t) (fresh_entry-EntryInv t h) v.entries_inv;
      })
  | inr (inr (missing, full, e)) ↦ rw e v
]
