-- ===== src/EbpfTracker/Put.antt =====
-- `ebpf_cache_put` of src/ebpf_tracker.c keeps the invariant of the cache.
use if_flow.Base.{
  ◌⊎◌, ℕ, ◌+◌, ◌*◌, ◌%◌, ◌^◌, ◌≤◌, ◌<◌, ◌≡◌, ◌∙◌, refl, Bool, true, false, ◌||◌, Option, none, some,
  List, [], ◌∷◌, ◌++◌, Bytes, ℤ, arith, length, length-append, All-append, length-kept,
  Option-cases, Bool-cases, inl, inr, if◌then◌else◌, ◌==◌,
}
use if_flow.Flow.{FlowKey, flow_key_equal_iff, u64_mod}
use if_flow.EbpfTracker.{
  EbpfTracker, EbpfCacheEntry, ebpf_identity_usable, is_live, is_same_source, update_loop,
  grow_cache, fresh_hint, append_hint, after_update, ebpf_cache_prune, ebpf_cache_put,
}
use if_flow.EbpfTracker.Prune.{prune_lem}
use if_flow.EbpfTracker.Invariant.{has_hint, has_hint-cons, IsDistinct, HintInv, Inv, prune-Inv}
use if_flow.EbpfTracker.Update.{update_loop-cons, updated-HintInv, Searched, update_loop-Searched}

has_hint-append :
    (k : FlowKey) (s : ℕ) (es : List EbpfCacheEntry) (e : EbpfCacheEntry)
    → has_hint k s (es ++ e ∷ []) ≡ (has_hint k s es || is_same_source k s e)
has_hint-append k s [] e = unfold has_hint in ground arith
has_hint-append k s (x ∷ es) e =
    ground
      (arith, has_hint-cons k s x es, has_hint-cons k s x (es ++ e ∷ []), has_hint-append k s es e)

is_same_source_comm :
    (a b : EbpfCacheEntry) → is_same_source b.key b.source a ≡ is_same_source a.key a.source b
unfolding is_same_source
is_same_source_comm a b =
    ground (arith, flow_key_equal_iff a.key b.key, flow_key_equal_iff b.key a.key)

fresh_hint-HintInv :
    (key : FlowKey) (pid : ℤ) (process : Bytes) (source now : ℕ)
    → ebpf_identity_usable pid (some process) ≡ true
    → HintInv (fresh_hint key pid process source now)
fresh_hint-HintInv key pid process source now u =
    updated-HintInv key pid process source now
      (record { key = key; pid = pid; process = []; source = source; ts = now }) u

IsDistinct-append :
    (es : List EbpfCacheEntry) (e : EbpfCacheEntry)
    → has_hint e.key e.source es ≡ false
    → IsDistinct es
    → IsDistinct (es ++ e ∷ [])
IsDistinct-append [] e h d = (unfold has_hint in refl, tt)
IsDistinct-append (x ∷ es) e h d = (
  rw (has_hint-append x.key x.source es e, d.0)
      (is_same_source_comm e x ∙ ground (arith, has_hint-cons e.key e.source x es)),
  IsDistinct-append es e (ground (arith, has_hint-cons e.key e.source x es)) d.1,
)

append_hint-Inv :
    (clock : ℕ → ℕ) (realloc : ℕ → Bool) (key : FlowKey) (pid : ℤ) (process : Bytes) (source : ℕ)
    (tracker : EbpfTracker)
    → ebpf_identity_usable pid (some process) ≡ true
    → has_hint key source tracker.entries ≡ false
    → length tracker.entries < 2 ^ 62
    → Inv tracker
    → Inv (append_hint clock key pid process source tracker (grow_cache realloc tracker))
unfolding grow_cache append_hint
append_hint-Inv clock realloc key pid process source tracker u n b v =
    elim (Bool-cases (length tracker.entries == tracker.cap)) [
      | inr room ↦ rw room (
          prune-Inv _ _ (record {
            within_cap = ground (arith, v.within_cap, length-append tracker.entries (new ∷ []));
            distinct = IsDistinct-append tracker.entries new n v.distinct;
            hints = All-append HintInv tracker.entries new v.hints new-HintInv;
          }))
      | inl full ↦
          rw full
            (elim (Bool-cases
              (realloc (if tracker.cap == 0 then 4096 else (tracker.cap * 2) % u64_mod))) [
                | inr no_memory ↦ rw no_memory v
                | inl more ↦ rw more (
                    prune-Inv _ _ (record {
                      within_cap = ground (arith, full, length-append tracker.entries (new ∷ []));
                      distinct = IsDistinct-append tracker.entries new n v.distinct;
                      hints = All-append HintInv tracker.entries new v.hints new-HintInv;
                    }))
              ])
    ]
  where
    new : EbpfCacheEntry
    new = fresh_hint key pid process source (clock 0)

    new-HintInv : HintInv new
    new-HintInv = fresh_hint-HintInv key pid process source (clock 0) u

pub put-Inv :
    (realloc : ℕ → Bool) (clock : ℕ → ℕ) (key : FlowKey) (pid : ℤ) (process : Bytes) (source : ℕ)
    (tracker : EbpfTracker)
    → length tracker.entries < 2 ^ 62
    → Inv tracker
    → Inv (ebpf_cache_put realloc clock key pid process source tracker)
unfolding ebpf_cache_put after_update
put-Inv realloc clock key pid process source tracker b v =
    elim (Bool-cases (ebpf_identity_usable pid (some process))) [
      | inr not_usable ↦ rw not_usable v
      | inl usable ↦ rw usable (
          searched _ usable (
            update_loop-Searched key pid process source (clock 0) tracker.entries usable v.distinct
              v.hints))
    ]
  where
    searched :
        (o : Option (List EbpfCacheEntry))
        → ebpf_identity_usable pid (some process) ≡ true
        → Searched key pid process source (clock 0) tracker.entries o
        → Inv (after_update realloc clock key pid process source tracker o)
    searched none u h = append_hint-Inv clock realloc key pid process source tracker u h b v
    searched (some es) u (size, same, distinct, hints) = record {
      within_cap = omega (arith, size, v.within_cap);
      distinct = distinct;
      hints = hints;
    }

pub prune-length :
    (clock : ℕ → ℕ) (tracker : EbpfTracker)
    → length (ebpf_cache_prune clock tracker).entries ≤ length tracker.entries
prune-length clock tracker =
    rw (prune_lem clock tracker) (length-kept (is_live tracker clock) 0 tracker.entries)

append_hint-length :
    (clock : ℕ → ℕ) (key : FlowKey) (pid : ℤ) (process : Bytes) (source : ℕ)
    (tracker grown : EbpfTracker)
    → length (append_hint clock key pid process source tracker (some grown)).entries
      ≤ length grown.entries + 1
unfolding append_hint
append_hint-length clock key pid process source tracker grown =
    let new = fresh_hint key pid process source (clock 0) in
    omega (
      arith,
      prune-length (λ i. clock (i + 1)) (record grown { entries = grown.entries ++ new ∷ [] }),
      length-append grown.entries (new ∷ []),
    )

-- Where there is no room the table stays, and otherwise the entries do.
pub grow_cache_lem :
    (realloc : ℕ → Bool) (tracker : EbpfTracker)
    → (grow_cache realloc tracker ≡ none)
      ⊎ ((c : ℕ) × (grow_cache realloc tracker ≡ some (record tracker { cap = c })))
unfolding grow_cache
grow_cache_lem realloc tracker = elim (Bool-cases (length tracker.entries == tracker.cap)) [
  | inr room ↦ inr (tracker.cap, rw room refl)
  | inl full ↦
      let new_cap = if tracker.cap == 0 then 4096 else (tracker.cap * 2) % u64_mod in
      elim (Bool-cases (realloc new_cap)) [
        | inl more ↦ inr (new_cap, rw (full, more) refl)
        | inr no_memory ↦ inl (rw (full, no_memory) refl)
      ]
]

update_loop-length :
    (key : FlowKey) (pid : ℤ) (process : Bytes) (source now : ℕ) (es es' : List EbpfCacheEntry)
    → update_loop key pid process source now es ≡ some es'
    → length es' ≡ length es
update_loop-length key pid process source now [] es' h = absurd (unfold update_loop in ground arith)
update_loop-length key pid process source now (e ∷ es) es' h =
    elim (Option-cases (update_loop key pid process source now es)) [
      | inl missed ↦ ground (arith, update_loop-cons key pid process source now e es)
      | inr (rest, hit) ↦ ground (
        arith,
        update_loop-cons key pid process source now e es,
        update_loop-length key pid process source now es rest hit,
      )
    ]

-- A put adds one entry at most.
pub put-length :
    (realloc : ℕ → Bool) (clock : ℕ → ℕ) (key : FlowKey) (pid : ℤ) (process : Bytes) (source : ℕ)
    (tracker : EbpfTracker)
    → length (ebpf_cache_put realloc clock key pid process source tracker).entries
      ≤ length tracker.entries + 1
unfolding ebpf_cache_put after_update
put-length realloc clock key pid process source tracker =
    elim (Bool-cases (ebpf_identity_usable pid (some process))) [
      | inr not_usable ↦ rw not_usable (omega arith)
      | inl usable ↦
          rw usable
            (elim (Option-cases (update_loop key pid process source (clock 0) tracker.entries)) [
              | inr (es, hit) ↦ rw hit (
                  omega (
                    arith,
                    update_loop-length key pid process source (clock 0) tracker.entries es hit,
                  ))
              | inl missed ↦ rw missed (elim (grow_cache_lem realloc tracker) [
                | inl no_room ↦ rw no_room (unfold append_hint in omega arith)
                | inr (c, room) ↦ rw room (
                    append_hint-length clock key pid process source tracker
                      (record tracker { cap = c }))
              ])
            ])
    ]
