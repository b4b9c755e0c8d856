-- ===== src/EbpfTracker/Recent.antt =====
-- src/ebpf_tracker.c: what is put for a key that the cache does not know is what a lookup finds.
use if_flow.Base.{
  ℕ, ◌+◌, ◌*◌, ◌%◌, ◌≤◌, ◌≡◌, ◌∙◌, refl, ap, Bool, true, false, Option, none, some, List, [], ◌∷◌,
  ◌++◌, Bytes, ℤ, arith, length, All, last, last-append, kept, kept-append, safe_copy, Bool-cases,
  inl, inr, if◌then◌else◌, ◌==◌,
}
use if_flow.Flow.{
  FlowKey, flow_key_equal_iff, flow_key_equal_rev_iff, reversed, u64_mod, if_flow_max_proc_name,
}
use if_flow.EbpfTracker.{
  EbpfTracker, EbpfCacheEntry, ebpf_identity_usable, event_src_datapath, is_live, is_same_source,
  update_loop, grow_cache, fresh_hint, append_hint, after_update, ebpf_cache_put, matches_key,
  ebpf_tracker_lookup,
}
use if_flow.EbpfTracker.Prune.{prune_lem}
use if_flow.EbpfTracker.Lookup.{answers, identity_of, lookup_lem}
use if_flow.EbpfTracker.Update.{update_loop-cons}

-- The time to live of entries of a source.
abbrev pub ttl_of : EbpfTracker → ℕ → ℕ
ttl_of tracker source =
    if source == event_src_datapath then tracker.datapath_ttl_sec else tracker.connect_ttl_sec

module _ (key : FlowKey) (pid : ℤ) (process : Bytes) (source : ℕ) where
  update_loop-unknown :
      (now : ℕ) (es : List EbpfCacheEntry)
      → All (λ e. matches_key key e ≡ false) es
      → update_loop key pid process source now es ≡ none
  update_loop-unknown now [] h = unfold update_loop in refl
  update_loop-unknown now (e ∷ es) h =
      let later = update_loop-unknown now es h.1 in
      let other = other_source e h.0 in
      rw (update_loop-cons key pid process source now e es, other, later) refl
    where
      other_source :
          (e : EbpfCacheEntry) → matches_key key e ≡ false → is_same_source key source e ≡ false
      other_source e h = unfold is_same_source matches_key in ground arith

  -- A live entry at the end of the array is what the lookup finds.
  lookup-last :
      (clock : ℕ → ℕ) (k : FlowKey) (sz : ℕ) (tracker : EbpfTracker) (es : List EbpfCacheEntry)
      (e : EbpfCacheEntry)
      → tracker.entries ≡ es ++ e ∷ []
      → answers clock tracker k (length es) e ≡ true
      → ebpf_tracker_lookup clock k sz tracker ≡ identity_of sz (some e)
  lookup-last clock k sz tracker es e h a =
      let zero_plus : 0 + length es ≡ length es = omega arith in
      let keep = answers clock tracker k in
      let found : last (kept keep 0 (es ++ e ∷ [])) ≡ some e =
        rw (kept-append keep 0 es e, zero_plus, a) (last-append (kept keep 0 es) e) in
      lookup_lem clock tracker k sz
      ∙ ap (λ es'. identity_of sz (last (kept keep 0 es'))) h
      ∙ ap (identity_of sz) found

  grow_cache-granted :
      (realloc : ℕ → Bool) (tracker : EbpfTracker)
      → ((n : ℕ) → realloc n ≡ true)
      → (c : ℕ) × (grow_cache realloc tracker ≡ some (record tracker { cap = c }))
  unfolding grow_cache
  grow_cache-granted realloc tracker granted =
      elim (Bool-cases (length tracker.entries == tracker.cap)) [
        | inr room ↦ (tracker.cap, rw room refl)
        | inl full ↦
            let new_cap = if tracker.cap == 0 then 4096 else (tracker.cap * 2) % u64_mod in
            (new_cap, rw (full, granted new_cap) refl)
      ]

  abbrev new : ℕ → EbpfCacheEntry
  new now = fresh_hint key pid process source now

  -- The new entry is live at a reading within its time to live.
  new-is_live :
      (tracker : EbpfTracker) (now : ℕ) (clock : ℕ → ℕ) (i : ℕ)
      → clock i ≤ now + ttl_of tracker source
      → is_live tracker clock i (new now) ≡ true
  unfolding is_live
  new-is_live tracker now clock i h = ground arith

  -- The array behind the put.
  put_lem :
      (realloc : ℕ → Bool) (clock : ℕ → ℕ) (tracker : EbpfTracker)
      → ebpf_identity_usable pid (some process) ≡ true
      → All (λ e. matches_key key e ≡ false) tracker.entries
      → ((n : ℕ) → realloc n ≡ true)
      → ((i : ℕ) → clock i ≤ clock 0 + ttl_of tracker source)
      → (c : ℕ) × (es : List EbpfCacheEntry) × (ebpf_cache_put realloc clock key pid process source
            tracker
          ≡ record tracker { cap = c; entries = es ++ new (clock 0) ∷ [] })
  unfolding ebpf_cache_put after_update
  put_lem realloc clock tracker u other granted fresh =
      let (c, room) = grow_cache-granted realloc tracker granted in
      let before = tracker.entries in
      let grown : EbpfTracker = record tracker {
        cap = c;
        entries = before ++ new (clock 0) ∷ [];
      } in
      let keep = is_live grown (λ i. clock (i + 1)) in
      let live = new-is_live grown (clock 0) (λ i. clock (i + 1)) (0 + length before) (fresh _) in
      let kept_last : kept keep 0 (before ++ new (clock 0) ∷ [])
          ≡ kept keep 0 before ++ new (clock 0) ∷ [] =
        rw (kept-append keep 0 before (new (clock 0)), live) refl in
      (
        c,
        kept keep 0 before,
        rw (u, update_loop-unknown (clock 0) before other, room, append_hint)
            (prune_lem (λ i. clock (i + 1)) grown
              ∙ ap (λ es. record tracker { cap = c; entries = es }) kept_last),
      )

  matches_key-same : (now : ℕ) → matches_key key (new now) ≡ true
  unfolding matches_key
  matches_key-same now = ground (arith, flow_key_equal_iff key key)

  matches_key-reversed : (now : ℕ) → matches_key (reversed key) (new now) ≡ true
  unfolding matches_key
  matches_key-reversed now = ground (arith, flow_key_equal_rev_iff key (reversed key))

  -- A put of a usable identity for a key that no entry has in either direction, with memory granted,
  -- is what a lookup of the key and of its reverse finds as long as the time to live of its source
  -- has not run out; it may run out neither while the put prunes nor before the lookup ends.
  pub lookup-put :
      (realloc : ℕ → Bool) (clock later : ℕ → ℕ) (sz : ℕ) (tracker : EbpfTracker)
      → ebpf_identity_usable pid (some process) ≡ true
      → All (λ e. matches_key key e ≡ false) tracker.entries
      → ((n : ℕ) → realloc n ≡ true)
      → ((i : ℕ) → clock i ≤ clock 0 + ttl_of tracker source)
      → ((i : ℕ) → later i ≤ clock 0 + ttl_of tracker source)
      → let after = ebpf_cache_put realloc clock key pid process source tracker in
        let identity : Option (ℤ × Bytes) =
          some (pid, safe_copy [] sz (some (safe_copy [] if_flow_max_proc_name (some process)))) in
        (ebpf_tracker_lookup later key sz after ≡ identity)
        × (ebpf_tracker_lookup later (reversed key) sz after ≡ identity)
  lookup-put realloc clock later sz tracker u other granted fresh soon =
      let (c, es, e) = put_lem realloc clock tracker u other granted fresh in
      let after : EbpfTracker = record tracker { cap = c; entries = es ++ new (clock 0) ∷ [] } in
      let live = new-is_live after (clock 0) later (length es) (soon (length es)) in
      rw e (
        lookup-last later key sz after es (new (clock 0)) refl
            (rw live (matches_key-same (clock 0))),
        lookup-last later (reversed key) sz after es (new (clock 0)) refl
            (rw live (matches_key-reversed (clock 0))),
      )
