-- ===== src/EbpfTracker/Update.antt =====
-- The update in place of `ebpf_cache_put` of src/ebpf_tracker.c keeps keys and sources.
use if_flow.Base.{
  ℕ, suc, ◌≡◌, ◌∙◌, refl, ap, true, false, Option, none, some, List, [], ◌∷◌, Bytes, ℤ, arith,
  length, All, safe_copy, safe_copy_fits, is_empty, Bool-cases, inl, inr, if◌then◌else◌,
}
use if_flow.Flow.{FlowKey, if_flow_max_proc_name}
use if_flow.EbpfTracker.{EbpfCacheEntry, ebpf_identity_usable, is_same_source, update_loop}
use if_flow.EbpfTracker.Invariant.{has_hint, has_hint-cons, IsDistinct, HintInv}

-- The update in place.
module _ (key : FlowKey) (pid : ℤ) (process : Bytes) (source now : ℕ) where
  abbrev pub updated : EbpfCacheEntry → EbpfCacheEntry
  updated e = record {
    key = e.key;
    pid = pid;
    process = safe_copy e.process if_flow_max_proc_name (some process);
    source = source;
    ts = now;
  }

  pub update_loop-cons :
      (e : EbpfCacheEntry) (es : List EbpfCacheEntry)
      → update_loop key pid process source now (e ∷ es) ≡ (
          if is_same_source key source e
          then some (updated e ∷ es)
          else elim (update_loop key pid process source now es) [
            | none ↦ none
            | some es' ↦ some (e ∷ es')
          ])
  unfolding update_loop
  update_loop-cons e es = refl

  pub updated-HintInv :
      (e : EbpfCacheEntry) → ebpf_identity_usable pid (some process) ≡ true → HintInv (updated e)
  unfolding ebpf_identity_usable safe_copy
  updated-HintInv e u = record {
    is_process = ground arith;
    is_named = named process (ground arith);
    fits = safe_copy_fits e.process if_flow_max_proc_name (some process) (omega arith);
  }
    where
      named :
          (p : Bytes)
          → is_empty p ≡ false
          → is_empty (safe_copy e.process if_flow_max_proc_name (some p)) ≡ false
      named [] h = h
      named (c ∷ p) h = refl

  updated-same :
      (k : FlowKey) (s : ℕ) (e : EbpfCacheEntry)
      → is_same_source key source e ≡ true
      → is_same_source k s (updated e) ≡ is_same_source k s e
  unfolding is_same_source
  updated-same k s e h = ground arith

  -- What the search leaves: no entry of the key and source, or an array with the same keys and
  -- sources.
  abbrev pub Searched : List EbpfCacheEntry → Option (List EbpfCacheEntry) → Type 0
  Searched es none = has_hint key source es ≡ false
  Searched es (some es') =
      (length es' ≡ length es)
      × ((k : FlowKey) (s : ℕ) → has_hint k s es' ≡ has_hint k s es)
      × IsDistinct es'
      × All HintInv es'

  search-cons :
      (e : EbpfCacheEntry) (es : List EbpfCacheEntry) (o : Option (List EbpfCacheEntry))
      → is_same_source key source e ≡ false
      → IsDistinct (e ∷ es)
      → HintInv e
      → Searched es o
      → Searched (e ∷ es) (elim o [ none ↦ none | some es' ↦ some (e ∷ es') ])
  search-cons e es none n d v h = ground (arith, has_hint-cons key source e es)
  search-cons e es (some es') n d v (size, same, distinct, hints) = (
    ap suc size,
    λ k s. rw (has_hint-cons k s e es, has_hint-cons k s e es', same k s) refl,
    (same e.key e.source ∙ d.0, distinct),
    (v, hints),
  )

  pub update_loop-Searched :
      (es : List EbpfCacheEntry)
      → ebpf_identity_usable pid (some process) ≡ true
      → IsDistinct es
      → All HintInv es
      → Searched es (update_loop key pid process source now es)
  update_loop-Searched [] u d v = unfold has_hint update_loop in refl
  update_loop-Searched (e ∷ es) u d v = elim (Bool-cases (is_same_source key source e)) [
    | inr other ↦
        rw (update_loop-cons e es, other)
          (search-cons e es _ other d v.0 (update_loop-Searched es u d.1 v.1))
    | inl here ↦
        rw (update_loop-cons e es, here)
          (
            refl,
            (λ k s.
                rw
                  (
                    has_hint-cons k s e es,
                    has_hint-cons k s (updated e) es,
                    updated-same k s e here,
                  )
                  refl),
            (unfold is_same_source in ground (arith, here, d.0), d.1),
            (updated-HintInv e u, v.1),
          )
  ]
