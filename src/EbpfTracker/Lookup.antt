-- ===== src/EbpfTracker/Lookup.antt =====
-- `ebpf_tracker_lookup` of src/ebpf_tracker.c finds the last live entry for a key or its reverse.
use if_flow.Base.{
  ℕ, zero, suc, ◌+◌, ◌≤◌, ◌≡◌, ◌∙◌, refl, ap, Bool, ◌&&◌, Option, none, some, List, [], ◌∷◌, Bytes,
  ℤ, arith, length, get_elem?, take, take-suc, take-length, length-take_le, last, last-append, kept,
  kept-append, safe_copy, Bool-cases, inl, inr, if◌then◌else◌,
}
use if_flow.Flow.{FlowKey}
use if_flow.EbpfTracker.{
  EbpfTracker, EbpfCacheEntry, is_live, matches_key, lookup_loop, ebpf_tracker_lookup,
}

-- A live entry for the key or its reverse.
abbrev pub answers : (ℕ → ℕ) → EbpfTracker → FlowKey → ℕ → EbpfCacheEntry → Bool
answers clock tracker key i e = is_live tracker clock i e && matches_key key e

abbrev pub identity_of : ℕ → Option EbpfCacheEntry → Option (ℤ × Bytes)
identity_of process_sz none = none
identity_of process_sz (some e) = some (e.pid, safe_copy [] process_sz (some e.process))

module _ (clock : ℕ → ℕ) (tracker : EbpfTracker) (key : FlowKey) (process_sz : ℕ) where
  abbrev found : List EbpfCacheEntry → Option (ℤ × Bytes)
  found es = identity_of process_sz (last (kept (answers clock tracker key) 0 es))

  get_elem?-some :
      (n : ℕ) (es : List EbpfCacheEntry)
      → suc n ≤ length es
      → (e : EbpfCacheEntry) × (get_elem? es n ≡ some e)
  get_elem?-some n [] h = absurd (omega arith)
  get_elem?-some zero (e ∷ es) h = (e, refl)
  get_elem?-some (suc n) (e ∷ es) h = get_elem?-some n es (omega arith)

  found-step :
      (n : ℕ) (e : EbpfCacheEntry)
      → suc n ≤ length tracker.entries
      → get_elem? tracker.entries n ≡ some e
      → found (take (suc n) tracker.entries) ≡ (
          if answers clock tracker key n e
          then identity_of process_sz (some e)
          else found (take n tracker.entries))
  found-step n e h g =
      let before = take n tracker.entries in
      let same : 0 + length before ≡ n = omega (arith, length-take_le n tracker.entries) in
      rw (take-suc n tracker.entries e g, kept-append (answers clock tracker key) 0 before e, same)
        (elim (Bool-cases (answers clock tracker key n e)) [
          | inl b ↦ rw (b, last-append (kept (answers clock tracker key) 0 before) e) refl
          | inr b ↦ rw b refl
        ])

  lookup_loop-suc :
      (n : ℕ) (e : EbpfCacheEntry)
      → get_elem? tracker.entries n ≡ some e
      → lookup_loop clock tracker key process_sz (suc n) ≡ (
          if answers clock tracker key n e
          then identity_of process_sz (some e)
          else lookup_loop clock tracker key process_sz n)
  unfolding lookup_loop is_live
  lookup_loop-suc n e g = rw (g, lookup_loop) (ground arith)

  lookup_loop_lem :
      (n : ℕ)
      → n ≤ length tracker.entries
      → lookup_loop clock tracker key process_sz n ≡ found (take n tracker.entries)
  lookup_loop_lem zero h = unfold lookup_loop kept last in refl
  lookup_loop_lem (suc n) h =
      let (e, g) = get_elem?-some n tracker.entries h in
      rw (lookup_loop-suc n e g, lookup_loop_lem n (omega arith), found-step n e h g) refl

  -- The lookup gives the identity in the last of the entries that are live when the loop looks at
  -- them and have the key or its reverse, and none just where there is no such entry.
  pub lookup_lem :
      ebpf_tracker_lookup clock key process_sz tracker
      ≡ identity_of process_sz (last (kept (answers clock tracker key) 0 tracker.entries))
  unfolding ebpf_tracker_lookup
  lookup_lem =
      lookup_loop_lem (length tracker.entries) (omega arith)
      ∙ ap found (take-length tracker.entries)
