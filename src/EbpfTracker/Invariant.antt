-- ===== src/EbpfTracker/Invariant.antt =====
-- What the cache of src/ebpf_tracker.c satisfies, and that pruning keeps it.
use if_flow.Base.{
  ℕ, ◌+◌, ◌≤◌, ◌<◌, ◌≡◌, refl, Bool, false, ◌||◌, List, [], ◌∷◌, arith, length, All, All-kept,
  length-kept, kept, is_empty, Bool-cases, inl, inr,
}
use if_flow.Flow.{FlowKey, if_flow_max_proc_name}
use if_flow.EbpfTracker.{
  EbpfTracker, EbpfCacheEntry, is_not_positive, is_live, is_same_source, ebpf_cache_prune,
}
use if_flow.EbpfTracker.Prune.{prune_lem}

-- Whether an entry of the key and source is there.
unfoldable pub has_hint : FlowKey → ℕ → List EbpfCacheEntry → Bool
has_hint key source [] = false
has_hint key source (e ∷ es) = is_same_source key source e || has_hint key source es

pub has_hint-cons :
    (key : FlowKey) (source : ℕ) (e : EbpfCacheEntry) (es : List EbpfCacheEntry)
    → has_hint key source (e ∷ es) ≡ (is_same_source key source e || has_hint key source es)
unfolding has_hint
has_hint-cons key source e es = refl

abbrev pub IsDistinct : List EbpfCacheEntry → Type 0
IsDistinct [] = Unit {0}
IsDistinct (e ∷ es) = (has_hint e.key e.source es ≡ false) × IsDistinct es

-- A hint names a real process, and its text fits the buffer.
pub record HintInv (e : EbpfCacheEntry) : Type 0 where
  pub is_process : is_not_positive e.pid ≡ false
  pub is_named : is_empty e.process ≡ false
  pub fits : length e.process < if_flow_max_proc_name

-- The array is within its capacity, no key has two entries of one source, every entry is a hint.
pub record Inv (tracker : EbpfTracker) : Type 0 where
  pub within_cap : length tracker.entries ≤ tracker.cap
  pub distinct : IsDistinct tracker.entries
  pub hints : All HintInv tracker.entries

-- Pruning.
module _ (keep : ℕ → EbpfCacheEntry → Bool) where
  has_hint-kept :
      (key : FlowKey) (source : ℕ) (i : ℕ) (es : List EbpfCacheEntry)
      → has_hint key source es ≡ false
      → has_hint key source (kept keep i es) ≡ false
  unfolding kept
  has_hint-kept key source i [] h = h
  has_hint-kept key source i (e ∷ es) h =
      let later =
        has_hint-kept key source (i + 1) es (ground (arith, has_hint-cons key source e es)) in
      elim (Bool-cases (keep i e)) [
        | inl b ↦ rw b (
            ground (
              arith,
              later,
              has_hint-cons key source e es,
              has_hint-cons key source e (kept keep (i + 1) es),
            ))
        | inr b ↦ rw b later
      ]

  IsDistinct-kept : (i : ℕ) (es : List EbpfCacheEntry) → IsDistinct es → IsDistinct (kept keep i es)
  unfolding kept
  IsDistinct-kept i [] d = tt
  IsDistinct-kept i (e ∷ es) d = elim (Bool-cases (keep i e)) [
    | inl b ↦ rw b (has_hint-kept e.key e.source (i + 1) es d.0, IsDistinct-kept (i + 1) es d.1)
    | inr b ↦ rw b (IsDistinct-kept (i + 1) es d.1)
  ]

pub prune-Inv :
    (clock : ℕ → ℕ) (tracker : EbpfTracker) → Inv tracker → Inv (ebpf_cache_prune clock tracker)
prune-Inv clock tracker v = rw (prune_lem clock tracker) (record {
  within_cap = omega (arith, length-kept (is_live tracker clock) 0 tracker.entries, v.within_cap);
  distinct = IsDistinct-kept (is_live tracker clock) 0 tracker.entries v.distinct;
  hints = All-kept (is_live tracker clock) HintInv 0 tracker.entries v.hints;
})
