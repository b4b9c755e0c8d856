-- ===== src/EbpfTracker/Prune.antt =====
-- `ebpf_cache_prune` of src/ebpf_tracker.c drops the stale entries and nothing else.
use if_flow.Base.{refl, ℕ, ◌≡◌, kept, sweep_lem}
use if_flow.EbpfTracker.{EbpfTracker, is_live, ebpf_cache_prune}

-- The compaction in place leaves exactly the entries that are live when the loop looks at them, each
-- as it was and in the same order.
pub prune_lem :
    (clock : ℕ → ℕ) (tracker : EbpfTracker)
    → ebpf_cache_prune clock tracker
      ≡ record tracker { entries = kept (is_live tracker clock) 0 tracker.entries }
unfolding ebpf_cache_prune
prune_lem clock tracker = rw (sweep_lem (is_live tracker clock) tracker.entries) refl
