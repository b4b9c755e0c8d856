-- ===== src/EbpfTracker/Polled.antt =====
-- Whole polls of src/ebpf_tracker.c keep the invariant of the cache, whatever events come.
use if_flow.Base.{
  ℕ, ◌+◌, ◌^◌, ◌<◌, ◌≤◌, Bool, true, false, if◌then◌else◌, pos, Option, none, some, List, [], ◌∷◌,
  Bytes, ℤ, arith, length,
}
use if_flow.EbpfTracker.{
  EbpfTracker, event_key, to_int, ebpf_cache_prune, EbpfEventV4, on_ebpf_event, Delivery, deliver,
  ebpf_tracker_poll,
}
use if_flow.EbpfTracker.Invariant.{Inv, prune-Inv}
use if_flow.EbpfTracker.Put.{put-Inv, put-length, prune-length}

module _ (inet_ntop : ℕ → Bytes) where
  event-Inv :
      (d : Delivery) (tracker : EbpfTracker)
      → length tracker.entries < 2 ^ 62
      → Inv tracker
      → Inv (on_ebpf_event inet_ntop d.realloc d.clock d.event tracker)
  unfolding on_ebpf_event
  event-Inv d tracker b v = on_event d.event
    where
      on_event :
          (e : Option EbpfEventV4) → Inv (on_ebpf_event inet_ntop d.realloc d.clock e tracker)
      on_event none = v
      on_event (some e) =
          put-Inv d.realloc d.clock (event_key inet_ntop e) (to_int e.pid) e.comm e.source tracker b
            v

  event-length :
      (d : Delivery) (tracker : EbpfTracker)
      → length (on_ebpf_event inet_ntop d.realloc d.clock d.event tracker).entries
        ≤ length tracker.entries + 1
  unfolding on_ebpf_event
  event-length d tracker = on_event d.event
    where
      on_event :
          (e : Option EbpfEventV4)
          → length (on_ebpf_event inet_ntop d.realloc d.clock e tracker).entries
            ≤ length tracker.entries + 1
      on_event none = omega arith
      on_event (some e) =
          put-length d.realloc d.clock (event_key inet_ntop e) (to_int e.pid) e.comm e.source
            tracker

  deliver-Inv :
      (ds : List Delivery) (tracker : EbpfTracker)
      → length tracker.entries + length ds < 2 ^ 62
      → Inv tracker
      → Inv (deliver inet_ntop ds tracker)
  unfolding deliver
  deliver-Inv [] tracker b v = v
  deliver-Inv (d ∷ ds) tracker b v =
      deliver-Inv ds _ (omega (arith, event-length d tracker)) (event-Inv d tracker (omega arith) v)

  -- A poll that hands over fewer than 2 ^ 62 events less the entries that are there keeps the
  -- invariant, whatever the events, the allocator, the clock and the result of libbpf are: the array
  -- stays within its capacity, no key has two entries of one source, and every entry names a process
  -- that is not the kernel's idle one in a text that fits.
  pub poll-Inv :
      (ds : List Delivery) (clock : ℕ → ℕ) (rc : ℤ) (tracker : EbpfTracker)
      → length tracker.entries + length ds < 2 ^ 62
      → Inv tracker
      → Inv (ebpf_tracker_poll inet_ntop ds clock rc tracker).0
  unfolding ebpf_tracker_poll
  poll-Inv ds clock rc tracker b v = polled tracker.has_rb
    where
      polled :
          (opened : Bool)
          → Inv (
              (if◌then◌else◌ {A = EbpfTracker × ℤ} opened
                (ebpf_cache_prune clock (deliver inet_ntop ds tracker), rc)
                (tracker, pos 0)).0)
      polled true = prune-Inv clock _ (deliver-Inv ds tracker b v)
      polled false = v

  deliver-length :
      (ds : List Delivery) (tracker : EbpfTracker)
      → length (deliver inet_ntop ds tracker).entries ≤ length tracker.entries + length ds
  unfolding deliver
  deliver-length [] tracker = omega arith
  deliver-length (d ∷ ds) tracker = omega (
    arith,
    event-length d tracker,
    deliver-length ds (on_ebpf_event inet_ntop d.realloc d.clock d.event tracker),
  )

  -- A poll adds one entry at most for each event.
  pub poll-length :
      (ds : List Delivery) (clock : ℕ → ℕ) (rc : ℤ) (tracker : EbpfTracker)
      → length (ebpf_tracker_poll inet_ntop ds clock rc tracker).0.entries
        ≤ length tracker.entries + length ds
  unfolding ebpf_tracker_poll
  poll-length ds clock rc tracker = polled tracker.has_rb
    where
      polled :
          (opened : Bool)
          → length
              (if◌then◌else◌ {A = EbpfTracker × ℤ} opened
                (ebpf_cache_prune clock (deliver inet_ntop ds tracker), rc)
                (tracker, pos 0)).0.entries
            ≤ length tracker.entries + length ds
      polled true =
          omega
            (arith, prune-length clock (deliver inet_ntop ds tracker), deliver-length ds tracker)
      polled false = omega arith
