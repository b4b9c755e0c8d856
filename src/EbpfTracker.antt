-- ===== src/EbpfTracker.antt =====
-- src/ebpf_tracker.c: the cache that maps flow keys to processes, filled by events of the in-kernel
-- program. The wall clock is an argument, one reading for each call of `now_sec`; the allocator, the
-- texts of `inet_ntop` and libbpf are arguments too. Times are in nanoseconds.
pub mod Prune
pub mod Attach
pub mod Lookup
pub mod Invariant
pub mod Update
pub mod Put
pub mod Polled
pub mod Recent
use if_flow.Base.{
  ℕ, zero, suc, ◌+◌, ◌-◌, ◌*◌, ◌%◌, ◌≡◌, Bool, true, false, not, ◌&&◌, ◌||◌, Option, none, some,
  List, [], ◌∷◌, ◌++◌, Bytes, ℤ, pos, negsuc, codes, safe_copy, str_eq, is_empty, length, get_elem?,
  ltb, leb, ◌==◌, if◌then◌else◌, sweep,
}
use if_flow.Flow.{
  FlowKey, flow_key_equal, flow_key_equal_rev, is_fresh, u64_mod, if_flow_max_proc_name,
  if_flow_max_ip_str,
}

-- Whether `xs` starts with `pre`, and `strstr(xs, pre) != NULL`.
unfoldable pub starts_with : Bytes → Bytes → Bool
starts_with [] xs = true
starts_with (p ∷ pre) [] = false
starts_with (p ∷ pre) (x ∷ xs) = x == p && starts_with pre xs

unfoldable pub has_substring : Bytes → Bytes → Bool
unfolding starts_with
has_substring pre [] = starts_with pre []
has_substring pre (x ∷ xs) = starts_with pre (x ∷ xs) || has_substring pre xs

unfoldable pub is_kernel_thread_comm : Bytes → Bool
unfolding has_substring
is_kernel_thread_comm c =
    has_substring (codes "ksoftirqd") c
    || has_substring (codes "kworker") c
    || has_substring (codes "rcu_") c
    || has_substring (codes "migration/") c
    || has_substring (codes "idle_inject/") c

-- `pid <= 0`
abbrev pub is_not_positive : ℤ → Bool
is_not_positive (pos n) = n == 0
is_not_positive (negsuc n) = true

unfoldable pub ebpf_identity_usable : ℤ → Option Bytes → Bool
unfolding is_kernel_thread_comm
ebpf_identity_usable pid none = false
ebpf_identity_usable pid (some comm) =
    if is_not_positive pid
    then false
    else if is_empty comm
    then false
    else if str_eq comm (codes "unknown")
    then false
    else not (is_kernel_thread_comm comm)

pub record EbpfCacheEntry : Type 0 where
  pub key : FlowKey
  pub pid : ℤ
  pub process : Bytes
  pub source : ℕ
  pub ts : ℕ

-- `has_obj` and `has_rb` say whether the two handles of libbpf are held.
pub record EbpfTracker : Type 0 where
  pub has_obj : Bool
  pub has_rb : Bool
  pub entries : List EbpfCacheEntry
  pub cap : ℕ
  pub connect_ttl_sec : ℕ
  pub datapath_ttl_sec : ℕ
  pub enable_datapath : Bool
  pub object_path : Bytes

-- `EVENT_SRC_DATAPATH` of include/shared.h
abbrev pub event_src_datapath : ℕ
event_src_datapath = 2

unfoldable pub entry_ttl_sec : EbpfTracker → EbpfCacheEntry → ℕ
entry_ttl_sec tracker entry =
    if entry.source == event_src_datapath then tracker.datapath_ttl_sec else tracker.connect_ttl_sec

-- `ts >= now - ttl` at reading `i` of the clock.
unfoldable pub is_live : EbpfTracker → (ℕ → ℕ) → ℕ → EbpfCacheEntry → Bool
unfolding entry_ttl_sec
is_live tracker clock i e = is_fresh e.ts (clock i) (entry_ttl_sec tracker e)

-- Reading `r` of the clock is the one for the entry at `r`.
unfoldable pub ebpf_cache_prune : (ℕ → ℕ) → EbpfTracker → EbpfTracker
unfolding is_live
ebpf_cache_prune clock tracker = record tracker {
  entries = (sweep (is_live tracker clock) tracker.entries).0;
}

unfoldable pub is_same_source : FlowKey → ℕ → EbpfCacheEntry → Bool
is_same_source key source e = e.source == source && flow_key_equal e.key key

-- The update in place: the array afterwards, if an entry of the key and source was found.
pub update_loop : FlowKey → ℤ → Bytes → ℕ → ℕ → List EbpfCacheEntry → Option (List EbpfCacheEntry)
unfolding is_same_source
update_loop key pid process source now [] = none
update_loop key pid process source now (e ∷ es) =
    let rest = update_loop key pid process source now es in
    if is_same_source key source e
    then some (
        record e {
          pid = pid;
          process = safe_copy e.process if_flow_max_proc_name (some process);
          source = source;
          ts = now;
        }
        ∷ es)
    else elim rest [ none ↦ none | some es' ↦ some (e ∷ es') ]

-- Room for one more entry; `none` is the early return.
pub grow_cache : (ℕ → Bool) → EbpfTracker → Option EbpfTracker
grow_cache realloc tracker =
    if length tracker.entries == tracker.cap
    then (let new_cap = if tracker.cap == 0 then 4096 else (tracker.cap * 2) % u64_mod in
        if realloc new_cap then some (record tracker { cap = new_cap }) else none)
    else some tracker

abbrev fresh_hint : FlowKey → ℤ → Bytes → ℕ → ℕ → EbpfCacheEntry
fresh_hint key pid process source now = record {
  key = key;
  pid = pid;
  process = safe_copy [] if_flow_max_proc_name (some process);
  source = source;
  ts = now;
}

-- The new entry is stamped with reading 0; the pruning takes the later ones.
append_hint : (ℕ → ℕ) → FlowKey → ℤ → Bytes → ℕ → EbpfTracker → Option EbpfTracker → EbpfTracker
unfolding ebpf_cache_prune
append_hint clock key pid process source tracker none = tracker
append_hint clock key pid process source tracker (some grown) =
    ebpf_cache_prune (λ i. clock (i + 1))
      (record grown { entries = grown.entries ++ fresh_hint key pid process source (clock 0) ∷ [] })

after_update :
    (ℕ → Bool)
    → (ℕ → ℕ)
    → FlowKey
    → ℤ
    → Bytes
    → ℕ
    → EbpfTracker
    → Option (List EbpfCacheEntry)
    → EbpfTracker
unfolding append_hint grow_cache
after_update realloc clock key pid process source tracker (some es) = record tracker {
  entries = es;
}
after_update realloc clock key pid process source tracker none =
    append_hint clock key pid process source tracker (grow_cache realloc tracker)

unfoldable pub ebpf_cache_put :
    (ℕ → Bool) → (ℕ → ℕ) → FlowKey → ℤ → Bytes → ℕ → EbpfTracker → EbpfTracker
unfolding ebpf_identity_usable update_loop after_update
ebpf_cache_put realloc clock key pid process source tracker =
    if ebpf_identity_usable pid (some process)
    then after_update realloc clock key pid process source tracker
        (update_loop key pid process source (clock 0) tracker.entries)
    else tracker

-- `struct ebpf_event_v4` of include/shared.h, its numbers as they arrive.
pub record EbpfEventV4 : Type 0 where
  pub pid : ℕ
  pub comm : Bytes
  pub proto : ℕ
  pub saddr : ℕ
  pub daddr : ℕ
  pub sport : ℕ
  pub dport : ℕ
  pub source : ℕ

-- `(int)` of a `__u32`.
abbrev pub to_int : ℕ → ℤ
to_int n = if ltb n 2_147_483_648 then pos n else negsuc (4_294_967_295 - n)

-- The key of the packets that the event is about; `inet_ntop` gives the text of an IPv4 address.
abbrev pub event_key : (ℕ → Bytes) → EbpfEventV4 → FlowKey
event_key inet_ntop e = record {
  proto = e.proto;
  src_ip = inet_ntop e.saddr;
  src_port = e.sport;
  dst_ip = inet_ntop e.daddr;
  dst_port = e.dport;
}

-- `none` is a record that is too short.
unfoldable pub on_ebpf_event :
    (ℕ → Bytes) → (ℕ → Bool) → (ℕ → ℕ) → Option EbpfEventV4 → EbpfTracker → EbpfTracker
unfolding ebpf_cache_put
on_ebpf_event inet_ntop realloc clock none tracker = tracker
on_ebpf_event inet_ntop realloc clock (some e) tracker =
    ebpf_cache_put realloc clock (event_key inet_ntop e) (to_int e.pid) e.comm e.source tracker

unfoldable pub ebpf_tracker_init : ℕ → ℕ → Bool → Option Bytes → EbpfTracker
ebpf_tracker_init connect_ttl_sec datapath_ttl_sec enable_datapath object_path = record {
  has_obj = false;
  has_rb = false;
  entries = [];
  cap = 0;
  connect_ttl_sec = connect_ttl_sec;
  datapath_ttl_sec = datapath_ttl_sec;
  enable_datapath = enable_datapath;
  object_path =
      safe_copy [] 1024
        (some (elim object_path [ none ↦ codes "bpf/if_flow.bpf.o" | some path ↦ path ]));
}

unfoldable pub ebpf_tracker_close : EbpfTracker → EbpfTracker
ebpf_tracker_close tracker = record tracker {
  has_obj = false;
  has_rb = false;
  entries = [];
  cap = 0;
}

-- An event that `ring_buffer__poll` hands to the callback, with what the allocator and the clock
-- answer during that call.
pub record Delivery : Type 0 where
  pub event : Option EbpfEventV4
  pub realloc : ℕ → Bool
  pub clock : ℕ → ℕ

pub deliver : (ℕ → Bytes) → List Delivery → EbpfTracker → EbpfTracker
unfolding on_ebpf_event
deliver inet_ntop [] tracker = tracker
deliver inet_ntop (d ∷ ds) tracker =
    deliver inet_ntop ds (on_ebpf_event inet_ntop d.realloc d.clock d.event tracker)

-- `rc` is what `ring_buffer__poll` returns; both branches on it return it.
unfoldable pub ebpf_tracker_poll :
    (ℕ → Bytes) → List Delivery → (ℕ → ℕ) → ℤ → EbpfTracker → EbpfTracker × ℤ
unfolding deliver ebpf_cache_prune
ebpf_tracker_poll inet_ntop ds clock rc tracker =
    if tracker.has_rb
    then (ebpf_cache_prune clock (deliver inet_ntop ds tracker), rc)
    else (tracker, pos 0)

unfoldable pub matches_key : FlowKey → EbpfCacheEntry → Bool
matches_key key e = flow_key_equal e.key key || flow_key_equal_rev e.key key

-- The loop from the last entry to the first: `n` are still to be looked at, and the clock is read
-- once for each.
pub lookup_loop : (ℕ → ℕ) → EbpfTracker → FlowKey → ℕ → ℕ → Option (ℤ × Bytes)
unfolding is_live matches_key
lookup_loop clock tracker key process_sz zero = none
lookup_loop clock tracker key process_sz (suc n) =
    let rest = lookup_loop clock tracker key process_sz n in
    elim (get_elem? tracker.entries n) [
      | none ↦ rest
      | some e ↦
          if is_live tracker clock n e
          then (if matches_key key e
              then some (e.pid, safe_copy [] process_sz (some e.process))
              else rest)
          else rest
    ]

-- The process that is found, and its name in the caller's buffer.
unfoldable pub ebpf_tracker_lookup : (ℕ → ℕ) → FlowKey → ℕ → EbpfTracker → Option (ℤ × Bytes)
unfolding lookup_loop
ebpf_tracker_lookup clock key process_sz tracker =
    lookup_loop clock tracker key process_sz (length tracker.entries)
