-- ===== src/Resolver.antt =====
-- src/resolver.c: the cache that maps flow keys to processes found in /proc. The clock is an
-- argument with one reading for each call of `now_sec`, the allocator is one too. Times are in
-- nanoseconds. The readers of /proc and `resolver_lookup` are in the modules below.
pub mod Get
pub mod Hidden
pub mod Invariant
pub mod Put
pub mod Recent
pub mod ProcFs
pub mod Identity
pub mod Sockets
pub mod Owners
pub mod Scan
use if_flow.Base.{
  ℕ, zero, suc, ◌+◌, ◌*◌, ◌%◌, Bool, true, false, ◌&&◌, ◌||◌, Option, none, some, List, [], ◌∷◌,
  ◌++◌, Bytes, ℤ, is_neg, safe_copy, length, get_elem?, ◌==◌, if◌then◌else◌, sweep,
}
use if_flow.Flow.{
  FlowKey, flow_key_equal, flow_key_equal_rev, is_fresh, u64_mod, if_flow_max_proc_name,
  if_flow_max_cmdline, if_flow_max_workload,
}

-- The contents of the three buffers that describe a process, and their sizes.
pub record Texts : Type 0 where
  pub process : Bytes
  pub cmdline : Bytes
  pub workload : Bytes

pub record Sizes : Type 0 where
  pub process_sz : ℕ
  pub cmdline_sz : ℕ
  pub workload_sz : ℕ

abbrev pub entry_sizes : Sizes
entry_sizes = record {
  process_sz = if_flow_max_proc_name;
  cmdline_sz = if_flow_max_cmdline;
  workload_sz = if_flow_max_workload;
}

abbrev pub no_texts : Texts
no_texts = record { process = []; cmdline = []; workload = [] }

-- The three calls of `safe_copy`.
unfoldable pub copy_texts : Texts → Sizes → Texts → Texts
copy_texts dst sz src = record {
  process = safe_copy dst.process sz.process_sz (some src.process);
  cmdline = safe_copy dst.cmdline sz.cmdline_sz (some src.cmdline);
  workload = safe_copy dst.workload sz.workload_sz (some src.workload);
}

pub record ResolverCacheEntry : Type 0 where
  pub key : FlowKey
  pub pid : ℤ
  pub texts : Texts
  pub ts : ℕ

pub record Resolver : Type 0 where
  pub entries : List ResolverCacheEntry
  pub cap : ℕ
  pub ttl_sec : ℕ
  pub refresh_sec : ℕ
  pub last_refresh : ℕ

unfoldable pub resolver_init : ℕ → ℕ → Resolver
resolver_init ttl_sec refresh_sec = record {
  entries = [];
  cap = 0;
  ttl_sec = ttl_sec;
  refresh_sec = refresh_sec;
  last_refresh = 0;
}

unfoldable pub resolver_free : Resolver → Resolver
resolver_free resolver = record resolver { entries = []; cap = 0 }

-- `entry.ts >= cutoff`, the cutoff taken at `now`.
unfoldable pub is_cached : Resolver → ℕ → ResolverCacheEntry → Bool
is_cached resolver now e = is_fresh e.ts now resolver.ttl_sec

unfoldable pub resolver_cache_prune : ℕ → Resolver → Resolver
unfolding is_cached
resolver_cache_prune now resolver = record resolver {
  entries = (sweep (λ r. is_cached resolver now) resolver.entries).0;
}

-- The refresh of an entry in place.
unfoldable pub refresh_entry : ℤ → Texts → ℕ → ResolverCacheEntry → ResolverCacheEntry
unfolding copy_texts
refresh_entry pid texts now e = record e {
  pid = pid;
  texts = copy_texts e.texts entry_sizes texts;
  ts = now;
}

-- The array afterwards, if the key has an entry.
unfoldable pub refresh_loop :
    FlowKey → ℤ → Texts → ℕ → List ResolverCacheEntry → Option (List ResolverCacheEntry)
unfolding refresh_entry
refresh_loop key pid texts now [] = none
refresh_loop key pid texts now (e ∷ es) =
    let rest = refresh_loop key pid texts now es in
    if flow_key_equal e.key key
    then some (refresh_entry pid texts now e ∷ es)
    else elim rest [ none ↦ none | some es' ↦ some (e ∷ es') ]

-- Room for one more entry; `none` is the early return.
unfoldable pub grow_resolver : (ℕ → Bool) → Resolver → Option Resolver
grow_resolver realloc resolver =
    if length resolver.entries == resolver.cap
    then (let new_cap = if resolver.cap == 0 then 2048 else (resolver.cap * 2) % u64_mod in
        if realloc new_cap then some (record resolver { cap = new_cap }) else none)
    else some resolver

unfoldable pub fresh_answer : FlowKey → ℤ → Texts → ℕ → ResolverCacheEntry
unfolding copy_texts
fresh_answer key pid texts now = record {
  key = key;
  pid = pid;
  texts = copy_texts no_texts entry_sizes texts;
  ts = now;
}

-- The new entry is stamped with reading 0, the pruning takes reading 1.
unfoldable pub append_answer : (ℕ → ℕ) → FlowKey → ℤ → Texts → Resolver → Option Resolver → Resolver
unfolding resolver_cache_prune fresh_answer
append_answer clock key pid texts resolver none = resolver
append_answer clock key pid texts resolver (some grown) =
    resolver_cache_prune (clock 1)
      (record grown { entries = grown.entries ++ fresh_answer key pid texts (clock 0) ∷ [] })

unfoldable pub after_refresh :
    (ℕ → Bool)
    → (ℕ → ℕ)
    → FlowKey
    → ℤ
    → Texts
    → Resolver
    → Option (List ResolverCacheEntry)
    → Resolver
unfolding append_answer grow_resolver
after_refresh realloc clock key pid texts resolver (some es) = record resolver { entries = es }
after_refresh realloc clock key pid texts resolver none =
    append_answer clock key pid texts resolver (grow_resolver realloc resolver)

unfoldable pub resolver_cache_put : (ℕ → Bool) → (ℕ → ℕ) → FlowKey → ℤ → Texts → Resolver → Resolver
unfolding refresh_loop after_refresh
resolver_cache_put realloc clock key pid texts resolver =
    if is_neg pid
    then resolver
    else after_refresh realloc clock key pid texts resolver
        (refresh_loop key pid texts (clock 0) resolver.entries)

unfoldable pub answers_key : FlowKey → ResolverCacheEntry → Bool
answers_key key e = flow_key_equal e.key key || flow_key_equal_rev e.key key

-- The loop from the last entry to the first, which stops at an entry that is too old; `n` are still
-- to be looked at.
unfoldable pub get_loop : Resolver → ℕ → FlowKey → ℕ → Option ResolverCacheEntry
unfolding is_cached answers_key
get_loop resolver now key zero = none
get_loop resolver now key (suc n) =
    let rest = get_loop resolver now key n in
    elim (get_elem? resolver.entries n) [
      | none ↦ rest
      | some e ↦
          if is_cached resolver now e then (if answers_key key e then some e else rest) else none
    ]

-- The process that is found, and the texts in the caller's buffers, which were emptied before.
unfoldable pub resolver_cache_get : ℕ → FlowKey → Sizes → Resolver → Option (ℤ × Texts)
unfolding get_loop copy_texts
resolver_cache_get now key sz resolver =
    elim (get_loop resolver now key (length resolver.entries)) [
      | none ↦ none
      | some e ↦ some (e.pid, copy_texts no_texts sz e.texts)
    ]
