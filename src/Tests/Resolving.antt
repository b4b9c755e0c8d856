-- ===== src/Tests/Resolving.antt =====
-- src/resolver.c on a host where `curl` holds the socket of a flow.
use if_flow.Base.{
  ℕ, ◌+◌, ◌*◌, ◌==◌, ◌≤◌, ◌<◌, ◌≡◌, refl, arith, true, false, Option, none, some, List, [], ◌∷◌,
  ◌++◌, map, Bytes, codes, str_eq, safe_copy, copy_loop, ℤ, pos, All, if◌then◌else◌,
}
use if_flow.Flow.{FlowKey, flow_key_equal, flow_key_equal_rev, reversed, second}
use if_flow.Json.{decimal}
use if_flow.Resolver.{
  Texts, entry_sizes, no_texts, copy_texts, ResolverCacheEntry, Resolver, resolver_init, is_cached,
  answers_key, resolver_cache_put, get_loop, resolver_cache_get,
}
use if_flow.Resolver.Get.{IsAnswer, texts_of, cache_get_lem}
use if_flow.Resolver.Hidden.{has_answer, get-put_hidden}
use if_flow.Resolver.Recent.{cache_get-put}
use if_flow.Resolver.ProcFs.{ProcFs}
use if_flow.Resolver.Identity.{g_pid_cache, is_known, resolver_read_identity_by_pid}
use if_flow.Resolver.Identity.Cached.{Reading, read_all, read_identity_again}
use if_flow.Resolver.Owners.{collect_inode_owners, lookup_inode_owner}
use if_flow.Resolver.Scan.{scan_tables, owner_of}
use if_flow.Resolver.Scan.Found.{IsMatch, owner_of_lem}
use if_flow.Resolver.Scan.Throttle.{LookupCall, with_files, lookup_all, lookup_all-files}
use if_flow.Resolver.Sockets.Printed.{line_of}
use if_flow.Resolver.Sockets.RoundTrip.{columns}
use if_flow.Tests.Sockets.{scan_hex, row}

abbrev pub no_ipv6 : Bytes → Option Bytes
no_ipv6 a = none

abbrev pub key : FlowKey
key = record {
  proto = 6;
  src_ip = codes "10.0.0.2";
  src_port = 40000;
  dst_ip = codes "10.0.0.9";
  dst_port = 443;
}

abbrev other_key : FlowKey
other_key = record key { dst_port = 80 }

abbrev pub fs : ProcFs
fs = record {
  net_tcp = some (codes "  sl  local_address\n" ++ line_of (columns row));
  net_tcp6 = none;
  net_udp = none;
  net_udp6 = none;
  comm = λ pid. if pid == 1234 then some (codes "curl\n") else none;
  cmdline = λ pid. none;
  cgroup = λ pid. none;
  names = some (codes "self" ∷ codes "1234" ∷ []);
  fds = λ pid. if pid == 1234 then some (codes "3" ∷ []) else none;
  link = λ pid name. some (codes "socket:[4711]");
}

abbrev no_files : ProcFs
no_files = record {
  net_tcp = none;
  net_tcp6 = none;
  net_udp = none;
  net_udp6 = none;
  comm = λ pid. none;
  cmdline = λ pid. none;
  cgroup = λ pid. none;
  names = none;
  fds = λ pid. none;
  link = λ pid name. none;
}

abbrev pub curl : Texts
curl = record { process = codes "curl"; cmdline = codes "curl -s"; workload = codes "HOST" }

abbrev answer : FlowKey → ℕ → ResolverCacheEntry
answer k ts = record { key = k; pid = pos 1234; texts = curl; ts = ts }

-- The answer for the key in front of one that is too old at 25 seconds.
abbrev pub known : Resolver
known = record (resolver_init (20 * second) second) {
  entries = answer key (10 * second) ∷ answer other_key second ∷ [];
  cap = 2048;
}

cache_get_lem_example :
    (o : Option ResolverCacheEntry) × (resolver_cache_get (15 * second) key entry_sizes known
      ≡ texts_of entry_sizes o)
    × IsAnswer known (15 * second) key 2 o
cache_get_lem_example = cache_get_lem known (15 * second) key entry_sizes

cache_get-put_example :
    let after =
      resolver_cache_put
        (λ n. true)
        (λ i. 30 * second)
        key
        (pos 1234)
        curl
        (resolver_init (20 * second) second) in
    let answer : Option (ℤ × Texts) =
      some (pos 1234, copy_texts no_texts entry_sizes (copy_texts no_texts entry_sizes curl)) in
    (resolver_cache_get (40 * second) key entry_sizes after ≡ answer)
    × (resolver_cache_get (40 * second) (reversed key) entry_sizes after ≡ answer)
cache_get-put_example =
    cache_get-put key 1234 curl (λ n. true) (λ i. 30 * second) (40 * second) entry_sizes
      (resolver_init (20 * second) second) no_entries (λ n. refl) (within 30 (omega arith))
      (within 40 (omega arith))
  where
    no_entries :
        All
          (λ (e : ResolverCacheEntry). flow_key_equal e.key key ≡ false)
          (resolver_init (20 * second) second).entries
    no_entries = unfold resolver_init in tt

    within :
        (n : ℕ) → n ≤ 50 → n * second ≤ 30 * second + (resolver_init (20 * second) second).ttl_sec
    within n h = unfold resolver_init in omega (arith, h)

-- The entry of the key is refreshed at 25 seconds and not found at 26, past one that is for another
-- key.
abbrev third_key : FlowKey
third_key = record key { dst_port = 8080 }

abbrev crowded : Resolver
crowded = record known {
  entries =
      answer key (10 * second) ∷ answer other_key second ∷ answer third_key (20 * second) ∷ [];
}

get-put_hidden_example :
    resolver_cache_get
      (26 * second)
      key
      entry_sizes
      (resolver_cache_put (λ n. true) (λ i. 25 * second) key (pos 1234) curl crowded)
    ≡ none
get-put_hidden_example =
    get-put_hidden (λ n. true) (λ i. 25 * second) (26 * second) key 1234 curl entry_sizes crowded
      (answer key (10 * second) ∷ []) (answer other_key second)
      (answer third_key (20 * second) ∷ []) refl has too_old (other, tt)
  where
    has : has_answer key (answer key (10 * second) ∷ []) ≡ true
    has = unfold has_answer flow_key_equal str_eq in refl

    too_old : is_cached crowded (26 * second) (answer other_key second) ≡ false
    too_old = unfold is_cached resolver_init in refl

    other : answers_key key (answer third_key (20 * second)) ≡ false
    other = unfold answers_key flow_key_equal flow_key_equal_rev str_eq in refl

-- Another process with its own cell is read in between; then the files are gone.
read_identity_again_example :
    let (first, pids) =
      resolver_read_identity_by_pid fs
        (λ i. 40 * second)
        (pos 1234)
        entry_sizes
        no_texts
        g_pid_cache in
    let between : List Reading =
      record { fs = fs; clock = λ i. 41 * second; pid = pos 7; sz = entry_sizes; texts = no_texts }
      ∷ [] in
    let later = read_all between pids in
    resolver_read_identity_by_pid no_files (λ i. 60 * second) (pos 1234) entry_sizes no_texts later
    ≡ (first, later)
read_identity_again_example =
    read_identity_again fs no_files (λ i. 40 * second) (λ i. 60 * second) 1234 no_texts no_texts
      (record { fs = fs; clock = λ i. 41 * second; pid = pos 7; sz = entry_sizes; texts = no_texts }
        ∷ [])
      g_pid_cache (unfold is_known in refl) (refl, tt) (omega arith)

owner_of_lem_example :
    IsMatch key
      (collect_inode_owners fs 32768)
      (scan_tables scan_hex no_ipv6 fs)
      (owner_of scan_hex no_ipv6 fs key)
owner_of_lem_example = owner_of_lem scan_hex no_ipv6 fs key

abbrev lookup_at : ℕ → FlowKey → LookupCall
lookup_at now k = record {
  fs = fs;
  realloc = λ n. true;
  clock = λ i. now;
  key = k;
  sz = entry_sizes;
}

-- The second lookup is half a second behind the first one.
lookup_all-files_example :
    lookup_all scan_hex no_ipv6
      (lookup_at (40 * second) key
        ∷ map (with_files no_files) (lookup_at (40 * second + 500_000_000) other_key ∷ []))
      (resolver_init (20 * second) second)
      g_pid_cache
    ≡ lookup_all scan_hex no_ipv6
        (lookup_at (40 * second) key ∷ lookup_at (40 * second + 500_000_000) other_key ∷ [])
        (resolver_init (20 * second) second)
        g_pid_cache
lookup_all-files_example =
    lookup_all-files scan_hex no_ipv6 (lookup_at (40 * second) key) no_files
      (lookup_at (40 * second + 500_000_000) other_key ∷ []) (resolver_init (20 * second) second)
      g_pid_cache missed late (soon, tt)
  where
    missed :
        resolver_cache_get (40 * second) key entry_sizes (resolver_init (20 * second) second) ≡ none
    missed = unfold resolver_cache_get get_loop resolver_init in refl

    late :
        (resolver_init (20 * second) second).last_refresh
          + (resolver_init (20 * second) second).refresh_sec
        ≤ 40 * second
    late = unfold resolver_init in omega arith

    soon :
        40 * second + 500_000_000 < 40 * second + (resolver_init (20 * second) second).refresh_sec
    soon = unfold resolver_init in omega arith

-- The process that holds the socket is found.
found : owner_of scan_hex no_ipv6 fs key ≡ some 1234
unfolding owner_of scan_hex safe_copy copy_loop str_eq flow_key_equal flow_key_equal_rev decimal
    lookup_inode_owner collect_inode_owners
found = refl
