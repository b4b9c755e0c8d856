-- ===== src/Resolver/Scan.antt =====
-- `resolver_lookup` of src/resolver.c: the cache first, then, if the last scan is old enough, the
-- socket tables and the owners of their inodes.
pub mod Found
pub mod Throttle
pub mod Keeps
use if_flow.Base.{
  ℕ, ◌+◌, ◌-◌, Bool, true, false, ◌||◌, Option, none, some, List, [], ◌∷◌, ◌++◌, Bytes, ℤ, pos,
  safe_copy, length, if◌then◌else◌,
}
use if_flow.Flow.{
  FlowKey, flow_key_equal, flow_key_equal_rev, within, ipproto_tcp, ipproto_udp, if_flow_max_ip_str,
}
use if_flow.Resolver.{Resolver, Texts, Sizes, no_texts, resolver_cache_get, resolver_cache_put}
use if_flow.Resolver.ProcFs.{ProcFs}
use if_flow.Resolver.Identity.{PidCache, resolver_read_identity_by_pid}
use if_flow.Resolver.Sockets.{ProcConn, parse_proc_net_file}
use if_flow.Resolver.Owners.{InodeOwner, collect_inode_owners, lookup_inode_owner}

unfoldable pub candidate_key : ProcConn → FlowKey
candidate_key conn = record {
  proto = conn.proto;
  src_ip = safe_copy [] if_flow_max_ip_str (some conn.src_ip);
  src_port = conn.src_port;
  dst_ip = safe_copy [] if_flow_max_ip_str (some conn.dst_ip);
  dst_port = conn.dst_port;
}

unfoldable pub is_candidate : FlowKey → ProcConn → Bool
unfolding candidate_key
is_candidate key conn =
    flow_key_equal (candidate_key conn) key || flow_key_equal_rev (candidate_key conn) key

-- The owner of the first row of the flow whose inode has one.
unfoldable pub match_conns : FlowKey → List InodeOwner → List ProcConn → Option ℕ
unfolding is_candidate
match_conns key owners [] = none
match_conns key owners (conn ∷ conns) =
    let rest = match_conns key owners conns in
    if is_candidate key conn
    then elim (lookup_inode_owner owners conn.inode) [ none ↦ rest | some pid ↦ some pid ]
    else rest

module _ (scan_hex : Option ℕ → Bytes → Option (ℕ × Bytes)) (inet_ntop : Bytes → Option Bytes) where
  -- The four tables, one behind the other in the array of 16384 rows.
  unfoldable pub scan_tables : ProcFs → List ProcConn
  unfolding parse_proc_net_file
  scan_tables fs =
      let tcp = parse_proc_net_file scan_hex inet_ntop fs.net_tcp false ipproto_tcp 16384 in
      let tcp6 =
        tcp
        ++ parse_proc_net_file scan_hex inet_ntop fs.net_tcp6 true ipproto_tcp
            (16384 - length tcp) in
      let udp =
        tcp6
        ++ parse_proc_net_file scan_hex inet_ntop fs.net_udp false ipproto_udp
            (16384 - length tcp6) in
      udp
      ++ parse_proc_net_file scan_hex inet_ntop fs.net_udp6 true ipproto_udp (16384 - length udp)

  -- The process that a snapshot of /proc gives for a flow.
  unfoldable pub owner_of : ProcFs → FlowKey → Option ℕ
  unfolding match_conns scan_tables
  owner_of fs key = match_conns key (collect_inode_owners fs 32768) (scan_tables fs)

  -- Reading 0 is for the cutoff of the cache, reading 1 is `now`; 2 and 3 go to the identity, the
  -- later ones to the cache.
  unfoldable pub resolver_lookup :
      ProcFs
      → (ℕ → Bool)
      → (ℕ → ℕ)
      → FlowKey
      → Sizes
      → Resolver
      → PidCache
      → Resolver × PidCache × Option (ℤ × Texts)
  unfolding owner_of resolver_read_identity_by_pid
  resolver_lookup fs realloc clock key sz resolver pids =
      elim (resolver_cache_get (clock 0) key sz resolver) [
        | some answer ↦ (resolver, pids, some answer)
        | none ↦
            let scanned = record resolver { last_refresh = clock 1 } in
            if within (clock 1) resolver.last_refresh resolver.refresh_sec
            then (resolver, pids, none)
            else elim (owner_of fs key) [
              | none ↦ (scanned, pids, none)
              | some pid ↦
                  let (texts, known) =
                    resolver_read_identity_by_pid fs (λ i. clock (i + 2)) (pos pid) sz no_texts
                      pids in
                  (
                    resolver_cache_put realloc (λ i. clock (i + 4)) key (pos pid) texts scanned,
                    known,
                    some (pos pid, texts),
                  )
            ]
      ]
