-- ===== src/Tests/Classes.antt =====
-- The classifier of src/main.c on the keys of `run_selftest`.
use if_flow.Base.{
  ℕ, ◌+◌, ◌≤◌, true, ◌&&◌, ◌≡◌, refl, none, some, [], Bytes, codes, arith, pos, if◌then◌else◌,
  safe_copy, is_set,
}
use if_flow.Flow.{
  FlowKey, FlowEntry, dir_out, src_proc, ipproto_tcp, ipproto_udp, ipproto_icmp, reversed,
  if_flow_max_class,
}
use if_flow.Classify.{
  classify_flow, flow_has_any_port, classify_packet, classify_by_port_rules,
  classify_by_early_port_rules, flow_connection_inferred, flow_tcp_seen_without_syn,
  flow_connections_effective, is_attributed, is_multicast_ip,
}
use if_flow.Classify.Names.{classify_packet_stored}
use if_flow.Classify.Symmetry.{classify_flow-reversed}
use if_flow.Classify.Derived.{connections_effective_lem}

abbrev key_for : ℕ → Bytes → ℕ → ℕ → FlowKey
key_for proto dst_ip src_port dst_port = record {
  proto = proto;
  src_ip = codes "10.0.0.50";
  src_port = src_port;
  dst_ip = dst_ip;
  dst_port = dst_port;
}

abbrev bare : FlowKey → Bytes
bare key = classify_flow key (some []) (some [])

selftest_classes :
    (bare (key_for ipproto_tcp (codes "10.0.0.40") 55000 5432) ≡ codes "postgres")
    × (bare (key_for ipproto_udp (codes "239.255.255.250") 40000 1900) ≡ codes "multicast")
    × (bare (key_for ipproto_tcp (codes "10.0.0.60") 50123 8123) ≡ codes "clickhouse")
    × (bare (key_for ipproto_udp (codes "8.8.8.8") 50124 443) ≡ codes "quic")
    × (bare (key_for ipproto_udp (codes "10.0.0.71") 50000 65100) ≡ codes "wireguard")
    × (bare (key_for ipproto_tcp (codes "10.0.0.83") 40005 20048) ≡ codes "mountd")
unfolding classify_flow classify_by_early_port_rules flow_has_any_port is_multicast_ip
    classify_by_port_rules
selftest_classes = (refl, refl, refl, refl, refl, refl)

abbrev dns_key : FlowKey
dns_key = key_for ipproto_udp (codes "10.0.0.20") 53000 53

abbrev icmp_key : FlowKey
icmp_key = key_for ipproto_icmp (codes "10.0.0.85") 0 0

classify_packet_stored_example :
    (is_set (some (classify_packet icmp_key 8 0 none none)) ≡ true)
    × (safe_copy [] if_flow_max_class (some (classify_packet icmp_key 8 0 none none))
        ≡ classify_packet icmp_key 8 0 none none)
classify_packet_stored_example = classify_packet_stored icmp_key 8 0 none none []

classify_flow-reversed_example :
    classify_flow (reversed dns_key) none none ≡ classify_flow dns_key none none
unfolding is_multicast_ip
classify_flow-reversed_example = classify_flow-reversed dns_key none none refl

-- A TCP flow whose opening was not seen.
abbrev midway : FlowEntry
midway = record {
  key = key_for ipproto_tcp (codes "10.0.0.40") 55000 5432;
  direction = dir_out;
  pid = pos 77;
  process = codes "psql";
  cmdline = [];
  workload = [];
  sni = [];
  host = [];
  class_tag = codes "postgres";
  attr_source = src_proc;
  packets = 4;
  bytes = 900;
  connections = 0;
  minute_bucket = 1719000000;
  first_seen = 1719000001000000000;
  last_seen = 1719000002000000000;
  last_emit = 0;
  dirty = true;
}

connections_effective_lem_example :
    (flow_tcp_seen_without_syn midway true
      ≡ (true && flow_connection_inferred midway && is_attributed src_proc))
    × (flow_connections_effective midway true
        ≡ 0 + (if flow_tcp_seen_without_syn midway true then 1 else 0))
    × (flow_connections_effective midway true ≤ 1)
connections_effective_lem_example = connections_effective_lem midway true (omega arith)
