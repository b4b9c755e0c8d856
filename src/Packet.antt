-- ===== src/Packet.antt =====
-- `packet_handler` of src/main.c: from the captured bytes of a packet to the touch of the flow table.
-- What the two sources of attribution answer for a key is an argument here; Agent puts them in.
pub mod Safe
pub mod RoundTrip
use if_flow.Base.{
  ℕ, zero, suc, ◌+◌, ◌-◌, ◌*◌, ◌/◌, ◌%◌, Bool, true, false, not, ◌&&◌, ◌||◌, Option, none, some,
  List, [], ◌∷◌, Bytes, ℤ, length, ltb, leb, ◌==◌, if◌then◌else◌,
}
use if_flow.Flow.{
  FlowKey, AttrSource, ipproto_icmp, ipproto_icmpv6, ipproto_tcp, ipproto_udp, ipproto_sctp,
  if_flow_max_name,
}
use if_flow.FlowTable.{Touch}
use if_flow.Classify.{classify_ip_proto, classify_packet}
use if_flow.LocalIps.{LocalIpList, detect_direction}
use if_flow.Parser.Reads.{
  Parse, fault, starved, absent, ok, ◌>>=◌, ◌>>◌, guard, read, read_u16, slice,
}
use if_flow.Parser.TlsSni.{parser_extract_tls_sni}
use if_flow.Parser.HttpHost.{parser_extract_http_host}
use if_flow.Headers.{
  Network, Transport, ethertype_ip, ethertype_ipv6, parse_l2_offset, decode_ip4, decode_ip6,
  decode_transport,
}

-- The buffer behind an extraction, which starts out empty.
abbrev pub or_empty : Parse Bytes → Parse Bytes
or_empty fault = fault
or_empty starved = starved
or_empty absent = ok []
or_empty (ok text) = ok text

abbrev pub when : Bool → Parse Bytes → Parse Bytes
when b m = if b then or_empty m else ok []

-- What the attribution cache or, behind it, the resolver says of a key.
pub record Identity : Type 0 where
  pub pid : ℤ
  pub process : Bytes
  pub cmdline : Bytes
  pub workload : Bytes
  pub attr_source : AttrSource

abbrev pub key_of : Network → Transport → FlowKey
key_of net l4 = record {
  proto = net.proto;
  src_ip = net.src_ip;
  src_port = l4.src_port;
  dst_ip = net.dst_ip;
  dst_port = l4.dst_port;
}

-- The touch of a packet whose headers are decoded; `caplen` is what it counts for.
unfoldable pub enrich :
    LocalIpList → (FlowKey → Identity) → ℕ → ℕ → Network → Transport → Parse Touch
enrich local_ips attribute caplen now_sec net l4 = do
  let key = key_of net l4
  let has_payload = net.proto == ipproto_tcp && ltb 0 (length l4.payload)
  let on_https = l4.src_port == 443 || l4.dst_port == 443
  sni ← when (has_payload && on_https) (parser_extract_tls_sni l4.payload if_flow_max_name)
  host ← when has_payload (parser_extract_http_host l4.payload if_flow_max_name)
  let identity = attribute key
  ok (record {
    key = key;
    direction = detect_direction local_ips net.src_ip net.dst_ip;
    pid = identity.pid;
    process = some identity.process;
    cmdline = some identity.cmdline;
    workload = some identity.workload;
    sni = some sni;
    host = some host;
    class_tag = some (classify_packet key l4.icmp_type l4.icmp_code (some sni) (some host));
    attr_source = identity.attr_source;
    bytes = caplen;
    new_connection = l4.new_connection;
    now_sec = now_sec;
  })

unfoldable pub packet_touch :
    (Bytes → Bytes) → LocalIpList → (FlowKey → Identity) → ℕ → ℕ → Bytes → Parse Touch
packet_touch inet_ntop local_ips attribute linktype now_sec packet = do
  (l2_offset, ethertype) ← parse_l2_offset packet linktype
  guard (ethertype == ethertype_ip || ethertype == ethertype_ipv6)
  l3 ← slice packet l2_offset (length packet - l2_offset)
  net ← if ethertype == ethertype_ip then decode_ip4 inet_ntop l3 else decode_ip6 inet_ntop l3
  l4 ← decode_transport l3 net.l4ofs net.proto
  enrich local_ips attribute (length packet) now_sec net l4
