-- ===== src/Classify.antt =====
-- src/main.c: the classifier and the fields that are derived from an entry when it is written
-- (src/writer_jsonl.c repeats those). A `const char *` result that may be NULL is an `Option`.
pub mod PortRules
pub mod Names
pub mod Priority
pub mod Symmetry
pub mod Derived
use if_flow.Base.{
  ℕ, Bool, true, false, not, ◌&&◌, ◌||◌, Option, none, some, List, [], ◌∷◌, Bytes, codes, ◌==◌, ltb,
  if◌then◌else◌, is_set,
}
use if_flow.Flow.{
  FlowKey, FlowEntry, AttrSource, src_unknown, src_ebpf, src_proc, ipproto_icmp, ipproto_tcp,
  ipproto_udp, ipproto_icmpv6, ipproto_sctp,
}
use PortRules.{PortClassRule, g_port_class_rules}

pub flow_has_port : FlowKey → ℕ → Bool
flow_has_port key port = key.src_port == port || key.dst_port == port

unfoldable pub flow_has_any_port : FlowKey → List ℕ → Bool
unfolding flow_has_port
flow_has_any_port key [] = false
flow_has_any_port key (p ∷ ports) = flow_has_port key p || flow_has_any_port key ports

-- `strncmp(s, prefix, strlen(prefix)) == 0`
unfoldable pub starts_with : Bytes → Bytes → Bool
starts_with [] s = true
starts_with (p ∷ prefix) [] = false
starts_with (p ∷ prefix) (c ∷ s) = p == c && starts_with prefix s

abbrev multicast_prefixes : List Bytes
multicast_prefixes =
    codes "224."
    ∷ codes "225."
    ∷ codes "226."
    ∷ codes "227."
    ∷ codes "228."
    ∷ codes "229."
    ∷ codes "230."
    ∷ codes "231."
    ∷ codes "232."
    ∷ codes "233."
    ∷ codes "234."
    ∷ codes "235."
    ∷ codes "236."
    ∷ codes "237."
    ∷ codes "238."
    ∷ codes "239."
    ∷ codes "ff"
    ∷ []

pub any_prefix : List Bytes → Bytes → Bool
any_prefix [] ip = false
any_prefix (p ∷ ps) ip = starts_with p ip || any_prefix ps ip

unfoldable pub is_multicast_ip : Bytes → Bool
unfolding any_prefix starts_with
is_multicast_ip ip = any_prefix multicast_prefixes ip

-- The loop over the rules: the first rule with a port of the flow.
pub first_rule : FlowKey → List PortClassRule → Option Bytes
unfolding flow_has_port
first_rule key [] = none
first_rule key (r ∷ rules) =
    if flow_has_port key r.port then some r.class_name else first_rule key rules

unfoldable pub classify_by_port_rules : FlowKey → Option Bytes
unfolding first_rule g_port_class_rules
classify_by_port_rules key = first_rule key g_port_class_rules

unfoldable pub classify_icmp : ℕ → ℕ → ℕ → Option Bytes
classify_icmp proto type code =
    if proto == ipproto_icmp
    then some (
        if type == 8
        then codes "icmp_echo"
        else if type == 0
        then codes "icmp_echo_reply"
        else if type == 3
        then codes "icmp_unreachable"
        else if type == 11
        then codes "icmp_time_exceeded"
        else if type == 5
        then codes "icmp_redirect"
        else codes "icmp")
    else if proto == ipproto_icmpv6
    then some (
        if type == 134
        then codes "icmpv6_router_advert"
        else if type == 135 || type == 136
        then codes "icmpv6_nd"
        else if type == 128 || type == 129
        then codes "icmpv6_echo"
        else codes "icmpv6")
    else none

unfoldable pub classify_ip_proto : ℕ → Option Bytes
classify_ip_proto proto =
    if proto == 2
    then some (codes "igmp")
    else if proto == 47
    then some (codes "gre")
    else if proto == 50
    then some (codes "esp")
    else if proto == 51
    then some (codes "ah")
    else if proto == 89
    then some (codes "ospf")
    else if proto == 103
    then some (codes "pim")
    else if proto == 112
    then some (codes "vrrp")
    else if proto == ipproto_sctp
    then some (codes "sctp")
    else none

abbrev pub early_ports : List ℕ
early_ports = 5353 ∷ 5355 ∷ 53 ∷ 853 ∷ 123 ∷ []

-- The loop over the early ports.
pub early_loop : FlowKey → List ℕ → Option Bytes
unfolding flow_has_port classify_by_port_rules
early_loop key [] = none
early_loop key (p ∷ ports) =
    if flow_has_port key p then classify_by_port_rules key else early_loop key ports

unfoldable pub classify_by_early_port_rules : FlowKey → Option Bytes
unfolding early_loop
classify_by_early_port_rules key = early_loop key early_ports

abbrev pub http_ports : List ℕ
http_ports = 80 ∷ 8000 ∷ 8008 ∷ 8080 ∷ 8888 ∷ []

abbrev pub https_ports : List ℕ
https_ports = 443 ∷ 8443 ∷ 9443 ∷ []

abbrev pub quic_ports : List ℕ
quic_ports = 443 ∷ 8443 ∷ 9443 ∷ []

-- `x ? x : other`
abbrev pub or_class : Option Bytes → Bytes → Bytes
or_class none other = other
or_class (some c) other = c

-- The tests behind the early ports.
pub classify_late : FlowKey → Option Bytes → Option Bytes → Bytes
classify_late key sni host =
    if key.proto == ipproto_udp && flow_has_any_port key quic_ports
    then codes "quic"
    else if flow_has_any_port key http_ports && is_set host
    then codes "http"
    else if flow_has_any_port key https_ports && is_set sni
    then codes "https"
    else if is_multicast_ip key.dst_ip
    then codes "multicast"
    else if is_set sni || is_set host
    then codes "named_app"
    else if flow_has_any_port key https_ports
    then codes "https"
    else if flow_has_any_port key http_ports
    then codes "http"
    else or_class (classify_by_port_rules key) (codes "other")

unfoldable pub classify_flow : FlowKey → Option Bytes → Option Bytes → Bytes
unfolding classify_late
classify_flow key sni host =
    or_class (classify_by_early_port_rules key) (classify_late key sni host)

-- The choice of the class in `packet_handler`.
pub classify_packet : FlowKey → ℕ → ℕ → Option Bytes → Option Bytes → Bytes
classify_packet key icmp_type icmp_code sni host =
    if key.proto == ipproto_icmp || key.proto == ipproto_icmpv6
    then or_class (classify_icmp key.proto icmp_type icmp_code) (codes "other")
    else if not (key.proto == ipproto_tcp) && not (key.proto == ipproto_udp)
    then or_class (classify_ip_proto key.proto) (codes "other")
    else classify_flow key sni host

pub flow_connection_inferred : FlowEntry → Bool
flow_connection_inferred entry =
    entry.key.proto == ipproto_tcp && ltb 0 entry.packets && entry.connections == 0

pub is_attributed : AttrSource → Bool
is_attributed src_ebpf = true
is_attributed src_proc = true
is_attributed src_unknown = false

pub flow_tcp_seen_without_syn : FlowEntry → Bool → Bool
unfolding is_attributed
flow_tcp_seen_without_syn entry is_final =
    if not is_final
    then false
    else if not (entry.key.proto == ipproto_tcp)
    then false
    else if entry.packets == 0
    then false
    else if not (entry.connections == 0)
    then false
    else is_attributed entry.attr_source

pub flow_connections_effective : FlowEntry → Bool → ℕ
unfolding flow_tcp_seen_without_syn
flow_connections_effective entry is_final =
    if flow_tcp_seen_without_syn entry is_final then 1 else entry.connections
