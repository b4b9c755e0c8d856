-- ===== src/Classify/Names.antt =====
-- The class names of src/main.c against the buffer that src/flow_table.c keeps them in.
use if_flow.Base.{
  ℕ, Bool, true, ◌&&◌, ◌≡◌, refl, Option, none, some, List, [], ◌∷◌, Bytes, ltb, arith, length,
  safe_copy, safe_copy_all, is_set,
}
use if_flow.Flow.{FlowKey, if_flow_max_class}
use if_flow.Classify.{
  first_rule, classify_by_port_rules, early_loop, early_ports, classify_by_early_port_rules,
  classify_icmp, classify_ip_proto, classify_late, classify_flow, classify_packet,
}
use if_flow.Classify.PortRules.{PortClassRule, g_port_class_rules}

-- Not empty, and short enough for the buffer with its terminator.
abbrev fits : Bytes → Bool
fits c = ltb 0 (length c) && ltb (length c) if_flow_max_class

all_fit : List PortClassRule → Bool
all_fit [] = true
all_fit (r ∷ rules) = fits r.class_name && all_fit rules

rules_fit : all_fit g_port_class_rules ≡ true
unfolding all_fit g_port_class_rules
rules_fit = refl

abbrev Fits? : Option Bytes → Type 0
Fits? none = Unit {0}
Fits? (some c) = fits c ≡ true

first_rule-fits :
    (key : FlowKey) (rules : List PortClassRule)
    → all_fit rules ≡ true
    → Fits? (first_rule key rules)
unfolding first_rule all_fit
first_rule-fits key [] h = tt
first_rule-fits key (r ∷ rules) h = ground (arith, first_rule-fits key rules)

port_rules-fits : (key : FlowKey) → Fits? (classify_by_port_rules key)
unfolding classify_by_port_rules
port_rules-fits key = first_rule-fits key g_port_class_rules rules_fit

early_loop-fits : (key : FlowKey) (ports : List ℕ) → Fits? (early_loop key ports)
unfolding early_loop
early_loop-fits key [] = tt
early_loop-fits key (p ∷ ports) = ground (arith, port_rules-fits key, early_loop-fits key ports)

icmp-fits : (proto type code : ℕ) → Fits? (classify_icmp proto type code)
unfolding classify_icmp
icmp-fits proto type code = ground arith

ip_proto-fits : (proto : ℕ) → Fits? (classify_ip_proto proto)
unfolding classify_ip_proto
ip_proto-fits proto = ground arith

late-fits : (key : FlowKey) (sni host : Option Bytes) → fits (classify_late key sni host) ≡ true
unfolding classify_late
late-fits key sni host = ground (arith, port_rules-fits key)

flow-fits : (key : FlowKey) (sni host : Option Bytes) → fits (classify_flow key sni host) ≡ true
unfolding classify_flow classify_by_early_port_rules
flow-fits key sni host = ground (arith, early_loop-fits key early_ports, late-fits key sni host)

packet-fits :
    (key : FlowKey) (type code : ℕ) (sni host : Option Bytes)
    → fits (classify_packet key type code sni host) ≡ true
unfolding classify_packet
packet-fits key type code sni host =
    ground (arith, icmp-fits key.proto type code, ip_proto-fits key.proto, flow-fits key sni host)

fits-stored :
    (c dst : Bytes)
    → fits c ≡ true
    → (is_set (some c) ≡ true) × (safe_copy dst if_flow_max_class (some c) ≡ c)
fits-stored [] dst h = ground arith
fits-stored (x ∷ c) dst h = (refl, safe_copy_all dst if_flow_max_class (x ∷ c) (ground arith))

-- Whatever a packet is, its class is a name, and the flow table's buffer takes the whole of it.
pub classify_packet_stored :
    (key : FlowKey) (type code : ℕ) (sni host : Option Bytes) (dst : Bytes)
    → (is_set (some (classify_packet key type code sni host)) ≡ true)
      × (safe_copy dst if_flow_max_class (some (classify_packet key type code sni host))
          ≡ classify_packet key type code sni host)
classify_packet_stored key type code sni host dst =
    fits-stored (classify_packet key type code sni host) dst (packet-fits key type code sni host)
