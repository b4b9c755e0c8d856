-- ===== src/Classify/Symmetry.antt =====
-- The classifier of src/main.c and the two directions of a flow.
use if_flow.Base.{ℕ, ◌≡◌, refl, Option, List, [], ◌∷◌, Bytes, arith}
use if_flow.Flow.{FlowKey, reversed}
use if_flow.Classify.{
  first_rule, flow_has_port, flow_has_any_port, classify_by_port_rules, early_loop, early_ports,
  classify_by_early_port_rules, classify_late, classify_flow, is_multicast_ip, quic_ports,
  http_ports,
}
use if_flow.Classify.PortRules.{PortClassRule, g_port_class_rules}

has_port-reversed : (key : FlowKey) (p : ℕ) → flow_has_port (reversed key) p ≡ flow_has_port key p
unfolding flow_has_port
has_port-reversed key p = ground arith

has_any_port-reversed :
    (key : FlowKey) (ports : List ℕ)
    → flow_has_any_port (reversed key) ports ≡ flow_has_any_port key ports
unfolding flow_has_any_port
has_any_port-reversed key [] = refl
has_any_port-reversed key (p ∷ ports) =
    rw (has_port-reversed key p, has_any_port-reversed key ports)

first_rule-reversed :
    (key : FlowKey) (rules : List PortClassRule)
    → first_rule (reversed key) rules ≡ first_rule key rules
unfolding first_rule
first_rule-reversed key [] = refl
first_rule-reversed key (r ∷ rules) =
    rw (has_port-reversed key r.port, first_rule-reversed key rules)

port_rules-reversed :
    (key : FlowKey) → classify_by_port_rules (reversed key) ≡ classify_by_port_rules key
unfolding classify_by_port_rules
port_rules-reversed key = first_rule-reversed key g_port_class_rules

early_loop-reversed :
    (key : FlowKey) (ports : List ℕ) → early_loop (reversed key) ports ≡ early_loop key ports
unfolding early_loop
early_loop-reversed key [] = refl
early_loop-reversed key (p ∷ ports) =
    rw (has_port-reversed key p, port_rules-reversed key, early_loop-reversed key ports)

-- Both directions of a conversation get the same class, unless just one of its ends is a multicast
-- address.
pub classify_flow-reversed :
    (key : FlowKey) (sni host : Option Bytes)
    → is_multicast_ip key.src_ip ≡ is_multicast_ip key.dst_ip
    → classify_flow (reversed key) sni host ≡ classify_flow key sni host
unfolding classify_flow classify_late classify_by_early_port_rules
classify_flow-reversed key sni host h = rw (
  early_loop-reversed key early_ports,
  has_any_port-reversed key quic_ports,
  has_any_port-reversed key http_ports,
  port_rules-reversed key,
  h,
)
