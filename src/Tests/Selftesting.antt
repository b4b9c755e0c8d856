-- ===== src/Tests/Selftesting.antt =====
-- The comparisons of `run_selftest` in src/main.c hold.
use if_flow.Base.{◌≡◌, refl, true, str_eq}
use if_flow.Classify.{
  classify_flow, classify_by_early_port_rules, flow_has_any_port, is_multicast_ip, classify_icmp,
  classify_ip_proto,
}
use if_flow.Agent.Selftest.Cases.{all_pass, flow_checks, icmp_checks, proto_checks}

flow_checks_pass : all_pass flow_checks ≡ true
unfolding all_pass str_eq classify_flow classify_by_early_port_rules flow_has_any_port
    is_multicast_ip
flow_checks_pass = refl

icmp_checks_pass : all_pass icmp_checks ≡ true
unfolding all_pass classify_icmp str_eq
icmp_checks_pass = refl

proto_checks_pass : all_pass proto_checks ≡ true
unfolding all_pass classify_ip_proto str_eq
proto_checks_pass = refl
