-- ===== src/Classify/Priority.antt =====
-- Which port rule of src/main.c decides.
use if_flow.Base.{
  ℕ, true, false, ◌≡◌, refl, Option, none, some, List, [], ◌∷◌, ◌++◌, Bytes, arith, All, take, drop,
  ap, codes, Bool-cases, inl, inr,
}
use if_flow.Flow.{FlowKey}
use if_flow.Classify.{
  first_rule, flow_has_port, classify_by_port_rules, early_loop, early_ports,
  classify_by_early_port_rules,
}
use if_flow.Classify.PortRules.{PortClassRule, g_port_class_rules}

-- `c` is the class of a rule that matches, and no rule in front of that one does.
pub record FirstMatch (key : FlowKey) (rules : List PortClassRule) (c : Bytes) : Type 0 where
  pub before : List PortClassRule
  pub rule : PortClassRule
  pub after : List PortClassRule
  pub splits : rules ≡ before ++ rule ∷ after
  pub misses : All (λ r. flow_has_port key r.port ≡ false) before
  pub hits : flow_has_port key rule.port ≡ true
  pub class_is : c ≡ rule.class_name

abbrev pub Decides : FlowKey → List PortClassRule → Option Bytes → Type 0
Decides key rules none = All (λ r. flow_has_port key r.port ≡ false) rules
Decides key rules (some c) = FirstMatch key rules c

skip_rule :
    (key : FlowKey) (r : PortClassRule) (rules : List PortClassRule) (o : Option Bytes)
    → flow_has_port key r.port ≡ false
    → Decides key rules o
    → Decides key (r ∷ rules) o
skip_rule key r rules none h d = (h, d)
skip_rule key r rules (some c) h d = record {
  before = r ∷ d.before;
  rule = d.rule;
  after = d.after;
  splits = ap (◌∷◌ r) d.splits;
  misses = (h, d.misses);
  hits = d.hits;
  class_is = d.class_is;
}

first_rule-Decides :
    (key : FlowKey) (rules : List PortClassRule) → Decides key rules (first_rule key rules)
unfolding first_rule
first_rule-Decides key [] = tt
first_rule-Decides key (r ∷ rules) = elim (Bool-cases (flow_has_port key r.port)) [
  | inl h ↦ rw h (record {
    before = [];
    rule = r;
    after = rules;
    splits = refl;
    misses = tt;
    hits = h;
    class_is = refl;
  })
  | inr h ↦ rw h (skip_rule key r rules (first_rule key rules) h (first_rule-Decides key rules))
]

-- The class by ports is that of the first rule of the table with a port of the flow, and there is
-- none just where no rule matches.
pub classify_by_port_rules-Decides :
    (key : FlowKey) → Decides key g_port_class_rules (classify_by_port_rules key)
unfolding classify_by_port_rules
classify_by_port_rules-Decides key = first_rule-Decides key g_port_class_rules

abbrev rule_for : ℕ → Bytes → PortClassRule
rule_for port class_name = record { port = port; class_name = class_name }

abbrev early_rules : List PortClassRule
early_rules =
    rule_for 5353 (codes "mdns")
    ∷ rule_for 5355 (codes "llmnr")
    ∷ rule_for 53 (codes "dns")
    ∷ rule_for 853 (codes "dot")
    ∷ rule_for 123 (codes "ntp")
    ∷ []

early_split : g_port_class_rules ≡ early_rules ++ drop 5 g_port_class_rules
unfolding g_port_class_rules
early_split = refl

early_lem :
    (key : FlowKey) (rest : List PortClassRule)
    → classify_by_port_rules key ≡ first_rule key (early_rules ++ rest)
    → early_loop key early_ports ≡ first_rule key early_rules
unfolding early_loop first_rule
early_lem key rest e = ground arith

-- The early pass is the pass over the first five rules alone: no later rule of the table can decide
-- for a flow with an early port.
pub classify_by_early_port_rules_lem :
    (key : FlowKey) → classify_by_early_port_rules key ≡ first_rule key (take 5 g_port_class_rules)
unfolding classify_by_early_port_rules classify_by_port_rules g_port_class_rules
classify_by_early_port_rules_lem key =
    early_lem key (drop 5 g_port_class_rules) (ap (first_rule key) early_split)
