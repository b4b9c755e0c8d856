-- ===== src/Flow/Keys.antt =====
-- include/flow_table.h: `flow_key_t` and the enums. `flow_key_equal` of src/flow_table.c, which
-- src/ebpf_tracker.c and src/resolver.c repeat, and their `flow_key_equal_rev`.
use if_flow.Base.{ℕ, ◌≡◌, ◌↔◌, Bool, true, false, ◌&&◌, Bytes, arith, str_eq, str_eq_iff, ◌==◌}

pub data FlowDirection : Type 0 where
  dir_unknown dir_in dir_out dir_internal dir_transit : FlowDirection

pub data AttrSource : Type 0 where
  src_unknown src_ebpf src_proc : AttrSource

pub record FlowKey : Type 0 where
  pub proto : ℕ
  pub src_ip : Bytes
  pub src_port : ℕ
  pub dst_ip : Bytes
  pub dst_port : ℕ

unfoldable pub flow_key_equal : FlowKey → FlowKey → Bool
flow_key_equal a b =
    a.proto == b.proto
    && a.src_port == b.src_port
    && a.dst_port == b.dst_port
    && str_eq a.src_ip b.src_ip
    && str_eq a.dst_ip b.dst_ip

unfoldable pub flow_key_equal_rev : FlowKey → FlowKey → Bool
flow_key_equal_rev a b =
    a.proto == b.proto
    && a.src_port == b.dst_port
    && a.dst_port == b.src_port
    && str_eq a.src_ip b.dst_ip
    && str_eq a.dst_ip b.src_ip

-- The key of the packets that go the other way.
abbrev pub reversed : FlowKey → FlowKey
reversed k = record {
  proto = k.proto;
  src_ip = k.dst_ip;
  src_port = k.dst_port;
  dst_ip = k.src_ip;
  dst_port = k.src_port;
}

pub flow_key_equal_iff : (a b : FlowKey) → (flow_key_equal a b ≡ true) ↔ (a ≡ b)
unfolding flow_key_equal
flow_key_equal_iff a b = ground (arith, str_eq_iff a.src_ip b.src_ip, str_eq_iff a.dst_ip b.dst_ip)

pub flow_key_equal_rev_iff : (a b : FlowKey) → (flow_key_equal_rev a b ≡ true) ↔ (a ≡ reversed b)
unfolding flow_key_equal_rev
flow_key_equal_rev_iff a b =
    ground (arith, str_eq_iff a.src_ip b.dst_ip, str_eq_iff a.dst_ip b.src_ip)

-- `a == b` on directions, an enum.
unfoldable pub direction_eq : FlowDirection → FlowDirection → Bool
direction_eq dir_unknown dir_unknown = true
direction_eq dir_in dir_in = true
direction_eq dir_out dir_out = true
direction_eq dir_internal dir_internal = true
direction_eq dir_transit dir_transit = true
direction_eq _ _ = false

pub direction_eq_iff : (a b : FlowDirection) → (direction_eq a b ≡ true) ↔ (a ≡ b)
unfolding direction_eq
direction_eq_iff dir_unknown b = ground arith
direction_eq_iff dir_in b = ground arith
direction_eq_iff dir_out b = ground arith
direction_eq_iff dir_internal b = ground arith
direction_eq_iff dir_transit b = ground arith
