-- ===== src/Flow.antt =====
-- include/flow_table.h: the flow key, the flow entry and their enums; the names of the enums and the
-- two comparisons of keys (src/flow_table.c, src/ebpf_tracker.c, src/resolver.c).
-- Texts are the bytes in front of the NUL. Times, which the source keeps in doubles of seconds, are
-- whole nanoseconds since the epoch.
mod Keys
unfoldable pub use Keys.*
use if_flow.Base.{
  ℕ, ◌+◌, ◌-◌, ◌*◌, ◌/◌, ◌%◌, ◌^◌, Bool, ◌&&◌, Bytes, str_eq, ◌==◌, ℤ, ltb, leb, codes,
}

abbrev pub if_flow_max_ip_str : ℕ
if_flow_max_ip_str = 64

abbrev pub if_flow_max_proc_name : ℕ
if_flow_max_proc_name = 64

abbrev pub if_flow_max_cmdline : ℕ
if_flow_max_cmdline = 512

abbrev pub if_flow_max_workload : ℕ
if_flow_max_workload = 192

abbrev pub if_flow_max_name : ℕ
if_flow_max_name = 256

abbrev pub if_flow_max_class : ℕ
if_flow_max_class = 32

abbrev pub ipproto_icmp : ℕ
ipproto_icmp = 1

abbrev pub ipproto_tcp : ℕ
ipproto_tcp = 6

abbrev pub ipproto_udp : ℕ
ipproto_udp = 17

abbrev pub ipproto_icmpv6 : ℕ
ipproto_icmpv6 = 58

abbrev pub ipproto_sctp : ℕ
ipproto_sctp = 132

-- One second, in the unit of time.
abbrev pub second : ℕ
second = 1_000_000_000

-- The modulus of uint64_t and size_t.
abbrev pub u64_mod : ℕ
u64_mod = 2 ^ 64

-- `now - past < limit`, exact also where `now` is before `past`.
abbrev pub within : ℕ → ℕ → ℕ → Bool
within now past limit = ltb now (past + limit)

-- `ts >= now - ttl`, exact also where `ttl` is above `now`.
abbrev pub is_fresh : ℕ → ℕ → ℕ → Bool
is_fresh ts now ttl = leb now (ts + ttl)

-- A time cut to its whole second, and that to its minute.
unfoldable pub minute_bucket_for : ℕ → ℕ
minute_bucket_for now_sec = let now_u64 = now_sec / second in now_u64 - now_u64 % 60

pub record FlowEntry : Type 0 where
  pub key : FlowKey
  pub direction : FlowDirection
  pub pid : ℤ
  pub process : Bytes
  pub cmdline : Bytes
  pub workload : Bytes
  pub sni : Bytes
  pub host : Bytes
  pub class_tag : Bytes
  pub attr_source : AttrSource
  pub packets : ℕ
  pub bytes : ℕ
  pub connections : ℕ
  pub minute_bucket : ℕ
  pub first_seen : ℕ
  pub last_seen : ℕ
  pub last_emit : ℕ
  pub dirty : Bool

unfoldable pub attr_source_str : AttrSource → Bytes
attr_source_str src_ebpf = codes "ebpf"
attr_source_str src_proc = codes "proc"
attr_source_str src_unknown = codes "unknown"

unfoldable pub flow_direction_str : FlowDirection → Bytes
flow_direction_str dir_in = codes "in"
flow_direction_str dir_out = codes "out"
flow_direction_str dir_internal = codes "internal"
flow_direction_str dir_transit = codes "transit"
flow_direction_str dir_unknown = codes "unknown"
