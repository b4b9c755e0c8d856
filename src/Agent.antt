-- ===== src/Agent.antt =====
-- src/main.c: the state of the program and `packet_handler`, which asks the cache of the eBPF program
-- and, behind it, the resolver for the process of a packet.
pub mod Attribution
pub mod Handled
pub mod Loop
pub mod Output
pub mod Selftest
pub mod Main
use if_flow.Base.{
  ℕ, Bool, true, false, ◌&&◌, Option, none, some, [], Bytes, ℤ, negsuc, codes, is_empty,
  if◌then◌else◌,
}
use if_flow.Flow.{FlowKey, src_unknown, src_ebpf, src_proc, if_flow_max_proc_name}
use if_flow.FlowTable.{FlowTable, flow_table_touch}
use if_flow.LocalIps.{LocalIpList}
use if_flow.EbpfTracker.{EbpfTracker, ebpf_tracker_lookup}
use if_flow.Resolver.{Resolver, Texts, entry_sizes}
use if_flow.Resolver.ProcFs.{ProcFs}
use if_flow.Resolver.Identity.{PidCache, resolver_read_identity_by_pid}
use if_flow.Resolver.Scan.{resolver_lookup}
use if_flow.Parser.Reads.{Parse, fault, starved, absent, ok, ◌>>=◌}
use if_flow.Packet.{Identity, packet_touch}
use if_flow.Config.{AppConfig}

-- `app_t` without its writer, and the cache of identities of src/resolver.c.
pub record App : Type 0 where
  pub cfg : AppConfig
  pub flows : FlowTable
  pub linktype : ℕ
  pub hostname : Bytes
  pub local_ips : LocalIpList
  pub ebpf : EbpfTracker
  pub resolver : Resolver
  pub pids : PidCache

-- The texts that `inet_ntop` gives for the bytes of an address, for those of an IPv6 address in the
-- resolver, and for an IPv4 address as a number; and `%x` of `sscanf`.
pub record Library : Type 0 where
  pub address_text : Bytes → Bytes
  pub ipv6_text : Bytes → Option Bytes
  pub ipv4_text : ℕ → Bytes
  pub scan_hex : Option ℕ → Bytes → Option (ℕ × Bytes)

-- What the outside answers while a packet is handled: the files of /proc, the allocator to the table
-- and to the cache, the clock to the two caches, and the time that goes to the table.
pub record Outside : Type 0 where
  pub fs : ProcFs
  pub table_realloc : ℕ → Bool
  pub cache_realloc : ℕ → Bool
  pub ebpf_clock : ℕ → ℕ
  pub clock : ℕ → ℕ
  pub now_sec : ℕ

-- The resolver and its caches afterwards, and what the packet gets.
abbrev pub Attributed : Type 0
Attributed = Resolver × PidCache × Identity

-- `if (workload[0] == '\0') snprintf(workload, ..., "HOST")`
abbrev pub or_host : Bytes → Bytes
or_host workload = if is_empty workload then codes "HOST" else workload

abbrev pub by_hint : ℤ → Texts → Identity
by_hint pid texts = record {
  pid = pid;
  process = texts.process;
  cmdline = texts.cmdline;
  workload = or_host texts.workload;
  attr_source = src_ebpf;
}

-- The identity of an answer of the resolver; without one the buffers stay empty and `pid` is -1.
abbrev pub by_proc : Option (ℤ × Texts) → Identity
by_proc none = record {
  pid = negsuc 0;
  process = [];
  cmdline = [];
  workload = [];
  attr_source = src_unknown;
}
by_proc (some (pid, texts)) = record {
  pid = pid;
  process = texts.process;
  cmdline = texts.cmdline;
  workload = texts.workload;
  attr_source = src_proc;
}

-- `g_app.cfg.use_ebpf && ebpf_tracker_lookup(...)`
abbrev pub hint_for : Outside → App → FlowKey → Option (ℤ × Bytes)
hint_for out app key =
    if app.cfg.use_ebpf
    then ebpf_tracker_lookup out.ebpf_clock key if_flow_max_proc_name app.ebpf
    else none

module _ (lib : Library) where
  abbrev pub with_hint : Outside → App → ℤ → Bytes → Attributed
  with_hint out app pid process =
      let (texts, known) =
        resolver_read_identity_by_pid out.fs out.clock pid entry_sizes
          (record { process = process; cmdline = []; workload = [] }) app.pids in
      (app.resolver, known, by_hint pid texts)

  abbrev pub with_proc : Outside → App → FlowKey → Attributed
  with_proc out app key =
      let (resolver, known, answer) =
        resolver_lookup lib.scan_hex lib.ipv6_text out.fs out.cache_realloc out.clock key
          entry_sizes app.resolver app.pids in
      (resolver, known, by_proc answer)

  unfoldable pub attribute : Outside → App → FlowKey → Attributed
  attribute out app key = elim (hint_for out app key) [
    | some (pid, process) ↦ with_hint out app pid process
    | none ↦ with_proc out app key
  ]

  -- The state afterwards; `absent` is an early return.
  unfoldable pub packet_handler : Outside → Bytes → App → Parse App
  unfolding attribute
  packet_handler out packet app = do
    let answer = λ (key : FlowKey). (attribute out app key).2
    touch ← packet_touch lib.address_text app.local_ips answer app.linktype out.now_sec packet
    let (resolver, known, _) = attribute out app touch.key
    ok (record app {
      flows = flow_table_touch out.table_realloc touch app.flows;
      resolver = resolver;
      pids = known;
    })
