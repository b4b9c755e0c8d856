-- ===== src/Agent/Main.antt =====
-- `main` of src/main.c: how the program is set up, what ends it early, and the loop.
pub mod Setup
pub mod Accounts
pub mod Refuses
use Prim.Native.String.{String}
use if_flow.Base.{
  ℕ, zero, Bool, true, false, not, Option, none, some, List, [], ◌∷◌, Bytes, ℤ, pos, negsuc, take,
  ◌+◌, ◌-◌, ◌^◌, if◌then◌else◌,
}
use if_flow.Flow.{u64_mod}
use if_flow.FlowTable.{flow_table_init}
use if_flow.LocalIps.{LocalIpList, Alloc, SockAddr, local_ip_list_init, local_ip_list_load}
use if_flow.EbpfTracker.{EbpfTracker, ebpf_tracker_init, ebpf_tracker_close}
use if_flow.EbpfTracker.Attach.{Libbpf, ebpf_tracker_open}
use if_flow.Resolver.{resolver_init}
use if_flow.Resolver.Identity.{g_pid_cache}
use if_flow.Writer.{JsonlWriter, jsonl_writer_open, jsonl_writer_close}
use if_flow.Parser.Reads.{Parse, fault, starved, absent, ok, ◌>>=◌}
use if_flow.Config.{
  Double, finite, AppConfig, config_set_defaults, config_parse_args, Parsed, helped, unknown_option,
  parsed,
}
use if_flow.Agent.{App, Library}
use if_flow.Agent.Loop.{Turn, LoopState, FlushCall, run_loop}
use if_flow.Agent.Output.{Disk, Flushed, flush_calls}
use if_flow.Agent.Selftest.{run_selftest}

-- What the outside answers to `main`: the arguments and the readers of numbers, the name of the host,
-- the interfaces, libbpf, libpcap, the disk for the open and for each record, the allocator in the
-- self-test, and the time before the loop, the turns and the time behind them. `atof` is a reader that
-- gives finite numbers, in nanoseconds: no argument is an infinity or a NaN.
pub record Startup : Type 0 where
  pub args : List Bytes
  pub atoi : Bytes → ℤ
  pub atol : Bytes → ℤ
  pub atof : Bytes → ℤ
  pub gethostname : Bytes
  pub local_alloc : ℕ → Alloc
  pub interface_text : ℕ → Bytes → Option Bytes
  pub getifaddrs : Option (List (Option SockAddr))
  pub libbpf : Libbpf
  pub pcap_opens : Bool
  pub pcap_datalink : ℕ
  pub open_disk : Disk
  pub disks : ℕ → Disk
  pub grants : ℕ → ℕ → Bool
  pub start : ℕ
  pub turns : List Turn
  pub stop : ℕ

-- `(size_t)` of an int
abbrev pub to_size : ℤ → ℕ
to_size (pos n) = n
to_size (negsuc n) = u64_mod - (n + 1)

abbrev pub read_double : Startup → Bytes → Double
read_double su s = finite (su.atof s)

-- A time of the configuration, which the argument loop keeps positive (Config.Valid): with
-- `read_double` none is an infinity or a NaN.
abbrev pub to_time : Double → ℕ
to_time (finite (pos n)) = n
to_time _ = 0

-- The writer of the static `g_app`.
abbrev pub blank_writer : JsonlWriter
blank_writer = record {
  fp = none;
  base_path = [];
  active_path = [];
  active_day = [];
  max_file_size_bytes = 0;
  active_index = 0;
}

-- The state before the local addresses are loaded.
unfoldable pub init_app : Startup → AppConfig → App
init_app su cfg = record {
  cfg = cfg;
  flows = flow_table_init (to_size cfg.max_flows);
  linktype = 0;
  hostname = take 255 su.gethostname;
  local_ips = local_ip_list_init;
  ebpf =
      ebpf_tracker_init (to_time cfg.ebpf_ttl_sec) (to_time cfg.datapath_ttl_sec) cfg.use_datapath
        (some cfg.bpf_object);
  resolver = resolver_init (to_time cfg.resolver_ttl_sec) (to_time cfg.resolver_refresh_sec);
  pids = g_pid_cache;
}

unfoldable pub load_ips : Startup → App → App
load_ips su app = record app {
  local_ips = (local_ip_list_load su.interface_text su.local_alloc su.getifaddrs app.local_ips).0;
}

-- Where libbpf fails the program goes on without its hints.
unfoldable pub open_ebpf : Startup → App → App
open_ebpf su app =
    let (tracker, _, opened) = ebpf_tracker_open su.libbpf app.ebpf in
    if app.cfg.use_ebpf
    then (if opened then record app { ebpf = tracker } else record app {
      cfg = record app.cfg { use_ebpf = false };
      ebpf = ebpf_tracker_close tracker;
    })
    else app

-- The state at the loop.
abbrev pub loop_app : Startup → App → App
loop_app su app = record (open_ebpf su (load_ips su app)) { linktype = su.pcap_datalink }

-- How `main` ends: by a return before anything is captured, behind the self-test with its result, or
-- behind the loop, with the records that were flushed.
pub data MainEnd : Type 0 where
  exits : ℕ → MainEnd
  tested : Bool → LoopState → List Flushed → MainEnd
  looped : LoopState → List Flushed → MainEnd

abbrev pub exit_code : MainEnd → ℕ
exit_code (exits code) = code
exit_code (tested passed s done) = if passed then 0 else 1
exit_code (looped s done) = 0

-- A loop over chunks that runs out of fuel leaves no result.
abbrev pub or_starved {ℓ} : {A : Type ℓ} → Option A → Parse A
or_starved none = starved
or_starved (some a) = ok a

abbrev pub loop_at : Startup → App → LoopState
loop_at su app = record { app = app; last_flush = su.start; calls = [] }

module _ (lib : Library) (local_time : String → ℕ → Bytes) (su : Startup) where
  abbrev pub flush_end : LoopState → JsonlWriter → Parse (JsonlWriter × List Flushed)
  flush_end s writer = or_starved (flush_calls local_time s.app su.disks 0 s.calls writer)

  unfoldable pub capture_run : App → JsonlWriter → Parse MainEnd
  unfolding open_ebpf load_ips
  capture_run app writer =
      if su.pcap_opens
      then (do
        ended ← run_loop lib su.turns su.stop (loop_at su (loop_app su app))
        (_, done) ← flush_end ended writer
        ok (looped ended done))
      else ok (exits 1)

  unfoldable pub selftest_run : App → JsonlWriter → Parse MainEnd
  selftest_run app writer = do
    let (ended, passed) = run_selftest su.grants (loop_at su app)
    (_, done) ← flush_end ended writer
    ok (tested passed ended done)

  -- With the writer that was opened, or not.
  unfoldable pub opened_run : AppConfig → JsonlWriter × Bool → Parse MainEnd
  unfolding init_app capture_run selftest_run
  opened_run cfg (writer, opened) =
      let tests = selftest_run (init_app su cfg) writer in
      let captures = capture_run (init_app su cfg) writer in
      if opened then (if cfg.selftest then tests else captures) else ok (exits 1)

  unfoldable pub configured_run : AppConfig → Parse MainEnd
  unfolding opened_run
  configured_run cfg = do
    begun ← or_starved (
        jsonl_writer_open su.open_disk.stat_size su.open_disk.fuel su.open_disk.fopen
          su.open_disk.day blank_writer cfg.json_path cfg.json_max_file_size_bytes)
    opened_run cfg begun

  -- `config_parse_args` decides first: help is no error.
  abbrev pub parsed_run : AppConfig × Parsed → Parse MainEnd
  parsed_run (cfg, helped) = ok (exits 0)
  parsed_run (cfg, unknown_option) = ok (exits 1)
  parsed_run (cfg, parsed) = configured_run cfg

  unfoldable pub main : Parse MainEnd
  unfolding configured_run
  main = parsed_run (config_parse_args su.atoi su.atol (read_double su) su.args config_set_defaults)
