-- ===== src/Tests/Running.antt =====
-- src/main.c from the start of the program to its end, on two DNS queries.
use Prim.Native.String.{String}
use if_flow.Base.{
  ℕ, ◌+◌, ◌*◌, ◌^◌, ◌<◌, ◌≡◌, refl, ap, arith, true, false, none, some, List, [], ◌∷◌, map, Bytes,
  codes, pos, All, length, str_eq,
}
use if_flow.Flow.{second}
use if_flow.FlowTable.Runs.{run}
use if_flow.EbpfTracker.Attach.{Libbpf}
use if_flow.Headers.{dlt_en10mb}
use if_flow.Headers.RoundTrip.{frame}
use if_flow.Parser.Reads.{ok, Gives}
use if_flow.Config.{AppConfig, config_set_defaults, config_parse_args, parsed, is_help, flag_option}
use if_flow.Writer.{JsonlWriter}
use if_flow.Packet.RoundTrip.{datagram_key}
use if_flow.Agent.{App, Library, Outside, attribute, packet_handler}
use if_flow.Agent.Attribution.{IsAttributed, attribute_lem}
use if_flow.Agent.Handled.{AppInv, Handled, packet_handler-Gives}
use if_flow.Agent.Loop.{Captured, Turn, LoopState, FlushCall, run_loop}
use if_flow.Agent.Loop.Outcome.{IsBudget}
use if_flow.Agent.Loop.Events.{capture_of, run_events}
use if_flow.Agent.Loop.Refines.{run_loop_lem}
use if_flow.Agent.Loop.Drained.{IsTimely, Accounted, run_loop_accounts}
use if_flow.Agent.Output.{Disk, Flushed, flush_calls}
use if_flow.Agent.Output.Written.{IsUnlimited, written_texts, record_line, flush_calls_lem}
use if_flow.Agent.Main.{read_double, Startup, main, exits, init_app, loop_app, loop_at}
use if_flow.Agent.Main.Setup.{Ready, loop_app-Ready}
use if_flow.Agent.Main.Accounts.{Captures, main_accounts}
use if_flow.Agent.Main.Refuses.{no_file, main_refuses}
use if_flow.Tests.Packets.{raw_address, query}
use if_flow.Tests.Output.{entry}
use if_flow.Tests.Sockets.{scan_hex}
use if_flow.Tests.Resolving.{fs, no_ipv6}

abbrev lib : Library
lib = record {
  address_text = raw_address;
  ipv6_text = no_ipv6;
  ipv4_text = λ n. codes "10.0.0.2";
  scan_hex = scan_hex;
}

abbrev out_at : ℕ → Outside
out_at now = record {
  fs = fs;
  table_realloc = λ n. true;
  cache_realloc = λ n. true;
  ebpf_clock = λ i. now;
  clock = λ i. now;
  now_sec = now;
}

abbrev query_at : ℕ → Captured
query_at now = record { out = out_at now; bytes = frame query }

abbrev turn_at : ℕ → Turn
turn_at now = record {
  packets = query_at now ∷ [];
  failed = false;
  events = [];
  poll_clock = λ i. now;
  poll_rc = pos 0;
  now = now + 1;
}

abbrev turns : List Turn
turns = turn_at (60 * second) ∷ turn_at (61 * second) ∷ []

abbrev stop : ℕ
stop = 62 * second

abbrev open_disk : Disk
open_disk = record { stat_size = λ p. none; fuel = 1; fopen = λ p. true; day = codes "2026-01-02" }

abbrev libbpf : Libbpf
libbpf = record {
  opens = λ path. false;
  loads = true;
  programs = [];
  attaches = λ prog. true;
  has_events_map = true;
  makes_ring = true;
}

abbrev startup : List Bytes → Disk → Startup
startup args disk = record {
  args = args;
  atoi = λ s. pos 7;
  atol = λ s. pos 7;
  atof = λ s. pos 7;
  gethostname = codes "host";
  local_alloc = λ i. record { grown = true; copied = true };
  interface_text = λ family a. none;
  getifaddrs = none;
  libbpf = libbpf;
  pcap_opens = true;
  pcap_datalink = dlt_en10mb;
  open_disk = disk;
  disks = λ i. open_disk;
  grants = λ i n. true;
  start = 59 * second;
  turns = turns;
  stop = stop;
}

abbrev no_ebpf : List Bytes
no_ebpf = codes "--no-ebpf" ∷ []

abbrev cfg : AppConfig
cfg = record config_set_defaults { use_ebpf = false }

abbrev captures : Startup
captures = startup no_ebpf open_disk

-- The state at the start of the loop, with the hints on.
abbrev app : App
app = loop_app captures (init_app captures config_set_defaults)

ready : Ready 200_000 app
unfolding config_set_defaults
ready = loop_app-Ready captures config_set_defaults 200_000 refl (omega arith)

no_answers : length app.resolver.entries < 2 ^ 62
no_answers = omega (arith, ap (length {A = _}) ready.no_answers)

attribute_lem_example :
    IsAttributed lib
      (out_at second)
      app
      (datagram_key raw_address query)
      (attribute lib (out_at second) app (datagram_key raw_address query))
attribute_lem_example =
    attribute_lem lib (out_at second) app (datagram_key raw_address query) no_answers
      ready.inv.answers ready.inv.hints

packet_handler-Gives_example :
    Gives (Handled app) (packet_handler lib (out_at second) (frame query) app)
packet_handler-Gives_example =
    packet_handler-Gives lib (out_at second) (frame query) app (omega arith) no_answers ready.inv

abbrev begun : LoopState
begun = loop_at captures app

budget : IsBudget turns app
budget = record {
  packets = omega (arith, ap (length {A = _}) ready.no_answers);
  events = omega (arith, ap (length {A = _}) ready.no_hints);
}

timely : All (λ t. All (IsTimely stop) t.packets) turns
timely = (((omega arith, omega arith), tt), (((omega arith, omega arith), tt), tt))

run_loop_lem_example :
    (e : LoopState) × (run_loop lib turns stop begun ≡ ok e)
    × AppInv e.app
    × (capture_of e ≡ run (capture_of begun) (run_events lib turns stop begun))
run_loop_lem_example =
    run_loop_lem lib turns stop begun ((omega arith, tt), ((omega arith, tt), tt)) budget ready.inv

run_loop_accounts_example :
    (e : LoopState) × (run_loop lib turns stop begun ≡ ok e)
    × Accounted lib stop 200_000 (run_events lib turns stop begun) e
run_loop_accounts_example =
    run_loop_accounts lib stop turns begun 200_000 (omega arith) ready.no_flows refl timely budget
      ready.inv

abbrev utc : String → ℕ → Bytes
utc format t = codes "2026-01-02T00:00:00"

abbrev writer : JsonlWriter
writer = record {
  fp = none;
  base_path = codes "if_flow.jsonl";
  active_path = [];
  active_day = [];
  max_file_size_bytes = 0;
  active_index = 0;
}

abbrev call : FlushCall
call = record { entry = entry; is_final = true }

flush_calls_lem_example :
    (after : JsonlWriter) × (done : List Flushed) × (flush_calls utc app
        (λ i. open_disk)
        0
        (call ∷ call ∷ [])
        writer
      ≡ some (after, done))
    × (written_texts done ≡ map (record_line utc app) (call ∷ call ∷ []))
    × IsUnlimited after
flush_calls_lem_example =
    flush_calls_lem utc app (λ i. open_disk) 0 (call ∷ call ∷ []) writer (λ j path. refl)
      (record { has_base = refl; no_limit = refl })

parses :
    config_parse_args captures.atoi captures.atol (read_double captures) no_ebpf config_set_defaults
    ≡ (cfg, parsed)
unfolding config_parse_args config_set_defaults str_eq is_help flag_option
parses = refl

main_accounts_example : Captures lib utc captures cfg (main lib utc captures)
unfolding config_set_defaults
main_accounts_example =
    main_accounts lib utc captures cfg parses (λ s. omega arith) refl refl refl (λ path. refl)
      (λ i path. refl) refl timely (omega arith) (omega arith)

abbrev no_disk : Disk
no_disk = record open_disk { fopen = λ path. false }

main_refuses_example : main lib utc (startup no_ebpf no_disk) ≡ ok (exits 1)
unfolding config_set_defaults
main_refuses_example =
    main_refuses lib utc (startup no_ebpf no_disk) cfg parses refl refl (no_file (λ path. refl))
