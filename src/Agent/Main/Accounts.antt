-- ===== src/Agent/Main/Accounts.antt =====
-- `main` of src/main.c from its arguments to its end, where it captures.
use Prim.Native.String.{String}
use if_flow.Base.{
  ℕ, suc, ◌^◌, ◌<◌, ◌≡◌, refl, ap, subst, ◌∙◌, Bool, true, false, some, List, [], ◌∷◌, Bytes, ℤ,
  pos, negsuc, arith, length, map, All, is_empty, copy_loop, if◌then◌else◌,
}
use if_flow.Config.{Double, AppConfig, config_set_defaults, config_parse_args, Parsed, parsed}
use if_flow.Config.Valid.{AtLeast, Below, IsConfig, defaults-IsConfig, parse_args-IsConfig}
use if_flow.Writer.{JsonlWriter, jsonl_writer_open}
use if_flow.Parser.Reads.{Parse, ok, ◌>>=◌}
use if_flow.Agent.{App, Library}
use if_flow.Agent.Loop.{LoopState, run_loop}
use if_flow.Agent.Loop.Outcome.{packets_in, events_in}
use if_flow.Agent.Loop.Events.{run_events}
use if_flow.Agent.Loop.Drained.{IsTimely, Accounted, run_loop_accounts}
use if_flow.Agent.Output.{Disk, Flushed, flush_calls}
use if_flow.Agent.Output.Written.{
  IsOpen, Opens, written_texts, record_line, rotate_if_needed-IsOpen, flush_calls_lem,
}
use if_flow.Agent.Main.{
  Startup, read_double, blank_writer, init_app, loop_app, MainEnd, looped, loop_at, capture_run,
  or_starved, selftest_run, opened_run, configured_run, parsed_run, main,
}
use if_flow.Agent.Main.Setup.{loop_app-Ready}

copy_loop-is_empty :
    (room : ℕ) (src : Bytes) → is_empty src ≡ false → is_empty (copy_loop (suc room) src) ≡ false
unfolding copy_loop
copy_loop-is_empty room [] h = h
copy_loop-is_empty room (c ∷ src) h = refl

-- Where the disk opens files, a path and no limit on the size open a writer.
fresh_writer-IsOpen :
    (disk : Disk) (path : Bytes)
    → Opens disk
    → is_empty path ≡ false
    → IsOpen (jsonl_writer_open disk.stat_size disk.fuel disk.fopen disk.day blank_writer path 0)
unfolding jsonl_writer_open
fresh_writer-IsOpen disk path opens h = rw h (
    rotate_if_needed-IsOpen disk.stat_size disk.fuel disk.fopen disk.day _ opens
      (record { has_base = copy_loop-is_empty 1022 path h; no_limit = refl }))

-- The flow limit as a number.
flow_limit :
    (atof : Bytes → Double) (cfg : AppConfig)
    → IsConfig atof cfg
    → (n : ℕ) × (cfg.max_flows ≡ pos n) × (n < 2 ^ 31)
flow_limit atof cfg v = by_sign cfg.max_flows v.flows_low v.flows_high
  where
    by_sign : (z : ℤ) → AtLeast 1024 z → Below (2 ^ 31) z → (n : ℕ) × (z ≡ pos n) × (n < 2 ^ 31)
    by_sign (pos n) low high = (n, refl, high)
    by_sign (negsuc n) low high = absurd low

module _ (lib : Library) (local_time : String → ℕ → Bytes) (su : Startup) where
  capture_run_lem :
      (app : App) (writer after : JsonlWriter) (e : LoopState) (done : List Flushed)
      → su.pcap_opens ≡ true
      → run_loop lib su.turns su.stop (loop_at su (loop_app su app)) ≡ ok e
      → flush_calls local_time e.app su.disks 0 e.calls writer ≡ some (after, done)
      → capture_run lib local_time su app writer ≡ ok (looped e done)
  unfolding capture_run
  capture_run_lem app writer after e done pcap ran wrote = rw (pcap, ran, wrote) refl

  configured_run_lem :
      (cfg : AppConfig) (writer : JsonlWriter) (end : MainEnd)
      → cfg.selftest ≡ false
      → jsonl_writer_open su.open_disk.stat_size su.open_disk.fuel su.open_disk.fopen
          su.open_disk.day blank_writer cfg.json_path cfg.json_max_file_size_bytes
        ≡ some (writer, true)
      → capture_run lib local_time su (init_app su cfg) writer ≡ ok end
      → configured_run lib local_time su cfg ≡ ok end
  unfolding configured_run opened_run
  configured_run_lem cfg writer end captures opened ran =
      let tests = selftest_run lib local_time su (init_app su cfg) writer in
      let run = capture_run lib local_time su (init_app su cfg) writer in
      ap (λ r. or_starved r >>= opened_run lib local_time su cfg) opened
      ∙ ap (λ (b : Bool). if b then tests else run) captures
      ∙ ran

  -- How a capture ends.
  pub record Captures (cfg : AppConfig) (m : Parse MainEnd) : Type 0 where
    pub max_flows : ℕ
    pub ended : LoopState
    pub done : List Flushed
    pub is_limit : cfg.max_flows ≡ pos max_flows
    pub is_done : m ≡ ok (looped ended done)
    pub is_complete :
        Accounted lib su.stop max_flows
          (run_events lib su.turns su.stop (loop_at su (loop_app su (init_app su cfg))))
          ended
    pub texts : written_texts done ≡ map (record_line local_time ended.app) ended.calls

  -- Whatever /proc, the interfaces, libbpf, the clock and the allocator answer, and whatever the bytes
  -- of the packets are: if `atoi` gives an int, `atof` a finite number, and the arguments parse to `cfg`, without the self-test,
  -- with a path for the records and no limit on the size of a file, if the disk opens every file and
  -- libpcap the interface, if the packets of the turns have fewer than 2 ^ 64 bytes each and none comes
  -- after the stop, and if there are fewer than 2 ^ 62 packets and events, then `main` runs to its end
  -- behind the loop. There the table is empty, the packets and bytes of the packets that found an entry
  -- or room for one are, modulo 2 ^ 64, those of the final records, and each call of `flush_flow_entry`
  -- has appended its record to a file, in the order of the calls.
  pub main_accounts :
      (cfg : AppConfig)
      → config_parse_args su.atoi su.atol (read_double su) su.args config_set_defaults
        ≡ (cfg, parsed)
      → ((s : Bytes) → Below (2 ^ 31) (su.atoi s))
      → cfg.selftest ≡ false
      → is_empty cfg.json_path ≡ false
      → cfg.json_max_file_size_bytes ≡ 0
      → Opens su.open_disk
      → ((i : ℕ) → Opens (su.disks i))
      → su.pcap_opens ≡ true
      → All (λ t. All (IsTimely su.stop) t.packets) su.turns
      → packets_in su.turns < 2 ^ 62
      → events_in su.turns < 2 ^ 62
      → Captures cfg (main lib local_time su)
  unfolding main
  main_accounts cfg parses ints captures path limit opens disks pcap timely packets events =
      let valid : IsConfig (read_double su) cfg =
        subst (IsConfig (read_double su)) (ap (λ (p : AppConfig × Parsed). p.0) parses) (
          parse_args-IsConfig su.atoi su.atol (read_double su) su.args config_set_defaults ints
            (defaults-IsConfig (read_double su))) in
      let (max_flows, is_limit, small) = flow_limit (read_double su) cfg valid in
      let ready = loop_app-Ready su cfg max_flows is_limit small in
      let open_yet = fresh_writer-IsOpen su.open_disk cfg.json_path opens path in
      let begun = loop_at su (loop_app su (init_app su cfg)) in
      let (e, ran, complete) =
        run_loop_accounts lib su.stop su.turns begun max_flows small ready.no_flows refl timely
          (record {
            packets = omega (arith, packets, ap (length {A = _}) ready.no_answers);
            events = omega (arith, events, ap (length {A = _}) ready.no_hints);
          })
          ready.inv in
      let (after, done, wrote, texts, _) =
        flush_calls_lem local_time e.app su.disks 0 e.calls open_yet.after disks
          open_yet.unlimited in
      record {
        max_flows = max_flows;
        ended = e;
        done = done;
        is_limit = is_limit;
        is_done =
            ap (parsed_run lib local_time su) parses
            ∙ configured_run_lem cfg open_yet.after (looped e done) captures
                (ap
                    (jsonl_writer_open su.open_disk.stat_size su.open_disk.fuel su.open_disk.fopen
                      su.open_disk.day blank_writer cfg.json_path)
                    limit
                  ∙ open_yet.succeeds)
                (capture_run_lem (init_app su cfg) open_yet.after after e done pcap ran wrote);
        is_complete = complete;
        texts = texts;
      }
