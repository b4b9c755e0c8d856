-- ===== src/Agent/Main/Refuses.antt =====
-- `main` of src/main.c where it returns before anything is captured.
use Prim.Native.String.{String}
use if_flow.Base.{
  ℕ, ◌≡◌, ◌⊎◌, refl, ap, ◌∙◌, Bool, true, false, Option, none, some, Bytes, is_empty, Bool-cases,
  inl, inr, arith, if◌then◌else◌,
}
use if_flow.Config.{AppConfig, config_set_defaults, config_parse_args, parsed}
use if_flow.Writer.{
  JsonlWriter, split_base_ext, build_active_path, choose_active_index, keeps_file, reopen,
  rotate_to, jsonl_writer_rotate_if_needed, jsonl_writer_open,
}
use if_flow.Parser.Reads.{ok, ◌>>=◌}
use if_flow.Agent.{App, Library}
use if_flow.Agent.Output.{Disk}
use if_flow.Agent.Main.{
  Startup, read_double, blank_writer, init_app, exits, or_starved, selftest_run, capture_run,
  opened_run, configured_run, parsed_run, main,
}

-- The file system opens no file.
abbrev pub Denies : Disk → Type 0
Denies disk = (path : Bytes) → disk.fopen path ≡ false

-- What an open gives: a writer and a result, which says no for an empty path and where no file opens.
record OpenResult (disk : Disk) (path : Bytes) (result : Option (JsonlWriter × Bool)) : Type 0 where
  got : JsonlWriter × Bool
  is_got : result ≡ some got
  no_path : is_empty path ≡ true → got.1 ≡ false
  no_file : Denies disk → got.1 ≡ false

-- A writer without a file opens one or fails.
rotate_to-refused :
    (disk : Disk) (writer : JsonlWriter) (day path : Bytes)
    → writer.fp ≡ none
    → Denies disk
    → (rotate_to disk.stat_size disk.fopen writer day 0 path).1 ≡ false
unfolding rotate_to keeps_file reopen
rotate_to-refused disk writer day path closed denies = simp (closed, denies path)

rotate_if_needed-Result :
    (disk : Disk) (writer : JsonlWriter) (path : Bytes)
    → writer.fp ≡ none
    → writer.max_file_size_bytes ≡ 0
    → is_empty path ≡ false
    → OpenResult disk path
        (jsonl_writer_rotate_if_needed disk.stat_size disk.fuel disk.fopen disk.day writer)
unfolding jsonl_writer_rotate_if_needed
rotate_if_needed-Result disk writer path closed limit h =
    elim (Bool-cases (is_empty writer.base_path)) [
      | inl empty ↦ rw empty (record {
        got = (writer, false);
        is_got = refl;
        no_path = λ _. refl;
        no_file = λ _. refl;
      })
      | inr base ↦
          let (stem, ext) = split_base_ext writer.base_path 1024 128 in
          let target = build_active_path 1200 stem disk.day ext 0 in
          record {
            got = rotate_to disk.stat_size disk.fopen writer disk.day 0 target;
            is_got = rw (base, first_chunk stem ext) refl;
            no_path = λ empty. cc;
            no_file = rotate_to-refused disk writer disk.day target closed;
          }
    ]
  where
    first_chunk :
        (stem ext : Bytes)
        → choose_active_index disk.stat_size disk.fuel writer disk.day stem ext ≡ some 0
    first_chunk stem ext = unfold choose_active_index in ground (arith, limit)

-- With no limit on the size an open needs no fuel.
writer_open-Result :
    (disk : Disk) (path : Bytes)
    → OpenResult disk path
        (jsonl_writer_open disk.stat_size disk.fuel disk.fopen disk.day blank_writer path 0)
unfolding jsonl_writer_open
writer_open-Result disk path = elim (Bool-cases (is_empty path)) [
  | inl empty ↦ rw empty (record {
    got = (blank_writer, false);
    is_got = refl;
    no_path = λ _. refl;
    no_file = λ _. refl;
  })
  | inr some_path ↦ rw some_path (rotate_if_needed-Result disk _ path refl refl some_path)
]

-- Why nothing is captured: no path for the records, a disk that opens no file, or an interface that
-- libpcap does not open.
pub data Obstacle (su : Startup) (cfg : AppConfig) : Type 0 where
  no_path : is_empty cfg.json_path ≡ true → Obstacle su cfg
  no_file : Denies su.open_disk → Obstacle su cfg
  no_capture : su.pcap_opens ≡ false → Obstacle su cfg

module _ (lib : Library) (local_time : String → ℕ → Bytes) (su : Startup) where
  capture_run-refused :
      (app : App) (writer : JsonlWriter)
      → su.pcap_opens ≡ false
      → capture_run lib local_time su app writer ≡ ok (exits 1)
  unfolding capture_run
  capture_run-refused app writer closed = simp closed

  opened_run-refused :
      (cfg : AppConfig) (got : JsonlWriter × Bool)
      → cfg.selftest ≡ false
      → (su.pcap_opens ≡ false) ⊎ (got.1 ≡ false)
      → opened_run lib local_time su cfg got ≡ ok (exits 1)
  unfolding opened_run
  opened_run-refused cfg (writer, false) captures h = refl
  opened_run-refused cfg (writer, true) captures (inr h) = absurd (cc)
  opened_run-refused cfg (writer, true) captures (inl closed) =
      let tests = selftest_run lib local_time su (init_app su cfg) writer in
      let run = capture_run lib local_time su (init_app su cfg) writer in
      ap (λ (b : Bool). if b then tests else run) captures
      ∙ capture_run-refused (init_app su cfg) writer closed

  -- If the arguments, in which `atof` reads finite numbers, parse to `cfg`, without the self-test and with no limit on the size of a file,
  -- and there is an obstacle (the path for the records is empty, the disk opens no file, or libpcap
  -- does not open the interface), then `main` returns 1 before it reads a packet.
  pub main_refuses :
      (cfg : AppConfig)
      → config_parse_args su.atoi su.atol (read_double su) su.args config_set_defaults
        ≡ (cfg, parsed)
      → cfg.selftest ≡ false
      → cfg.json_max_file_size_bytes ≡ 0
      → Obstacle su cfg
      → main lib local_time su ≡ ok (exits 1)
  unfolding main configured_run
  main_refuses cfg parses captures limit obstacle =
      let open_yet = writer_open-Result su.open_disk cfg.json_path in
      ap (parsed_run lib local_time su) parses
      ∙ ap (λ r. or_starved r >>= opened_run lib local_time su cfg)
          (ap
              (jsonl_writer_open su.open_disk.stat_size su.open_disk.fuel su.open_disk.fopen
                su.open_disk.day blank_writer cfg.json_path)
              limit
            ∙ open_yet.is_got)
      ∙ opened_run-refused cfg open_yet.got captures (why obstacle)
    where
      why :
          Obstacle su cfg
          → (su.pcap_opens ≡ false)
            ⊎ ((writer_open-Result su.open_disk cfg.json_path).got.1 ≡ false)
      why (no_path empty) = inr ((writer_open-Result su.open_disk cfg.json_path).no_path empty)
      why (no_file denies) = inr ((writer_open-Result su.open_disk cfg.json_path).no_file denies)
      why (no_capture closed) = inl closed
