-- ===== src/Agent/Output/Written.antt =====
-- src/main.c and src/writer_jsonl.c: no record is lost on its way to the file.
use Prim.Native.String.{String}
use if_flow.Base.{
  ℕ, suc, ◌≡◌, refl, Bool, true, false, Option, none, some, List, [], ◌∷◌, ◌++◌, map, Bytes,
  is_empty, arith, if◌then◌else◌, Bool-cases, inl, inr,
}
use if_flow.Writer.{
  JsonlWriter, is_held, split_base_ext, build_active_path, choose_active_index, keeps_file, reopen,
  rotate_to, jsonl_writer_rotate_if_needed,
}
use if_flow.Writer.Record.{flow_record, jsonl_writer_write_flow}
use if_flow.Agent.{App}
use if_flow.Agent.Loop.{FlushCall}
use if_flow.Agent.Output.{Disk, Flushed, stdout_line, flush_flow_entry, flush_calls}

-- The writer has a base path and no limit on the size of a file.
pub record IsUnlimited (writer : JsonlWriter) : Type 0 where
  pub has_base : is_empty writer.base_path ≡ false
  pub no_limit : writer.max_file_size_bytes ≡ 0

-- An open file remains, under an unlimited writer.
pub record IsOpen (result : Option (JsonlWriter × Bool)) : Type 0 where
  pub after : JsonlWriter
  pub path : Bytes
  pub succeeds : result ≡ some (after, true)
  pub is_open : after.fp ≡ some path
  pub unlimited : IsUnlimited after

held_path : (o : Option Bytes) → is_held o ≡ true → (path : Bytes) × (o ≡ some path)
held_path none h = absurd (cc)
held_path (some path) h = (path, refl)

keeps_file-is_held :
    (stat_size : Bytes → Option ℕ) (writer : JsonlWriter) (day path : Bytes)
    → keeps_file stat_size writer day 0 path ≡ true
    → is_held writer.fp ≡ true
unfolding keeps_file
keeps_file-is_held stat_size writer day path h = ground (arith, h)

rotate_to-IsOpen :
    (stat_size : Bytes → Option ℕ) (fopen : Bytes → Bool) (day path : Bytes) (writer : JsonlWriter)
    → ((p : Bytes) → fopen p ≡ true)
    → IsUnlimited writer
    → IsOpen (some (rotate_to stat_size fopen writer day 0 path))
rotate_to-IsOpen stat_size fopen day path writer opens v =
    elim (Bool-cases (keeps_file stat_size writer day 0 path)) [
      | inl same ↦
          let (held, e) = held_path writer.fp (keeps_file-is_held stat_size writer day path same) in
          record {
            after = writer;
            path = held;
            succeeds = unfold rotate_to in rw same refl;
            is_open = e;
            unlimited = v;
          }
      | inr other ↦ record {
        after = (reopen stat_size fopen writer day 0 path).0;
        path = path;
        succeeds = unfold rotate_to reopen in rw (other, opens path) refl;
        is_open = unfold reopen in rw (opens path) refl;
        unlimited =
            unfold reopen in
            rw (opens path) (record { has_base = v.has_base; no_limit = v.no_limit });
      }
    ]

-- With no limit the chunk is the first, and a file that may be opened is open.
pub rotate_if_needed-IsOpen :
    (stat_size : Bytes → Option ℕ) (fuel : ℕ) (fopen : Bytes → Bool) (day : Bytes)
    (writer : JsonlWriter)
    → ((path : Bytes) → fopen path ≡ true)
    → IsUnlimited writer
    → IsOpen (jsonl_writer_rotate_if_needed stat_size fuel fopen day writer)
unfolding jsonl_writer_rotate_if_needed
rotate_if_needed-IsOpen stat_size fuel fopen day writer opens v =
    let (stem, ext) = split_base_ext writer.base_path 1024 128 in
    let first : choose_active_index stat_size fuel writer day stem ext ≡ some 0 =
      first_chunk stem ext in
    rw (v.has_base, first)
      (rotate_to-IsOpen stat_size fopen day (build_active_path 1200 stem day ext 0) writer opens v)
  where
    first_chunk :
        (stem ext : Bytes) → choose_active_index stat_size fuel writer day stem ext ≡ some 0
    first_chunk stem ext = unfold choose_active_index in ground (arith, v.no_limit)

-- The disk opens every file.
abbrev pub Opens : Disk → Type 0
Opens disk = (path : Bytes) → disk.fopen path ≡ true

-- The texts that are written, in order.
unfoldable pub written_texts : List Flushed → List Bytes
written_texts [] = []
written_texts (f ∷ fs) = elim f.written [
  | none ↦ written_texts fs
  | some (path, text) ↦ text ∷ written_texts fs
]

module _ (local_time : String → ℕ → Bytes) (app : App) where
  -- The record of a call, with its line end.
  abbrev pub record_line : FlushCall → Bytes
  record_line call =
      flow_record local_time app.hostname app.cfg.interface call.entry call.is_final
        app.cfg.include_identity_fields
      ++ b'\n' ∷ []

  record Wrote (call : FlushCall) (result : Option (JsonlWriter × Flushed)) : Type 0 where
    after : JsonlWriter
    flushed : Flushed
    path : Bytes
    is_done : result ≡ some (after, flushed)
    has_text : flushed.written ≡ some (path, record_line call)
    unlimited : IsUnlimited after

  write_flow_lem :
      (disk : Disk) (call : FlushCall) (writer : JsonlWriter)
      (o : IsOpen
        (jsonl_writer_rotate_if_needed disk.stat_size disk.fuel disk.fopen disk.day writer))
      → jsonl_writer_write_flow local_time disk.stat_size disk.fuel disk.fopen disk.day
          (some app.hostname)
          (some app.cfg.interface)
          call.entry
          call.is_final
          app.cfg.include_identity_fields
          writer
        ≡ some (o.after, some (o.path, record_line call))
  unfolding jsonl_writer_write_flow
  write_flow_lem disk call writer o = rw (o.succeeds, jsonl_writer_write_flow, o.is_open) refl

  flush_flow_entry-Wrote :
      (disk : Disk) (call : FlushCall) (writer : JsonlWriter)
      → Opens disk
      → IsUnlimited writer
      → Wrote call (flush_flow_entry local_time app disk call writer)
  unfolding flush_flow_entry
  flush_flow_entry-Wrote disk call writer opens v =
      let open_yet =
        rotate_if_needed-IsOpen disk.stat_size disk.fuel disk.fopen disk.day writer opens v in
      record {
        after = open_yet.after;
        flushed = record {
          printed =
              if app.cfg.no_stdout
              then none
              else some (stdout_line local_time app call.entry call.is_final);
          written = some (open_yet.path, record_line call);
        };
        path = open_yet.path;
        is_done = rw (write_flow_lem disk call writer open_yet, flush_flow_entry) refl;
        has_text = refl;
        unlimited = open_yet.unlimited;
      }

  -- Whatever the file system says of sizes, if it opens every file and the writer has a base path
  -- and no limit on the size of a file, each call of `flush_flow_entry` appends its record, and the
  -- records come in the order of the calls.
  pub flush_calls_lem :
      (disks : ℕ → Disk) (i : ℕ) (calls : List FlushCall) (writer : JsonlWriter)
      → ((j : ℕ) → Opens (disks j))
      → IsUnlimited writer
      → (after : JsonlWriter) × (done : List Flushed) × (flush_calls local_time app disks i calls
            writer
          ≡ some (after, done))
        × (written_texts done ≡ map record_line calls)
        × IsUnlimited after
  unfolding flush_calls written_texts
  flush_calls_lem disks i [] writer opens v = (writer, [], refl, refl, v)
  flush_calls_lem disks i (call ∷ calls) writer opens v =
      let first = flush_flow_entry-Wrote (disks i) call writer (opens i) v in
      let (after, done, ran, texts, unlimited) =
        flush_calls_lem disks (suc i) calls first.after opens first.unlimited in
      (
        after,
        first.flushed ∷ done,
        rw (first.is_done, flush_calls, ran) refl,
        rw (first.has_text, written_texts, texts) refl,
        unlimited,
      )
