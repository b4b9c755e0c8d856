-- ===== src/Tests/Output.antt =====
-- src/writer_jsonl.c: escapes, paths, chunks and a record.
use Prim.Native.String.{String}
use if_flow.Base.{
  ℕ, zero, suc, ◌*◌, ◌<◌, ◌≡◌, ◌⊎◌, refl, arith, inl, true, false, Option, none, some, [], ◌∷◌,
  ◌++◌, Bytes, codes, pos, All, str_eq, if◌then◌else◌,
}
use if_flow.Flow.{FlowEntry, dir_out, src_ebpf, second}
use if_flow.Json.{json_escape, decimal}
use if_flow.Json.Reader.{read_string}
use if_flow.Json.RoundTrip.{read_string-json_escape}
use if_flow.Json.Inline.{IsInline, decimal-IsInline}
use if_flow.Writer.{
  JsonlWriter, split_base_ext, build_active_path, choose_active_index,
  jsonl_writer_rotate_if_needed,
}
use if_flow.Writer.Split.{IsSplit, split_base_ext-IsSplit}
use if_flow.Writer.Rotation.{
  choose_active_index_lem, rotate_if_needed_lem, path_of, on_path, choose, is_writable,
}
use if_flow.Writer.Record.{flow_record, format_bytes_human}
use if_flow.Writer.Record.Fields.{AreBytes, bytes_of}
use if_flow.Writer.Record.OneLine.{EntryBytes, flow_record-IsInline}

abbrev odd_name : Bytes
odd_name = b'a' ∷ b'"' ∷ b'\\' ∷ b'\n' ∷ b'\t' ∷ 1 ∷ 200 ∷ []

escaped : json_escape odd_name ≡ codes "\"a\\\"\\\\\\n\\t\\u0001\\u00c8\""
unfolding json_escape
escaped = refl

odd_name-AreBytes : AreBytes odd_name
odd_name-AreBytes = ground arith

read_string-json_escape_example :
    read_string (json_escape odd_name ++ codes ",") ≡ some (odd_name, codes ",")
read_string-json_escape_example = read_string-json_escape odd_name (codes ",") odd_name-AreBytes

abbrev base : Bytes
base = codes "/opt/if_flow/if_flow.jsonl"

split : split_base_ext base 1024 128 ≡ (codes "/opt/if_flow/if_flow", codes ".jsonl")
unfolding split_base_ext
split = refl

-- The last dot of the whole path is taken, so a dot in a directory's name is cut at, too.
split_directory :
    split_base_ext (codes "/srv/a.d/flows") 1024 128 ≡ (codes "/srv/a", codes ".d/flows")
unfolding split_base_ext
split_directory = refl

split_base_ext-IsSplit_example :
    IsSplit base (split_base_ext base 1024 128).0 (split_base_ext base 1024 128).1
split_base_ext-IsSplit_example =
    split_base_ext-IsSplit base 1024 128 refl (omega arith) (omega arith)

-- The first chunk is full, the second is not there.
abbrev sizes : Bytes → Option ℕ
sizes path = if str_eq path (codes "/opt/if_flow/if_flow-2026-01-02.jsonl") then some 5000 else none

abbrev writer : JsonlWriter
writer = record {
  fp = none;
  base_path = base;
  active_path = [];
  active_day = [];
  max_file_size_bytes = 4096;
  active_index = 0;
}

abbrev day : Bytes
day = codes "2026-01-02"

abbrev stem : Bytes
stem = codes "/opt/if_flow/if_flow"

abbrev ext : Bytes
ext = codes ".jsonl"

chosen : choose_active_index sizes 3 writer day stem ext ≡ some 1
unfolding choose_active_index build_active_path decimal str_eq
chosen = refl

chunk_full : is_writable sizes 4096 (build_active_path 1200 stem day ext 0) ≡ false
unfolding build_active_path str_eq
chunk_full = refl

chunk_missing : is_writable sizes 4096 (build_active_path 1200 stem day ext 1) ≡ true
unfolding build_active_path decimal str_eq
chunk_missing = refl

earlier_full :
    (j : ℕ) → j < 1 → is_writable sizes 4096 (build_active_path 1200 stem day ext j) ≡ false
earlier_full zero h = chunk_full
earlier_full (suc j) h = absurd (omega arith)

choose_active_index_lem_example : choose_active_index sizes 3 writer day stem ext ≡ some 1
choose_active_index_lem_example =
    choose_active_index_lem sizes 3 writer day stem ext 1 (omega arith) (omega arith) chunk_missing
      earlier_full

opened : choose sizes (λ path. true) day 3 writer ≡ some 1
unfolding choose_active_index split_base_ext build_active_path decimal str_eq
opened = refl

rotate_if_needed_lem_example :
    (jsonl_writer_rotate_if_needed sizes 3 (λ path. true) day writer
      ≡ some (
        on_path sizes (λ path. true) day 1 (path_of sizes (λ path. true) day writer 1) writer,
        true,
      ))
    ⊎ ((jsonl_writer_rotate_if_needed sizes 3 (λ path. true) day writer
          ≡ some (record writer { fp = none }, false))
        × (true ≡ false))
rotate_if_needed_lem_example =
    rotate_if_needed_lem sizes (λ path. true) day 3 writer 1 (omega arith) refl (inl refl) opened

abbrev pub entry : FlowEntry
entry = record {
  key = record {
    proto = 6;
    src_ip = codes "10.0.0.2";
    src_port = 40000;
    dst_ip = codes "1.1.1.1";
    dst_port = 443;
  };
  direction = dir_out;
  pid = pos 1234;
  process = odd_name;
  cmdline = codes "curl https://example.org";
  workload = codes "HOST";
  sni = codes "example.org";
  host = [];
  class_tag = codes "https";
  attr_source = src_ebpf;
  packets = 3;
  bytes = 1536;
  connections = 0;
  minute_bucket = 1719000000;
  first_seen = 1719000001 * second;
  last_seen = 1719000002 * second;
  last_emit = 0;
  dirty = true;
}

entry-EntryBytes : EntryBytes entry
entry-EntryBytes = record {
  src_ip_bytes = ground arith;
  dst_ip_bytes = ground arith;
  process_bytes = odd_name-AreBytes;
  cmdline_bytes = ground arith;
  workload_bytes = ground arith;
  sni_bytes = ground arith;
  host_bytes = tt;
  class_bytes = ground arith;
}

abbrev seconds_text : String → ℕ → Bytes
seconds_text format t = decimal t

flow_record-IsInline_example :
    All IsInline (flow_record seconds_text (codes "host") (codes "eth0") entry true true)
flow_record-IsInline_example =
    flow_record-IsInline seconds_text (codes "host") (codes "eth0") entry true true
      (λ format t. bytes_of (decimal t) (decimal-IsInline t)) (ground arith) (ground arith)
      entry-EntryBytes

half_kilobytes : format_bytes_human 1536 ≡ codes "1.50 KB"
unfolding format_bytes_human
half_kilobytes = refl
