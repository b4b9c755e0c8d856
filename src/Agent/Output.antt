-- ===== src/Agent/Output.antt =====
-- `flush_flow_entry` of src/main.c: the line on the standard output, and the record in the file.
pub mod Written
use Prim.Native.String.{String}
use if_flow.Base.{
  ℕ, suc, Bool, true, false, Option, none, some, List, [], ◌∷◌, ◌++◌, Bytes, codes, is_empty,
  if◌then◌else◌,
}
use if_flow.Flow.{FlowEntry, attr_source_str, flow_direction_str}
use if_flow.Classify.{
  flow_connection_inferred, flow_tcp_seen_without_syn, flow_connections_effective,
}
use if_flow.Json.{decimal, signed_decimal}
use if_flow.Writer.{JsonlWriter}
use if_flow.Writer.Record.{format_bytes_human, format_minute_iso, jsonl_writer_write_flow}
use if_flow.Agent.{App}
use if_flow.Agent.Loop.{FlushCall}

-- What the file system answers while a record is written, the fuel for the loop over the chunks, and
-- the text of the local day.
pub record Disk : Type 0 where
  pub stat_size : Bytes → Option ℕ
  pub fuel : ℕ
  pub fopen : Bytes → Bool
  pub day : Bytes

-- ` name=value`
unfoldable pub item : String → Bytes → Bytes
item name value = b' ' ∷ (codes name ++ (b'=' ∷ value))

abbrev pub endpoint : Bytes → ℕ → Bytes
endpoint ip port = ip ++ (b':' ∷ decimal port)

abbrev pub if_empty : Bytes → Bytes → Bytes
if_empty text other = if is_empty text then other else text

abbrev pub yes_no : Bool → Bytes
yes_no b = if b then codes "yes" else codes "no"

-- What a call does outside: a line that is printed, and a path with the text that is appended there.
pub record Flushed : Type 0 where
  pub printed : Option Bytes
  pub written : Option (Bytes × Bytes)

module _ (local_time : String → ℕ → Bytes) (app : App) where
  unfoldable pub head_items : FlowEntry → Bool → Bytes
  unfolding item decimal
  head_items entry is_final =
      codes "FLOW"
      ++ (item "state" (if is_final then codes "final" else codes "update")
          ++ (item "minute" (format_minute_iso local_time entry.minute_bucket)
              ++ (item "host" (if_empty app.hostname (codes "unknown"))
                  ++ (item "iface" app.cfg.interface
                      ++ (item "class" (if_empty entry.class_tag (codes "other"))
                          ++ (item "dir" (flow_direction_str entry.direction)
                              ++ (item "proto" (decimal entry.key.proto)
                                  ++ (item "src" (endpoint entry.key.src_ip entry.key.src_port)
                                      ++ item "dst"
                                          (endpoint entry.key.dst_ip entry.key.dst_port)))))))))

  unfoldable pub identity_items : FlowEntry → Bytes
  unfolding item signed_decimal
  identity_items entry =
      item "pid" (signed_decimal entry.pid)
      ++ (item "attr" (attr_source_str entry.attr_source)
          ++ item "process" (if_empty entry.process (codes "unknown")))

  unfoldable pub count_items : FlowEntry → Bool → Bytes
  unfolding item decimal format_bytes_human
  count_items entry is_final =
      item "workload" (if_empty entry.workload (codes "-"))
      ++ (item "packets" (decimal entry.packets)
          ++ (item "bytes" (format_bytes_human entry.bytes)
              ++ (item "connections" (decimal entry.connections)
                  ++ (item "effective" (decimal (flow_connections_effective entry is_final))
                      ++ (item "inferred" (yes_no (flow_connection_inferred entry))
                          ++ (item "seen_without_syn"
                                (yes_no (flow_tcp_seen_without_syn entry is_final))
                              ++ codes "\n"))))))

  unfoldable pub stdout_line : FlowEntry → Bool → Bytes
  unfolding head_items identity_items count_items
  stdout_line entry is_final =
      head_items entry is_final
      ++ ((if app.cfg.include_identity_fields then identity_items entry else [])
          ++ count_items entry is_final)

  -- The writer afterwards and what is done; `none` is a loop over chunks that ran out of fuel.
  unfoldable pub flush_flow_entry : Disk → FlushCall → JsonlWriter → Option (JsonlWriter × Flushed)
  unfolding stdout_line jsonl_writer_write_flow
  flush_flow_entry disk call writer =
      elim (jsonl_writer_write_flow local_time disk.stat_size disk.fuel disk.fopen disk.day
        (some app.hostname) (some app.cfg.interface) call.entry call.is_final
        app.cfg.include_identity_fields writer) [
          | none ↦ none
          | some (after, written) ↦ some (
            after,
            record {
              printed =
                  if app.cfg.no_stdout then none else some (stdout_line call.entry call.is_final);
              written = written;
            },
          )
        ]

  -- Calls in turn, call `i` with its own answers of the file system.
  unfoldable pub flush_calls :
      (ℕ → Disk) → ℕ → List FlushCall → JsonlWriter → Option (JsonlWriter × List Flushed)
  unfolding flush_flow_entry
  flush_calls disks i [] writer = some (writer, [])
  flush_calls disks i (call ∷ calls) writer = elim (flush_flow_entry (disks i) call writer) [
    | none ↦ none
    | some (after, flushed) ↦ elim (flush_calls disks (suc i) calls after) [
      | none ↦ none
      | some (last, rest) ↦ some (last, flushed ∷ rest)
    ]
  ]
