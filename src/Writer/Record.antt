-- ===== src/Writer/Record.antt =====
-- `jsonl_writer_write_flow` of src/writer_jsonl.c: the line that it appends for a flow. `local_time`
-- stands for `localtime_r` and `strftime`: the text of a format at a time in seconds.
pub mod Fields
pub mod OneLine
use Prim.Native.String.{String}
use if_flow.Base.{
  ℕ, zero, suc, ◌+◌, ◌*◌, ◌/◌, ◌%◌, ◌^◌, Bool, true, false, ◌&&◌, Option, none, some, List, [], ◌∷◌,
  ◌++◌, Bytes, codes, is_empty, ltb, leb, ◌==◌, if◌then◌else◌,
}
use if_flow.Flow.{FlowKey, FlowEntry, second, flow_direction_str, attr_source_str}
use if_flow.Classify.{
  flow_connection_inferred, flow_tcp_seen_without_syn, flow_connections_effective,
}
use if_flow.Json.{json_escape, decimal, signed_decimal}
use if_flow.Writer.{JsonlWriter, jsonl_writer_rotate_if_needed}

-- `n / d` rounded to the nearest whole number, to the even one of two.
unfoldable pub round_even : ℕ → ℕ → ℕ
round_even n d =
    let q = n / d in
    let r = n % d in
    if ltb (2 * r) d then q else if ltb d (2 * r) then q + 1 else if q % 2 == 0 then q else q + 1

-- `(double)` of a uint64_t: 53 bits of precision.
unfoldable pub to_double_loop : ℕ → ℕ → ℕ → ℕ
unfolding round_even
to_double_loop zero unit n = round_even n unit * unit
to_double_loop (suc more) unit n =
    let rest = to_double_loop more (unit * 2) n in
    if ltb n (2 ^ 53 * unit) then round_even n unit * unit else rest

-- The units in turn; the number is `v / 1024 ^ idx`, which a double holds exactly.
unfoldable pub units_loop : ℕ → ℕ → ℕ → ℕ
units_loop zero idx v = idx
units_loop (suc left) idx v =
    let rest = units_loop left (idx + 1) v in if leb (1024 ^ (idx + 1)) v then rest else idx

abbrev units : ℕ → Bytes
units zero = codes "B"
units (suc zero) = codes "KB"
units (suc (suc zero)) = codes "MB"
units (suc (suc (suc zero))) = codes "GB"
units _ = codes "TB"

-- `%.2f` of `v / d`.
unfoldable pub two_decimals : ℕ → ℕ → Bytes
unfolding round_even decimal
two_decimals v d =
    let n = round_even (v * 100) d in
    decimal (n / 100) ++ b'.' ∷ (b'0' + n / 10 % 10) ∷ (b'0' + n % 10) ∷ []

unfoldable pub format_bytes_human : ℕ → Bytes
unfolding to_double_loop units_loop two_decimals decimal
format_bytes_human bytes =
    let v = to_double_loop 11 1 bytes in
    let idx = units_loop 4 0 v in
    (if idx == 0 then decimal bytes else two_decimals v (1024 ^ idx)) ++ b' ' ∷ units idx

abbrev or_text : Bytes → Bytes → Bytes
or_text other text = if is_empty text then other else text

abbrev pub or_null : Bytes → Option Bytes → Bytes
or_null other none = other
or_null other (some text) = text

abbrev bool_text : Bool → Bytes
bool_text b = if b then codes "true" else codes "false"

-- `"name":`, and fields with their commas.
abbrev pub name_of : String → Bytes
name_of name = b'"' ∷ (codes name ++ codes "\":")

unfoldable pub text_field : Bytes → Bytes → Bytes
unfolding json_escape
text_field name text = name ++ (json_escape text ++ codes ",")

unfoldable pub number_field : Bytes → ℕ → Bytes
unfolding decimal
number_field name n = name ++ (decimal n ++ codes ",")

unfoldable pub signed_text : FlowEntry → Bytes
unfolding signed_decimal
signed_text entry = signed_decimal entry.pid

abbrev concat : List Bytes → Bytes
concat [] = []
concat (x ∷ xs) = x ++ concat xs

module _ (local_time : String → ℕ → Bytes) where
  abbrev pub format_minute_iso : ℕ → Bytes
  format_minute_iso minute_bucket = local_time "%Y-%m-%dT%H:%M:00%z" minute_bucket

  abbrev pub format_time_iso : ℕ → Bytes
  format_time_iso ts = local_time "%Y-%m-%dT%H:%M:%S%z" (ts / second)

  identity_fields : FlowEntry → List Bytes
  unfolding text_field signed_text
  identity_fields entry =
      (name_of "pid" ++ (signed_text entry ++ codes ","))
      ∷ text_field (name_of "attr_source") (attr_source_str entry.attr_source)
      ∷ text_field (name_of "process") (or_text (codes "unknown") entry.process)
      ∷ text_field (name_of "cmdline") entry.cmdline
      ∷ []

  optional_field : Bytes → Bytes → List Bytes
  unfolding text_field
  optional_field name text = if is_empty text then [] else text_field name text ∷ []

  -- The fields from the addresses on, and the last one without its comma.
  count_fields : FlowEntry → Bool → List Bytes
  unfolding text_field number_field
  count_fields entry is_final =
      text_field (name_of "src_ip") entry.key.src_ip
      ∷ number_field (name_of "src_port") entry.key.src_port
      ∷ text_field (name_of "dst_ip") entry.key.dst_ip
      ∷ number_field (name_of "dst_port") entry.key.dst_port
      ∷ number_field (name_of "packets") entry.packets
      ∷ number_field (name_of "bytes") entry.bytes
      ∷ text_field (name_of "bytes_human") (format_bytes_human entry.bytes)
      ∷ number_field (name_of "connections") entry.connections
      ∷ number_field (name_of "connections_effective") (flow_connections_effective entry is_final)
      ∷ (name_of "connection_inferred" ++ (bool_text (flow_connection_inferred entry) ++ codes ","))
      ∷ (name_of "tcp_seen_without_syn" ++ bool_text (flow_tcp_seen_without_syn entry is_final))
      ∷ []

  -- The fields in order, each with its comma.
  record_fields : Bytes → Bytes → FlowEntry → Bool → Bool → List Bytes
  unfolding text_field number_field identity_fields optional_field count_fields
  record_fields host iface entry is_final include_identity_fields =
      text_field (name_of "record_type") (if is_final then codes "final" else codes "update")
      ∷ text_field (name_of "host") host
      ∷ text_field (name_of "iface") iface
      ∷ number_field (name_of "minute_ts") entry.minute_bucket
      ∷ text_field (name_of "minute_iso") (format_minute_iso entry.minute_bucket)
      ∷ text_field (name_of "first_seen_iso") (format_time_iso entry.first_seen)
      ∷ text_field (name_of "last_seen_iso") (format_time_iso entry.last_seen)
      ∷ number_field (name_of "proto") entry.key.proto
      ∷ text_field (name_of "class") (or_text (codes "other") entry.class_tag)
      ∷ text_field (name_of "direction") (flow_direction_str entry.direction)
      ∷ ((if include_identity_fields then identity_fields entry else [])
          ++ (text_field (name_of "workload") entry.workload
              ∷ (optional_field (name_of "sni") entry.sni
                  ++ (optional_field (name_of "host_name") entry.host
                      ++ count_fields entry is_final))))

  -- The record without its line end.
  unfoldable pub flow_record : Bytes → Bytes → FlowEntry → Bool → Bool → Bytes
  unfolding record_fields
  flow_record host iface entry is_final include_identity_fields =
      b'{' ∷ (concat (record_fields host iface entry is_final include_identity_fields) ++ codes "}")

  -- The writer afterwards, and the path and text of what is appended to a file.
  unfoldable pub jsonl_writer_write_flow :
      (Bytes → Option ℕ)
      → ℕ
      → (Bytes → Bool)
      → Bytes
      → Option Bytes
      → Option Bytes
      → FlowEntry
      → Bool
      → Bool
      → JsonlWriter
      → Option (JsonlWriter × Option (Bytes × Bytes))
  unfolding flow_record
  jsonl_writer_write_flow stat_size fuel fopen day host iface entry is_final include_identity_fields
        writer =
      elim (jsonl_writer_rotate_if_needed stat_size fuel fopen day writer) [
        | none ↦ none
        | some (rotated, succeeds) ↦
            if succeeds
            then some (
              rotated,
              elim rotated.fp [
                | none ↦ none
                | some path ↦ some (
                  path,
                  flow_record (or_null (codes "unknown") host) (or_null (codes "unknown") iface)
                        entry is_final include_identity_fields
                      ++ b'\n' ∷ [],
                )
              ],
            )
            else some (rotated, none)
      ]
