-- ===== src/Writer/Record/OneLine.antt =====
-- The records of src/writer_jsonl.c: one line each.
use Prim.Native.String.{String}
use if_flow.Base.{
  ℕ, ◌≡◌, refl, Bool, true, false, List, [], ◌∷◌, Bytes, arith, All, codes, is_empty, if◌then◌else◌,
  Bool-cases, inl, inr,
}
use if_flow.Flow.{FlowEntry, FlowDirection, AttrSource, flow_direction_str, attr_source_str}
use if_flow.Classify.{
  flow_connection_inferred, flow_tcp_seen_without_syn, flow_connections_effective,
}
use if_flow.Json.{signed_decimal}
use if_flow.Json.Inline.{IsInline, All-++, signed_decimal-IsInline}
use if_flow.Writer.Record.{
  bool_text, name_of, signed_text, concat, identity_fields, optional_field, count_fields,
  record_fields, flow_record,
}
use if_flow.Writer.Record.Fields.{
  is_inline, literal, AreBytes, bytes_of, text_field-IsInline, number_field-IsInline,
  raw_field-IsInline, ◌▸◌, or_text-AreBytes, format_bytes_human-AreBytes,
}

-- Every text of an entry is made of bytes.
pub record EntryBytes (e : FlowEntry) : Type 0 where
  pub src_ip_bytes : AreBytes e.key.src_ip
  pub dst_ip_bytes : AreBytes e.key.dst_ip
  pub process_bytes : AreBytes e.process
  pub cmdline_bytes : AreBytes e.cmdline
  pub workload_bytes : AreBytes e.workload
  pub sni_bytes : AreBytes e.sni
  pub host_bytes : AreBytes e.host
  pub class_bytes : AreBytes e.class_tag

abbrev AllInline : List Bytes → Type 0
AllInline ps = All (All IsInline) ps

concat-IsInline : (ps : List Bytes) → AllInline ps → All IsInline (concat ps)
concat-IsInline [] h = tt
concat-IsInline (p ∷ ps) h = All-++ IsInline p (concat ps) h.0 (concat-IsInline ps h.1)

direction-AreBytes : (d : FlowDirection) → AreBytes (flow_direction_str d)
direction-AreBytes d = bytes_of _ (literal _ (inline d))
  where
    inline : (d : FlowDirection) → is_inline (flow_direction_str d) ≡ true
    inline d = unfold flow_direction_str in ground arith

attr_source-AreBytes : (a : AttrSource) → AreBytes (attr_source_str a)
attr_source-AreBytes a = bytes_of _ (literal _ (inline a))
  where
    inline : (a : AttrSource) → is_inline (attr_source_str a) ≡ true
    inline a = unfold attr_source_str in ground arith

bool_text-inline : (b : Bool) → is_inline (bool_text b) ≡ true
bool_text-inline true = refl
bool_text-inline false = refl

module _ (local_time : String → ℕ → Bytes) where
  identity_fields-inline : (e : FlowEntry) → EntryBytes e → AllInline (identity_fields local_time e)
  unfolding identity_fields signed_text
  identity_fields-inline e h =
      raw_field-IsInline (name_of "pid") (signed_decimal e.pid) refl (signed_decimal-IsInline e.pid)
      ▸ text_field-IsInline (name_of "attr_source") _ refl (attr_source-AreBytes e.attr_source)
      ▸ text_field-IsInline (name_of "process") _ refl
          (or_text-AreBytes (codes "unknown") e.process refl h.process_bytes)
      ▸ text_field-IsInline (name_of "cmdline") _ refl h.cmdline_bytes
      ▸ tt

  optional_field-inline :
      (name text : Bytes)
      → is_inline name ≡ true
      → AreBytes text
      → AllInline (optional_field local_time name text)
  unfolding optional_field
  optional_field-inline name text n h = elim (Bool-cases (is_empty text)) [
    | inl none_set ↦ rw none_set tt
    | inr set ↦ rw set (text_field-IsInline name text n h, tt)
  ]

  if-inline : (b : Bool) (ps : List Bytes) → AllInline ps → AllInline (if b then ps else [])
  if-inline true ps h = h
  if-inline false ps h = tt

  state_text : (b : Bool) → AreBytes (if b then codes "final" else codes "update")
  state_text true = bytes_of (codes "final") (literal (codes "final") refl)
  state_text false = bytes_of (codes "update") (literal (codes "update") refl)

  -- The fields from the addresses on.
  counts-inline :
      (e : FlowEntry) (is_final : Bool)
      → EntryBytes e
      → AllInline (count_fields local_time e is_final)
  unfolding count_fields
  counts-inline e is_final v =
      text_field-IsInline (name_of "src_ip") e.key.src_ip refl v.src_ip_bytes
      ▸ number_field-IsInline (name_of "src_port") e.key.src_port refl
      ▸ text_field-IsInline (name_of "dst_ip") e.key.dst_ip refl v.dst_ip_bytes
      ▸ number_field-IsInline (name_of "dst_port") e.key.dst_port refl
      ▸ number_field-IsInline (name_of "packets") e.packets refl
      ▸ number_field-IsInline (name_of "bytes") e.bytes refl
      ▸ text_field-IsInline (name_of "bytes_human") _ refl (format_bytes_human-AreBytes e.bytes)
      ▸ number_field-IsInline (name_of "connections") e.connections refl
      ▸ number_field-IsInline (name_of "connections_effective")
          (flow_connections_effective e is_final) refl
      ▸ raw_field-IsInline (name_of "connection_inferred") (bool_text (flow_connection_inferred e))
          refl
          (literal (bool_text (flow_connection_inferred e))
            (bool_text-inline (flow_connection_inferred e)))
      ▸ All-++ IsInline (name_of "tcp_seen_without_syn") _
          (literal (name_of "tcp_seen_without_syn") refl)
          (literal (bool_text (flow_tcp_seen_without_syn e is_final))
            (bool_text-inline (flow_tcp_seen_without_syn e is_final)))
      ▸ tt

  record_fields-inline :
      (host iface : Bytes) (e : FlowEntry) (is_final include_identity_fields : Bool)
      → ((format : String) (t : ℕ) → AreBytes (local_time format t))
      → AreBytes host
      → AreBytes iface
      → EntryBytes e
      → AllInline (record_fields local_time host iface e is_final include_identity_fields)
  unfolding record_fields
  record_fields-inline host iface e is_final include_identity_fields t h i v =
      text_field-IsInline (name_of "record_type") _ refl (state_text is_final)
      ▸ text_field-IsInline (name_of "host") host refl h
      ▸ text_field-IsInline (name_of "iface") iface refl i
      ▸ number_field-IsInline (name_of "minute_ts") e.minute_bucket refl
      ▸ text_field-IsInline (name_of "minute_iso") _ refl (t _ _)
      ▸ text_field-IsInline (name_of "first_seen_iso") _ refl (t _ _)
      ▸ text_field-IsInline (name_of "last_seen_iso") _ refl (t _ _)
      ▸ number_field-IsInline (name_of "proto") e.key.proto refl
      ▸ text_field-IsInline (name_of "class") _ refl
          (or_text-AreBytes (codes "other") e.class_tag refl v.class_bytes)
      ▸ text_field-IsInline (name_of "direction") _ refl (direction-AreBytes e.direction)
      ▸ All-++ (All IsInline) _ _ (if-inline include_identity_fields _ (identity_fields-inline e v))
          (text_field-IsInline (name_of "workload") e.workload refl v.workload_bytes
            ▸ All-++ (All IsInline) _ _
                (optional_field-inline (name_of "sni") e.sni refl v.sni_bytes)
                (All-++ (All IsInline) _ _
                  (optional_field-inline (name_of "host_name") e.host refl v.host_bytes)
                  (counts-inline e is_final v)))

  -- Every byte of a record is ASCII from the blank to DEL, whatever bytes the names, the command line,
  -- the addresses and the texts of the times hold; so the line end behind a record is the only one.
  pub flow_record-IsInline :
      (host iface : Bytes) (e : FlowEntry) (is_final include_identity_fields : Bool)
      → ((format : String) (t : ℕ) → AreBytes (local_time format t))
      → AreBytes host
      → AreBytes iface
      → EntryBytes e
      → All IsInline (flow_record local_time host iface e is_final include_identity_fields)
  unfolding flow_record
  flow_record-IsInline host iface e is_final include_identity_fields t h i v = (
    (omega arith, omega arith),
    All-++ IsInline
        (concat (record_fields local_time host iface e is_final include_identity_fields))
        (codes "}")
        (concat-IsInline (record_fields local_time host iface e is_final include_identity_fields)
          (record_fields-inline host iface e is_final include_identity_fields t h i v))
        (literal (codes "}") refl),
  )
