-- ===== src/FlowTable.antt =====
-- src/flow_table.c: the table of flows. `entries` is the list of the live cells, so `len` is its
-- length; the cells between `len` and `cap` hold nothing that is read.
pub mod Lookup
pub mod Invariant
pub mod Touching
pub mod Emission
pub mod Flush
pub mod Runs
use if_flow.Base.{
  ℕ, ◌+◌, ◌-◌, ◌*◌, ◌%◌, ◌<◌, Bool, true, false, not, ◌&&◌, Option, none, some, List, [], ◌∷◌, ◌++◌,
  Bytes, ltb, leb, ◌==◌, if◌then◌else◌, length, safe_copy, is_set, is_empty, ℤ, is_neg, sweep,
}
use mathlib.Core.Option
use if_flow.Flow.{
  FlowKey, FlowDirection, AttrSource, FlowEntry, flow_key_equal, direction_eq, minute_bucket_for,
  within, u64_mod, ipproto_udp, if_flow_max_proc_name, if_flow_max_cmdline, if_flow_max_workload,
  if_flow_max_name, if_flow_max_class,
}

pub record FlowTable : Type 0 where
  pub entries : List FlowEntry
  pub cap : ℕ
  pub max_flows : ℕ

-- The arguments of `flow_table_touch`.
pub record Touch : Type 0 where
  pub key : FlowKey
  pub direction : FlowDirection
  pub pid : ℤ
  pub process : Option Bytes
  pub cmdline : Option Bytes
  pub workload : Option Bytes
  pub sni : Option Bytes
  pub host : Option Bytes
  pub class_tag : Option Bytes
  pub attr_source : AttrSource
  pub bytes : ℕ
  pub new_connection : Bool
  pub now_sec : ℕ

unfoldable pub flow_table_init : ℕ → FlowTable
flow_table_init max_flows = record { entries = []; cap = 0; max_flows = max_flows }

pub flow_table_free : FlowTable → FlowTable
flow_table_free ft = record ft { entries = []; cap = 0 }

-- The tests at the head of the search loop.
unfoldable pub is_same_flow : Touch → FlowEntry → Bool
is_same_flow t e =
    e.minute_bucket == minute_bucket_for t.now_sec
    && flow_key_equal e.key t.key
    && direction_eq e.direction t.direction

pub count_connection : Touch → FlowEntry → ℕ
count_connection t e =
    if t.new_connection && not (t.key.proto == ipproto_udp) && e.connections == 0
    then 1
    else e.connections

pub learn_identity : Touch → FlowEntry → FlowEntry
learn_identity t e =
    if is_neg e.pid && not (is_neg t.pid)
    then record e {
      pid = t.pid;
      process = safe_copy e.process if_flow_max_proc_name t.process;
      cmdline = safe_copy e.cmdline if_flow_max_cmdline t.cmdline;
      workload = safe_copy e.workload if_flow_max_workload t.workload;
      attr_source = t.attr_source;
    }
    else e

-- `if (dst[0] == '\0' && src && src[0]) safe_copy(dst, sz, src)`
pub fill_text : Bytes → ℕ → Option Bytes → Bytes
fill_text dst sz src = if is_empty dst && is_set src then safe_copy dst sz src else dst

pub learn_names : Touch → FlowEntry → FlowEntry
unfolding fill_text
learn_names t e = record e {
  sni = fill_text e.sni if_flow_max_name t.sni;
  host = fill_text e.host if_flow_max_name t.host;
  class_tag = fill_text e.class_tag if_flow_max_class t.class_tag;
}

-- What a touch does to the entry that it finds.
unfoldable pub merge : Touch → FlowEntry → FlowEntry
unfolding count_connection learn_identity learn_names
merge t e =
    let counted = record e {
      packets = (e.packets + 1) % u64_mod;
      bytes = (e.bytes + t.bytes) % u64_mod;
      connections = count_connection t e;
    } in
    let named = learn_names t (learn_identity t counted) in
    record named { last_seen = t.now_sec; dirty = true }

-- The search loop: the first entry of the flow is merged with the touch.
unfoldable pub touch_loop : Touch → List FlowEntry → Option (List FlowEntry)
touch_loop t [] = none
touch_loop t (e ∷ es) =
    if is_same_flow t e then some (merge t e ∷ es) else Option.map (◌∷◌ e) (touch_loop t es)

-- The entry that a first packet creates; the cell's old texts are overwritten.
unfoldable pub fresh_entry : Touch → FlowEntry
fresh_entry t = record {
  key = t.key;
  direction = t.direction;
  pid = t.pid;
  process = safe_copy [] if_flow_max_proc_name t.process;
  cmdline = safe_copy [] if_flow_max_cmdline t.cmdline;
  workload = safe_copy [] if_flow_max_workload t.workload;
  sni = safe_copy [] if_flow_max_name t.sni;
  host = safe_copy [] if_flow_max_name t.host;
  class_tag = safe_copy [] if_flow_max_class t.class_tag;
  attr_source = t.attr_source;
  packets = 1;
  bytes = t.bytes;
  connections = if t.new_connection then 1 else if t.key.proto == ipproto_udp then 1 else 0;
  minute_bucket = minute_bucket_for t.now_sec;
  first_seen = t.now_sec;
  last_seen = t.now_sec;
  last_emit = 0;
  dirty = true;
}

-- Room for one more entry; `none` is the early return. `realloc n` says whether the allocator
-- grants `n` cells.
pub grow : (ℕ → Bool) → FlowTable → Option FlowTable
grow realloc ft =
    if length ft.entries == ft.cap
    then (let doubled = if ft.cap == 0 then 4096 else (ft.cap * 2) % u64_mod in
        let new_cap = if ltb ft.max_flows doubled then ft.max_flows else doubled in
        if ft.cap == ft.max_flows
        then none
        else if realloc new_cap
        then some (record ft { cap = new_cap })
        else none)
    else some ft

pub append_fresh : Touch → Option FlowTable → FlowTable → FlowTable
append_fresh t (some grown) ft = record grown { entries = grown.entries ++ fresh_entry t ∷ [] }
append_fresh t none ft = ft

pub after_search : (ℕ → Bool) → Touch → FlowTable → Option (List FlowEntry) → FlowTable
after_search realloc t ft (some es) = record ft { entries = es }
after_search realloc t ft none = append_fresh t (grow realloc ft) ft

unfoldable pub flow_table_touch : (ℕ → Bool) → Touch → FlowTable → FlowTable
unfolding after_search append_fresh grow
flow_table_touch realloc t ft = after_search realloc t ft (touch_loop t ft.entries)

-- `!(!dirty || (last_emit > 0 && now - last_emit < min_interval))`
unfoldable pub is_ready : ℕ → ℕ → FlowEntry → Bool
is_ready min_interval_sec now_sec e =
    e.dirty && not (ltb 0 e.last_emit && within now_sec e.last_emit min_interval_sec)

unfoldable pub emit_loop : ℕ → ℕ → List FlowEntry → List FlowEntry × List FlowEntry
emit_loop min_interval_sec now_sec [] = ([], [])
emit_loop min_interval_sec now_sec (e ∷ es) =
    let (rest, sent) = emit_loop min_interval_sec now_sec es in
    if is_ready min_interval_sec now_sec e
    then (record e { dirty = false; last_emit = now_sec } ∷ rest, e ∷ sent)
    else (e ∷ rest, sent)

-- The table afterwards, and the entries that the callback was given with `is_final` 0, in order.
unfoldable pub flow_table_emit_ready : ℕ → ℕ → FlowTable → FlowTable × List FlowEntry
unfolding emit_loop
flow_table_emit_ready min_interval_sec now_sec ft =
    let (es, sent) = emit_loop min_interval_sec now_sec ft.entries in
    (record ft { entries = es }, sent)

abbrev pub is_open : ℕ → ℕ → FlowEntry → Bool
is_open minute_bucket read_idx e = not (ltb e.minute_bucket minute_bucket)

-- The table afterwards, and the entries that the callback was given with `is_final` 1, in order.
unfoldable pub flow_table_flush_older_than : ℕ → FlowTable → FlowTable × List FlowEntry
flow_table_flush_older_than minute_bucket ft =
    let (es, sent) = sweep (is_open minute_bucket) ft.entries in (record ft { entries = es }, sent)
