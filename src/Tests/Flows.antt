-- ===== src/Tests/Flows.antt =====
-- The flow table of src/flow_table.c on the flows of `run_selftest` of src/main.c.
use if_flow.Base.{
  ℕ, ◌*◌, ◌+◌, ◌%◌, Bool, true, false, ◌≡◌, refl, none, some, List, [], ◌∷◌, codes, arith, pos,
  negsuc, All, if◌then◌else◌, ltb, length, str_eq, safe_copy, sweep,
}
use mathlib.Core.Option
use if_flow.Flow.{
  dir_in, dir_out, src_ebpf, src_unknown, ipproto_tcp, ipproto_udp, second, u64_mod, flow_key_equal,
  direction_eq, minute_bucket_for,
}
use if_flow.FlowTable.{
  touch_loop, is_same_flow, is_ready, emit_loop, FlowTable, Touch, flow_table_touch, merge,
  fresh_entry, flow_table_emit_ready, flow_table_flush_older_than, flow_table_init,
}
use if_flow.FlowTable.Lookup.{touch_id, lookup, id_eq, entry_id}
use if_flow.FlowTable.Touching.{lookup-touch, touched, has_room}
use if_flow.FlowTable.Emission.{lookup-emit_ready, emit_ready_rate, IsDue, IsHeld, IsStreamed}
use if_flow.FlowTable.Flush.{lookup-flush}
use if_flow.FlowTable.Invariant.{Inv}
use if_flow.FlowTable.Runs.{
  Capture, Event, touches, emits, flushes, run, step, start, run-init-Inv, IsEvent,
}
use if_flow.FlowTable.Runs.Sticky.{Kept, LeavesOpen, run-Kept}
use if_flow.FlowTable.Runs.Account.{capture_accounts, accounted, offered, packet_meter, byte_meter}

abbrev base : ℕ
base = 1719000000 * second

abbrev grants : ℕ → Bool
grants n = true

abbrev https_touch : ℕ → Bool → ℕ → Touch
https_touch bytes opens now = record {
  key = record {
    proto = ipproto_tcp;
    src_ip = codes "10.0.0.10";
    src_port = 43210;
    dst_ip = codes "1.1.1.1";
    dst_port = 443;
  };
  direction = dir_out;
  pid = pos 1234;
  process = some (codes "curl");
  cmdline = some (codes "curl https://example.org");
  workload = some (codes "HOST");
  sni = some (codes "example.org");
  host = some [];
  class_tag = some (codes "named_app");
  attr_source = src_ebpf;
  bytes = bytes;
  new_connection = opens;
  now_sec = now;
}

abbrev dns_touch : Touch
dns_touch = record {
  key = record {
    proto = ipproto_udp;
    src_ip = codes "192.168.1.50";
    src_port = 53000;
    dst_ip = codes "10.0.0.20";
    dst_port = 53;
  };
  direction = dir_in;
  pid = negsuc 0;
  process = some [];
  cmdline = some [];
  workload = some [];
  sni = some [];
  host = some (codes "api.example.org");
  class_tag = some (codes "dns");
  attr_source = src_unknown;
  bytes = 90;
  new_connection = true;
  now_sec = base + 2 * second;
}

abbrev calls : List Event
calls =
    touches grants (https_touch 120 true base)
    ∷ touches grants (https_touch 380 false (base + second))
    ∷ touches grants dns_touch
    ∷ emits second (base + 3 * second)
    ∷ flushes (1719000000 + 60)
    ∷ []

abbrev table : FlowTable
table = (run (start 8192) (touches grants (https_touch 120 true base) ∷ [])).table

selftest_totals :
    let c = run (start 8192) calls in
    (Option.map (λ e. e.bytes) (lookup (touch_id (https_touch 0 false base)) c.updates) ≡ some 500)
    × (length c.updates ≡ 2)
    × (length c.finals ≡ 2)
    × (length c.table.entries ≡ 0)
unfolding run step flow_table_touch flow_table_emit_ready flow_table_flush_older_than lookup
    flow_table_init touch_loop merge fresh_entry is_same_flow is_ready emit_loop entry_id
    minute_bucket_for flow_key_equal str_eq direction_eq safe_copy sweep touch_id id_eq
selftest_totals = (refl, refl, refl, refl)

calls_are_events : All IsEvent calls
calls_are_events = omega arith

table-Inv : Inv table
table-Inv =
    run-init-Inv 8192 (touches grants (https_touch 120 true base) ∷ []) (omega arith) (omega arith)

lookup-touch_example :
    lookup (touch_id dns_touch) (flow_table_touch grants dns_touch table).entries ≡ (
      if id_eq (touch_id dns_touch) (touch_id dns_touch)
      then touched (has_room grants table) dns_touch (lookup (touch_id dns_touch) table.entries)
      else lookup (touch_id dns_touch) table.entries)
lookup-touch_example = lookup-touch grants dns_touch table (touch_id dns_touch) table-Inv

run-init-Inv_example : Inv (run (start 8192) calls).table
run-init-Inv_example = run-init-Inv 8192 calls (omega arith) calls_are_events

capture_accounts_example :
    (accounted packet_meter (run (start 8192) calls) % u64_mod
      ≡ offered packet_meter (start 8192) calls % u64_mod)
    × (accounted byte_meter (run (start 8192) calls) % u64_mod
        ≡ offered byte_meter (start 8192) calls % u64_mod)
capture_accounts_example = capture_accounts 8192 calls (omega arith) calls_are_events

lookup-flush_example :
    (lookup (touch_id dns_touch) (flow_table_flush_older_than 1719000060 table).0.entries ≡ (
      if ltb (touch_id dns_touch).minute_bucket 1719000060
      then none
      else lookup (touch_id dns_touch) table.entries))
    × (lookup (touch_id dns_touch) (flow_table_flush_older_than 1719000060 table).1 ≡ (
        if ltb (touch_id dns_touch).minute_bucket 1719000060
        then lookup (touch_id dns_touch) table.entries
        else none))
lookup-flush_example = lookup-flush 1719000060 (touch_id dns_touch) table

emit_ready_rate_example :
    All (IsDue second (base + second)) (flow_table_emit_ready second (base + second) table).1
    × All
        (IsHeld second (base + second))
        (flow_table_emit_ready second (base + second) table).0.entries
emit_ready_rate_example = emit_ready_rate second (base + second) table

-- The flow in the table has changed and was never sent.
lookup-emit_ready_example :
    IsStreamed second base
      (lookup (touch_id (https_touch 120 true base)) table.entries)
      (lookup
        (touch_id (https_touch 120 true base))
        (flow_table_emit_ready second base table).0.entries)
      (lookup (touch_id (https_touch 120 true base)) (flow_table_emit_ready second base table).1)
lookup-emit_ready_example =
    lookup-emit_ready second base (touch_id (https_touch 120 true base)) table table-Inv.distinct

abbrev first : Touch
first = https_touch 120 true base

abbrev capture : Capture
capture = run (start 8192) (touches grants first ∷ [])

abbrev open_calls : List Event
open_calls =
    touches grants (https_touch 380 false (base + second))
    ∷ touches grants dns_touch
    ∷ emits second (base + 3 * second)
    ∷ flushes 1719000000
    ∷ []

first_found : lookup (touch_id first) capture.table.entries ≡ some (fresh_entry first)
unfolding run step flow_table_touch lookup flow_table_init touch_loop fresh_entry entry_id
    minute_bucket_for flow_key_equal str_eq direction_eq safe_copy touch_id id_eq
first_found = refl

leave_open : All (LeavesOpen (touch_id first)) open_calls
unfolding touch_id minute_bucket_for
leave_open = (tt, (tt, (tt, (refl, tt))))

run-Kept_example : Kept (touch_id first) (fresh_entry first) (run capture open_calls)
run-Kept_example =
    run-Kept (touch_id first) (fresh_entry first) capture open_calls (omega arith) leave_open
      table-Inv first_found
