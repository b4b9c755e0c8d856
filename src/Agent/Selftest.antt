-- ===== src/Agent/Selftest.antt =====
-- `run_selftest` of src/main.c.
pub mod Cases
use if_flow.Base.{
  ℕ, ◌+◌, ◌*◌, Bool, true, false, ◌&&◌, Option, none, some, List, [], ◌∷◌, ◌++◌, Bytes, codes, pos,
  negsuc, str_eq, if◌then◌else◌,
}
use if_flow.Flow.{
  dir_in, dir_out, src_ebpf, src_unknown, if_flow_max_name, second, minute_bucket_for,
}
use if_flow.FlowTable.{Touch, FlowTable, flow_table_touch, flow_table_emit_ready}
use if_flow.Parser.Reads.{Parse, fault, starved, absent, ok}
use if_flow.Parser.TlsSni.{parser_extract_tls_sni}
use if_flow.Parser.HttpHost.{parser_extract_http_host}
use if_flow.Agent.{App}
use if_flow.Agent.Loop.{LoopState, calls_for, flush_at}
use if_flow.Agent.Selftest.Cases.{
  tls_client_hello, http_req, key1, key2, all_pass, flow_checks, icmp_checks, proto_checks,
}

-- The text that a reader returns, if it is the expected one.
unfoldable pub read_name : Parse Bytes → Bytes → Option Bytes
read_name (ok text) expected = if str_eq text expected then some text else none
read_name _ expected = none

abbrev pub selftest_base : ℕ
selftest_base = 1_719_000_000 * second

-- The touches of the first key, `after` nanoseconds behind the start.
abbrev pub touch_key1 : Bytes → ℕ → Bool → ℕ → Touch
touch_key1 sni bytes new_connection after = record {
  key = key1;
  direction = dir_out;
  pid = pos 1234;
  process = some (codes "curl");
  cmdline = some (codes "curl https://example.org");
  workload = some (codes "HOST");
  sni = some sni;
  host = some [];
  class_tag = some (codes "named_app");
  attr_source = src_ebpf;
  bytes = bytes;
  new_connection = new_connection;
  now_sec = selftest_base + after;
}

abbrev pub touch_key2 : Bytes → Touch
touch_key2 host = record {
  key = key2;
  direction = dir_in;
  pid = negsuc 0;
  process = some [];
  cmdline = some [];
  workload = some [];
  sni = some [];
  host = some host;
  class_tag = some (codes "dns");
  attr_source = src_unknown;
  bytes = 90;
  new_connection = true;
  now_sec = selftest_base + 2 * second;
}

-- `grants i` is what the allocator answers in touch `i`.
unfoldable pub selftest_flows : (ℕ → ℕ → Bool) → Bytes → Bytes → FlowTable → FlowTable
selftest_flows grants sni host ft =
    let one = flow_table_touch (grants 0) (touch_key1 sni 120 true 0) ft in
    let two = flow_table_touch (grants 1) (touch_key1 sni 120 true 200_000_000) one in
    let three = flow_table_touch (grants 2) (touch_key1 sni 380 false second) two in
    flow_table_touch (grants 3) (touch_key2 host) three

abbrev pub selftest_emit : LoopState → LoopState
selftest_emit s =
    let (ft, sent) = flow_table_emit_ready second (selftest_base + 3 * second) s.app.flows in
    record s { app = record s.app { flows = ft }; calls = s.calls ++ calls_for false sent }

-- The state afterwards, and whether the result is 0.
unfoldable pub run_selftest : (ℕ → ℕ → Bool) → LoopState → LoopState × Bool
unfolding all_pass read_name selftest_flows
run_selftest grants s =
    let hosted : App = record s.app { hostname = codes "selftest-host" } in
    let failed : LoopState × Bool = (record s { app = hosted }, false) in
    elim (read_name (parser_extract_tls_sni tls_client_hello if_flow_max_name)
      (codes "example.org")) [
        | none ↦ failed
        | some sni ↦
            elim (read_name (parser_extract_http_host http_req if_flow_max_name)
              (codes "api.example.org")) [
                | none ↦ failed
                | some host ↦
                    if all_pass flow_checks && (all_pass icmp_checks && all_pass proto_checks)
                    then (
                      flush_at (minute_bucket_for (selftest_base + 60 * second)) (
                          selftest_emit (record s {
                            app = record hosted {
                              flows = selftest_flows grants sni host s.app.flows;
                            };
                          })),
                      true,
                    )
                    else failed
              ]
      ]
