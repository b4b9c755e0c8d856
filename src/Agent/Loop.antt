-- ===== src/Agent/Loop.antt =====
-- The loop of `main` in src/main.c and the flush behind it. What libpcap, libbpf and the clock answer
-- in a turn is its argument; the loop ends with the list of turns, as a signal ends it, or in a turn
-- in which `pcap_dispatch` fails. The calls of `flush_flow_entry` are collected in order.
pub mod Outcome
pub mod Keeps
pub mod Events
pub mod Turns
pub mod Refines
pub mod Drained
use if_flow.Base.{
  ℕ, ◌+◌, ◌*◌, Bool, true, false, not, List, [], ◌∷◌, ◌++◌, map, Bytes, ℤ, pos, negsuc,
  if◌then◌else◌,
}
use if_flow.Flow.{FlowEntry, second, minute_bucket_for, within}
use if_flow.FlowTable.{flow_table_emit_ready, flow_table_flush_older_than}
use if_flow.EbpfTracker.{Delivery, ebpf_tracker_poll}
use if_flow.Parser.Reads.{Parse, fault, starved, absent, ok, ◌>>=◌}
use if_flow.Agent.{App, Library, Outside, packet_handler}

pub record Captured : Type 0 where
  pub out : Outside
  pub bytes : Bytes

-- A turn: the packets that `pcap_dispatch` hands to the handler and whether it fails then, the
-- events of the poll with its clock and its result, and the time behind it.
pub record Turn : Type 0 where
  pub packets : List Captured
  pub failed : Bool
  pub events : List Delivery
  pub poll_clock : ℕ → ℕ
  pub poll_rc : ℤ
  pub now : ℕ

-- The arguments of a call of `flush_flow_entry`.
pub record FlushCall : Type 0 where
  pub entry : FlowEntry
  pub is_final : Bool

pub record LoopState : Type 0 where
  pub app : App
  pub last_flush : ℕ
  pub calls : List FlushCall

-- A period in seconds; the argument loop leaves none that is negative (Config.Valid).
abbrev pub period : ℤ → ℕ
period (pos n) = n * second
period (negsuc n) = 0

abbrev pub calls_for : Bool → List FlowEntry → List FlushCall
calls_for is_final es = map (λ e. record { entry = e; is_final = is_final }) es

-- An early return leaves the state as it was.
abbrev pub settle : App → Parse App → Parse App
settle app fault = fault
settle app starved = starved
settle app absent = ok app
settle app (ok after) = ok after

-- The streaming round of a turn.
unfoldable pub stream_flows : ℕ → LoopState → LoopState
stream_flows now s =
    let (ft, sent) = flow_table_emit_ready (period s.app.cfg.stream_flush_sec) now s.app.flows in
    record s { app = record s.app { flows = ft }; calls = s.calls ++ calls_for false sent }

abbrev pub flush_at : ℕ → LoopState → LoopState
flush_at minute s =
    let (ft, sent) = flow_table_flush_older_than minute s.app.flows in
    record s { app = record s.app { flows = ft }; calls = s.calls ++ calls_for true sent }

-- `now - last_flush >= minute_flush_sec`
abbrev pub is_due : ℕ → LoopState → Bool
is_due now s = not (within now s.last_flush (period s.app.cfg.minute_flush_sec))

unfoldable pub flush_minutes : ℕ → LoopState → LoopState
flush_minutes now s =
    if is_due now s then record (flush_at (minute_bucket_for now) s) { last_flush = now } else s

-- The flush behind the loop, which closes the minute of `now` too.
unfoldable pub final_flush : ℕ → LoopState → LoopState
final_flush now s = flush_at (minute_bucket_for (now + 60 * second)) s

module _ (lib : Library) where
  unfoldable pub dispatch : List Captured → App → Parse App
  dispatch [] app = ok app
  dispatch (c ∷ cs) app = do
    after ← settle app (packet_handler lib c.out c.bytes app)
    dispatch cs after

  unfoldable pub poll_events : Turn → App → App
  poll_events t app =
      if app.cfg.use_ebpf
      then record app {
        ebpf = (ebpf_tracker_poll lib.ipv4_text t.events t.poll_clock t.poll_rc app.ebpf).0;
      }
      else app

  -- A turn behind the dispatch.
  unfoldable pub finish_turn : Turn → LoopState → LoopState
  unfolding poll_events stream_flows flush_minutes
  finish_turn t s =
      flush_minutes t.now (stream_flows t.now (record s { app = poll_events t s.app }))

  unfoldable pub main_loop : List Turn → LoopState → Parse LoopState
  unfolding dispatch finish_turn
  main_loop [] s = ok s
  main_loop (t ∷ ts) s = do
    app ← dispatch t.packets s.app
    let dispatched = record s { app = app }
    let rest = main_loop ts (finish_turn t dispatched)
    if t.failed then ok dispatched else rest

  -- The loop from its first turn to the flush behind it, at time `stop`.
  unfoldable pub run_loop : List Turn → ℕ → LoopState → Parse LoopState
  unfolding main_loop final_flush
  run_loop ts stop s = do ended ← main_loop ts s; ok (final_flush stop ended)
