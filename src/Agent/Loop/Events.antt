-- ===== src/Agent/Loop/Events.antt =====
-- The loop of `main` in src/main.c as a capture: what it does to the table and hands to
-- `flush_flow_entry` is what a list of touches, streaming rounds and flushes does.
use if_flow.Base.{
  ℕ, ◌+◌, ◌*◌, ◌≡◌, refl, ap, Bool, true, false, List, [], ◌∷◌, ◌++◌, arith, if◌then◌else◌,
}
use mathlib.Core.List.{append-nil}
use if_flow.Flow.{FlowEntry, second, minute_bucket_for}
use if_flow.FlowTable.{Touch, flow_table_emit_ready, flow_table_flush_older_than}
use if_flow.FlowTable.Runs.{Event, touches, emits, flushes, Capture, step, run}
use if_flow.Parser.Reads.{Parse, ok}
use if_flow.Packet.{packet_touch}
use if_flow.Agent.{App, Library, attribute, packet_handler}
use if_flow.Agent.Loop.{
  Captured, Turn, FlushCall, LoopState, period, calls_for, stream_flows, flush_at, is_due,
  flush_minutes, dispatch, finish_turn,
}

-- The entries of the calls that are final, and of those that are not.
unfoldable pub finals_of : List FlushCall → List FlowEntry
finals_of [] = []
finals_of (c ∷ cs) = if c.is_final then c.entry ∷ finals_of cs else finals_of cs

unfoldable pub updates_of : List FlushCall → List FlowEntry
updates_of [] = []
updates_of (c ∷ cs) = if c.is_final then updates_of cs else c.entry ∷ updates_of cs

abbrev pub capture_of : LoopState → Capture
capture_of s = record {
  table = s.app.flows;
  updates = updates_of s.calls;
  finals = finals_of s.calls;
}

finals_of-append : (cs ds : List FlushCall) → finals_of (cs ++ ds) ≡ finals_of cs ++ finals_of ds
unfolding finals_of
finals_of-append [] ds = refl
finals_of-append (c ∷ cs) ds = ground (arith, finals_of-append cs ds)

updates_of-append :
    (cs ds : List FlushCall) → updates_of (cs ++ ds) ≡ updates_of cs ++ updates_of ds
unfolding updates_of
updates_of-append [] ds = refl
updates_of-append (c ∷ cs) ds = ground (arith, updates_of-append cs ds)

calls_for_lem :
    (es : List FlowEntry)
    → (finals_of (calls_for true es) ≡ es)
      × (updates_of (calls_for true es) ≡ [])
      × (finals_of (calls_for false es) ≡ [])
      × (updates_of (calls_for false es) ≡ es)
unfolding finals_of updates_of
calls_for_lem [] = (refl, refl, refl, refl)
calls_for_lem (e ∷ es) = let (a, b, c, d) = calls_for_lem es in (ap (◌∷◌ e) a, b, c, ap (◌∷◌ e) d)

pub run-append : (c : Capture) (vs ws : List Event) → run c (vs ++ ws) ≡ run (run c vs) ws
unfolding run
run-append c [] ws = refl
run-append c (v ∷ vs) ws = run-append (step c v) vs ws

-- A round and a flush are the events of that name.
pub stream_flows_lem :
    (now : ℕ) (s : LoopState)
    → capture_of (stream_flows now s)
      ≡ run (capture_of s) (emits (period s.app.cfg.stream_flush_sec) now ∷ [])
unfolding stream_flows run step
stream_flows_lem now s =
    let sent = (flow_table_emit_ready (period s.app.cfg.stream_flush_sec) now s.app.flows).1 in
    let (_, _, finals, updates) = calls_for_lem sent in
    rw
      (
        finals_of-append s.calls (calls_for false sent),
        updates_of-append s.calls (calls_for false sent),
        finals,
        updates,
        append-nil,
      )
      refl

pub flush_at_lem :
    (minute : ℕ) (s : LoopState)
    → capture_of (flush_at minute s) ≡ run (capture_of s) (flushes minute ∷ [])
unfolding run step
flush_at_lem minute s =
    let sent = (flow_table_flush_older_than minute s.app.flows).1 in
    let (finals, updates, _, _) = calls_for_lem sent in
    rw
      (
        finals_of-append s.calls (calls_for true sent),
        updates_of-append s.calls (calls_for true sent),
        finals,
        updates,
        append-nil,
      )
      refl

-- The events of a turn behind its dispatch.
unfoldable pub flush_events : ℕ → LoopState → List Event
flush_events now s = if is_due now s then flushes (minute_bucket_for now) ∷ [] else []

unfoldable pub finish_events : Turn → LoopState → List Event
finish_events t s = emits (period s.app.cfg.stream_flush_sec) t.now ∷ flush_events t.now s

pub flush_minutes_lem :
    (now : ℕ) (s : LoopState)
    → capture_of (flush_minutes now s) ≡ run (capture_of s) (flush_events now s)
unfolding flush_minutes flush_events
flush_minutes_lem now s = flushed (is_due now s)
  where
    flushed :
        (due : Bool)
        → capture_of (
            if◌then◌else◌ {A = LoopState} due
              (record (flush_at (minute_bucket_for now) s) { last_flush = now })
              s)
          ≡ run (capture_of s) (if due then flushes (minute_bucket_for now) ∷ [] else [])
    flushed true = flush_at_lem (minute_bucket_for now) s
    flushed false = unfold run in refl

-- The state that a result leaves, if it is there.
abbrev pub settled : App → Parse App → App
settled app (ok after) = after
settled app _ = app

-- What holds of a result, if it is there.
abbrev pub Then {ℓ} : {A : Type ℓ} → (A → Type 0) → Parse A → Type 0
Then P (ok a) = P a
Then P _ = Unit

abbrev pub touches_of : (ℕ → Bool) → Parse Touch → List Event
touches_of realloc (ok t) = touches realloc t ∷ []
touches_of realloc _ = []

module _ (lib : Library) where
  -- The touch of a packet.
  abbrev pub touch_of : Captured → App → Parse Touch
  touch_of c app =
      packet_touch lib.address_text app.local_ips (λ key. (attribute lib c.out app key).2)
        app.linktype c.out.now_sec c.bytes

  abbrev pub packet_events : Captured → App → List Event
  packet_events c app = touches_of c.out.table_realloc (touch_of c app)

  unfoldable pub dispatch_events : List Captured → App → List Event
  dispatch_events [] app = []
  dispatch_events (c ∷ cs) app =
      packet_events c app ++ dispatch_events cs (settled app (packet_handler lib c.out c.bytes app))

  unfoldable pub loop_events : List Turn → LoopState → List Event
  loop_events [] s = []
  loop_events (t ∷ ts) s =
      let dispatched = record s { app = settled s.app (dispatch lib t.packets s.app) } in
      let rest = finish_events t dispatched ++ loop_events ts (finish_turn lib t dispatched) in
      dispatch_events t.packets s.app ++ (if t.failed then [] else rest)

  -- The events of the whole run.
  unfoldable pub run_events : List Turn → ℕ → LoopState → List Event
  run_events ts stop s = loop_events ts s ++ flushes (minute_bucket_for (stop + 60 * second)) ∷ []
