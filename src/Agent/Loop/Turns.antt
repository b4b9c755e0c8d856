-- ===== src/Agent/Loop/Turns.antt =====
-- The loop of `main` in src/main.c: a dispatch and what follows it in a turn do what their events do.
use if_flow.Base.{ℕ, ◌≡◌, refl, ap, ◌∙◌, Bool, true, false, List, [], ◌∷◌, ◌++◌}
use if_flow.Flow.{FlowEntry}
use if_flow.FlowTable.{Touch, flow_table_touch}
use if_flow.EbpfTracker.{EbpfTracker}
use if_flow.FlowTable.Runs.{emits, Capture, step, run}
use if_flow.Parser.Reads.{Parse, fault, starved, absent, ok, ◌>>=◌}
use if_flow.Agent.{App, Library, attribute, packet_handler}
use if_flow.Agent.Loop.{
  Captured, Turn, LoopState, period, settle, stream_flows, flush_minutes, dispatch, poll_events,
  finish_turn,
}
use if_flow.Agent.Loop.Events.{
  capture_of, run-append, stream_flows_lem, flush_minutes_lem, flush_events, finish_events, settled,
  Then, touches_of, touch_of, packet_events, dispatch_events,
}

pub Then-mono {ℓ} :
    {A : Type ℓ} (P Q : A → Type 0) (m : Parse A) → ((a : A) → P a → Q a) → Then P m → Then Q m
Then-mono P Q fault k h = tt
Then-mono P Q starved k h = tt
Then-mono P Q absent k h = tt
Then-mono P Q (ok a) k h = k a h

module _ (lib : Library) where
  module _ (updates finals : List FlowEntry) where
    abbrev holding : App → Capture
    holding app = record { table = app.flows; updates = updates; finals = finals }

    packet_lem :
        (c : Captured) (app : App)
        → Then
            (λ a. run (holding app) (packet_events lib c app) ≡ holding a)
            (settle app (packet_handler lib c.out c.bytes app))
    unfolding packet_handler run step
    packet_lem c app = by_touch (touch_of lib c app)
      where
        after : Touch → App
        after t = record app {
          flows = flow_table_touch c.out.table_realloc t app.flows;
          resolver = (attribute lib c.out app t.key).0;
          pids = (attribute lib c.out app t.key).1;
        }

        by_touch :
            (m : Parse Touch)
            → Then
                (λ a. run (holding app) (touches_of c.out.table_realloc m) ≡ holding a)
                (settle app (m >>= λ t. ok (after t)))
        by_touch fault = tt
        by_touch starved = tt
        by_touch absent = refl
        by_touch (ok t) = refl

    pub dispatch_lem :
        (cs : List Captured) (app : App)
        → Then
            (λ a. run (holding app) (dispatch_events lib cs app) ≡ holding a)
            (dispatch lib cs app)
    unfolding dispatch dispatch_events
    dispatch_lem [] app = unfold run in refl
    dispatch_lem (c ∷ cs) app =
        both (packet_handler lib c.out c.bytes app) (packet_lem c app) (dispatch_lem cs)
      where
        joined :
            (a : App)
            → run (holding app) (packet_events lib c app) ≡ holding a
            → Then (λ b. run (holding a) (dispatch_events lib cs a) ≡ holding b) (dispatch lib cs a)
            → Then
                (λ b.
                  run (holding app) (packet_events lib c app ++ dispatch_events lib cs a)
                  ≡ holding b)
                (dispatch lib cs a)
        joined a h k =
            Then-mono (λ b. run (holding a) (dispatch_events lib cs a) ≡ holding b) _
              (dispatch lib cs a)
              (λ b e.
                run-append (holding app) (packet_events lib c app) (dispatch_events lib cs a)
                ∙ ap (λ x. run x (dispatch_events lib cs a)) h
                ∙ e)
              k

        both :
            (m : Parse App)
            → Then (λ a. run (holding app) (packet_events lib c app) ≡ holding a) (settle app m)
            → ((a : App)
                → Then
                    (λ b. run (holding a) (dispatch_events lib cs a) ≡ holding b)
                    (dispatch lib cs a))
            → Then
                (λ b.
                  run
                    (holding app)
                    (packet_events lib c app ++ dispatch_events lib cs (settled app m))
                  ≡ holding b)
                (settle app m >>= dispatch lib cs)
        both fault h k = tt
        both starved h k = tt
        both absent h k = joined app h (k app)
        both (ok a) h k = joined a h (k a)

  poll_events_lem :
      (t : Turn) (app : App) → (x : EbpfTracker) × (poll_events lib t app ≡ record app { ebpf = x })
  poll_events_lem t app = ((poll_events lib t app).ebpf, polled app.cfg.use_ebpf refl)
    where
      polled :
          (on : Bool)
          → app.cfg.use_ebpf ≡ on
          → poll_events lib t app ≡ record app { ebpf = (poll_events lib t app).ebpf }
      polled true h = unfold poll_events in simp h
      polled false h = unfold poll_events in simp h

  flush_events-streamed :
      (now : ℕ) (s : LoopState) → flush_events now (stream_flows now s) ≡ flush_events now s
  unfolding flush_events stream_flows
  flush_events-streamed now s = refl

  flush_events-polled :
      (now : ℕ) (s : LoopState) (x : EbpfTracker)
      → flush_events now (record s { app = record s.app { ebpf = x } }) ≡ flush_events now s
  unfolding flush_events
  flush_events-polled now s x = refl

  pub finish_turn_lem :
      (t : Turn) (s : LoopState)
      → capture_of (finish_turn lib t s) ≡ run (capture_of s) (finish_events t s)
  unfolding finish_turn finish_events run
  finish_turn_lem t s =
      let (x, e) = poll_events_lem t s.app in
      let polled = record s { app = record s.app { ebpf = x } } in
      let streamed = stream_flows t.now polled in
      ap (λ (a : App). capture_of (flush_minutes t.now (stream_flows t.now (record s { app = a }))))
        e
      ∙ flush_minutes_lem t.now streamed
      ∙ ap (λ (c : Capture). run c (flush_events t.now streamed)) (stream_flows_lem t.now polled)
      ∙ ap (run (run (capture_of s) (emits (period s.app.cfg.stream_flush_sec) t.now ∷ [])))
          (flush_events-streamed t.now polled ∙ flush_events-polled t.now s x)
