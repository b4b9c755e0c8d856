-- ===== src/Agent/Loop/Keeps.antt =====
-- The loop of `main` in src/main.c: it ends without a fault, and the table and the caches keep their
-- invariants over any number of turns.
use if_flow.Base.{
  ℕ, ◌+◌, ◌*◌, ◌^◌, ◌≤◌, ◌<◌, ◌≡◌, refl, ap, Bool, true, false, List, [], ◌∷◌, arith, length, All,
  if◌then◌else◌,
}
use if_flow.Flow.{second, minute_bucket_for}
use if_flow.FlowTable.Emission.{emit_ready-Inv}
use if_flow.FlowTable.Flush.{flush-Inv}
use if_flow.EbpfTracker.{EbpfTracker, ebpf_tracker_poll}
use if_flow.Resolver.{Resolver}
use if_flow.EbpfTracker.Polled.{poll-Inv, poll-length}
use if_flow.Parser.Reads.{Parse, fault, starved, absent, ok}
use if_flow.Agent.{App, Library, packet_handler}
use if_flow.Agent.Handled.{AppInv, Handled, packet_handler-Gives}
use if_flow.Agent.Loop.{
  Captured, Turn, LoopState, period, settle, stream_flows, flush_at, is_due, flush_minutes,
  final_flush, dispatch, poll_events, finish_turn, main_loop, run_loop,
}
use if_flow.Agent.Loop.Outcome.{Ends, Ends-bind, Ends-settle, IsCaptured, IsBudget}

-- What a dispatch of `n` packets leaves.
pub record Dispatched (n : ℕ) (before after : App) : Type 0 where
  pub inv : AppInv after
  pub grows : length after.resolver.entries ≤ length before.resolver.entries + n
  pub same_hints : after.ebpf ≡ before.ebpf
  pub same_cfg : after.cfg ≡ before.cfg

-- What a turn behind its dispatch leaves.
pub record Finished (n : ℕ) (before after : App) : Type 0 where
  pub inv : AppInv after
  pub same_answers : after.resolver ≡ before.resolver
  pub grows : length after.ebpf.entries ≤ length before.ebpf.entries + n
  pub same_cfg : after.cfg ≡ before.cfg

stream_flows-Finished :
    (n : ℕ) (before : App) (now : ℕ) (s : LoopState)
    → Finished n before s.app
    → Finished n before (stream_flows now s).app
unfolding stream_flows
stream_flows-Finished n before now s f = record {
  inv = record {
    table = emit_ready-Inv (period s.app.cfg.stream_flush_sec) now s.app.flows f.inv.table;
    hints = f.inv.hints;
    answers = f.inv.answers;
  };
  same_answers = f.same_answers;
  grows = f.grows;
  same_cfg = f.same_cfg;
}

flush_minutes-Finished :
    (n : ℕ) (before : App) (now : ℕ) (s : LoopState)
    → Finished n before s.app
    → Finished n before (flush_minutes now s).app
unfolding flush_minutes
flush_minutes-Finished n before now s f = flushed (is_due now s)
  where
    after : LoopState
    after = record (flush_at (minute_bucket_for now) s) { last_flush = now }

    flushed : (due : Bool) → Finished n before (if◌then◌else◌ {A = LoopState} due after s).app
    flushed false = f
    flushed true = record {
      inv = record {
        table = flush-Inv (minute_bucket_for now) s.app.flows f.inv.table;
        hints = f.inv.hints;
        answers = f.inv.answers;
      };
      same_answers = f.same_answers;
      grows = f.grows;
      same_cfg = f.same_cfg;
    }

module _ (lib : Library) where
  pub dispatch-Ends :
      (cs : List Captured) (app : App)
      → All IsCaptured cs
      → length app.resolver.entries + length cs < 2 ^ 62
      → AppInv app
      → Ends (Dispatched (length cs) app) (dispatch lib cs app)
  unfolding dispatch
  dispatch-Ends [] app h b v = record {
    inv = v;
    grows = omega arith;
    same_hints = refl;
    same_cfg = refl;
  }
  dispatch-Ends (c ∷ cs) app h b v =
      Ends-bind (Handled app) (Dispatched (length (c ∷ cs)) app)
        (settle app (packet_handler lib c.out c.bytes app)) (dispatch lib cs)
        (Ends-settle (Handled app) app (packet_handler lib c.out c.bytes app)
          (record { inv = v; grows = omega arith; same_hints = refl; same_cfg = refl })
          (packet_handler-Gives lib c.out c.bytes app h.0 (omega arith) v))
        λ after p. more after p (dispatch-Ends cs after h.1 (omega (arith, p.grows)) p.inv)
    where
      more :
          (after : App)
          → Handled app after
          → Ends (Dispatched (length cs) after) (dispatch lib cs after)
          → Ends (Dispatched (length (c ∷ cs)) app) (dispatch lib cs after)
      more after p = widen (dispatch lib cs after)
        where
          widen :
              (m : Parse App)
              → Ends (Dispatched (length cs) after) m
              → Ends (Dispatched (length (c ∷ cs)) app) m
          widen fault e = e
          widen starved e = e
          widen absent e = e
          widen (ok a) e = record {
            inv = e.inv;
            grows = omega (arith, e.grows, p.grows);
            same_hints = rw (e.same_hints, p.same_hints) refl;
            same_cfg = rw (e.same_cfg, p.same_cfg) refl;
          }

  poll_events-Finished :
      (t : Turn) (app : App)
      → length app.ebpf.entries + length t.events < 2 ^ 62
      → AppInv app
      → Finished (length t.events) app (poll_events lib t app)
  unfolding poll_events
  poll_events-Finished t app b v = polled app.cfg.use_ebpf
    where
      after : App
      after = record app {
        ebpf = (ebpf_tracker_poll lib.ipv4_text t.events t.poll_clock t.poll_rc app.ebpf).0;
      }

      polled : (on : Bool) → Finished (length t.events) app (if◌then◌else◌ {A = App} on after app)
      polled false = record { inv = v; same_answers = refl; grows = omega arith; same_cfg = refl }
      polled true = record {
        inv = record {
          table = v.table;
          hints = poll-Inv lib.ipv4_text t.events t.poll_clock t.poll_rc app.ebpf b v.hints;
          answers = v.answers;
        };
        same_answers = refl;
        grows = poll-length lib.ipv4_text t.events t.poll_clock t.poll_rc app.ebpf;
        same_cfg = refl;
      }

  finish_turn-Finished :
      (t : Turn) (s : LoopState)
      → length s.app.ebpf.entries + length t.events < 2 ^ 62
      → AppInv s.app
      → Finished (length t.events) s.app (finish_turn lib t s).app
  unfolding finish_turn
  finish_turn-Finished t s b v =
      let polled = record s { app = poll_events lib t s.app } in
      flush_minutes-Finished (length t.events) s.app t.now (stream_flows t.now polled) (
        stream_flows-Finished (length t.events) s.app t.now polled
          (poll_events-Finished t s.app b v))

  main_loop-Ends :
      (ts : List Turn) (s : LoopState)
      → All (λ t. All IsCaptured t.packets) ts
      → IsBudget ts s.app
      → AppInv s.app
      → Ends (λ e. AppInv e.app) (main_loop lib ts s)
  unfolding main_loop
  main_loop-Ends [] s h b v = v
  main_loop-Ends (t ∷ ts) s h b v =
      Ends-bind (Dispatched (length t.packets) s.app) (λ e. AppInv e.app)
        (dispatch lib t.packets s.app) _
        (dispatch-Ends t.packets s.app h.0 (omega (arith, b.packets)) v)
        λ app p.
          let dispatched = record s { app = app } in
          let hints : length app.ebpf.entries ≡ length s.app.ebpf.entries =
            ap (λ (e : EbpfTracker). length e.entries) p.same_hints in
          let finished = finish_turn-Finished t dispatched (omega (arith, b.events, hints)) p.inv in
          let answers : length (finish_turn lib t dispatched).app.resolver.entries
              ≡ length app.resolver.entries =
            ap (λ (r : Resolver). length r.entries) finished.same_answers in
          let budget : IsBudget ts (finish_turn lib t dispatched).app = record {
            packets = omega (arith, b.packets, p.grows, answers);
            events = omega (arith, b.events, finished.grows, hints);
          } in
          failing t.failed dispatched p.inv
            (main_loop-Ends ts (finish_turn lib t dispatched) h.1 budget finished.inv)
    where
      failing :
          (failed : Bool) (dispatched : LoopState)
          → AppInv dispatched.app
          → Ends (λ e. AppInv e.app) (main_loop lib ts (finish_turn lib t dispatched))
          → Ends
              (λ e. AppInv e.app)
              (if◌then◌else◌ {A = Parse LoopState} failed
                (ok dispatched)
                (main_loop lib ts (finish_turn lib t dispatched)))
      failing true dispatched v h = v
      failing false dispatched v h = h

  -- The loop and the flush behind it end without a fault, whatever packets are captured, whatever
  -- the eBPF program sends and whatever /proc, the clocks and the allocators answer; the table and
  -- both caches meet their invariants then, if they did at the start and what comes in leaves the
  -- sizes of the caches below 2 ^ 62.
  pub run_loop-Ends :
      (ts : List Turn) (stop : ℕ) (s : LoopState)
      → All (λ t. All IsCaptured t.packets) ts
      → IsBudget ts s.app
      → AppInv s.app
      → Ends (λ e. AppInv e.app) (run_loop lib ts stop s)
  unfolding run_loop final_flush
  run_loop-Ends ts stop s h b v =
      Ends-bind (λ e. AppInv e.app) (λ e. AppInv e.app) (main_loop lib ts s) _
        (main_loop-Ends ts s h b v)
        λ e w. record {
          table = flush-Inv (minute_bucket_for (stop + 60 * second)) e.app.flows w.table;
          hints = w.hints;
          answers = w.answers;
        }
