-- ===== src/Agent/Loop/Refines.antt =====
-- The loop of `main` in src/main.c does to the table and hands over what its events do.
use if_flow.Base.{
  ℕ, ◌+◌, ◌*◌, ◌≡◌, refl, ap, sym, ◌∙◌, Bool, true, false, List, [], ◌∷◌, ◌++◌, All, if◌then◌else◌,
}
use mathlib.Core.List.{append-nil}
use if_flow.Flow.{second, minute_bucket_for}
use if_flow.FlowTable.Runs.{Event, flushes, Capture, run}
use if_flow.Parser.Reads.{Parse, fault, starved, absent, ok, ◌>>=◌}
use if_flow.Agent.{App, Library}
use if_flow.Agent.Handled.{AppInv}
use if_flow.Agent.Loop.{
  Turn, LoopState, flush_at, final_flush, dispatch, finish_turn, main_loop, run_loop,
}
use if_flow.Agent.Loop.Outcome.{Ends, IsCaptured, IsBudget}
use if_flow.Agent.Loop.Keeps.{run_loop-Ends}
use if_flow.Agent.Loop.Events.{
  finals_of, updates_of, capture_of, run-append, flush_at_lem, finish_events, settled, Then,
  dispatch_events, loop_events, run_events,
}
use if_flow.Agent.Loop.Turns.{Then-mono, dispatch_lem, finish_turn_lem}

module _ (lib : Library) where
  main_loop_lem :
      (ts : List Turn) (s : LoopState)
      → Then (λ e. capture_of e ≡ run (capture_of s) (loop_events lib ts s)) (main_loop lib ts s)
  unfolding main_loop loop_events
  main_loop_lem [] s = unfold run in refl
  main_loop_lem (t ∷ ts) s =
      by_dispatch (dispatch lib t.packets s.app)
        (dispatch_lem lib (updates_of s.calls) (finals_of s.calls) t.packets s.app)
        (main_loop_lem ts)
    where
      before : List Event
      before = dispatch_events lib t.packets s.app

      turned : App → LoopState
      turned a = finish_turn lib t (record s { app = a })

      behind : App → List Event
      behind a = finish_events t (record s { app = a }) ++ loop_events lib ts (turned a)

      ended :
          (failed : Bool) (a : App)
          → run (capture_of s) before ≡ capture_of (record s { app = a })
          → Then
              (λ e. capture_of e ≡ run (capture_of (turned a)) (loop_events lib ts (turned a)))
              (main_loop lib ts (turned a))
          → Then
              (λ e. capture_of e ≡ run (capture_of s) (before ++ (if failed then [] else behind a)))
              (if◌then◌else◌ {A = Parse LoopState} failed
                (ok (record s { app = a }))
                (main_loop lib ts (turned a)))
      ended true a h k = rw append-nil (sym h)
      ended false a h k =
          Then-mono
            (λ e. capture_of e ≡ run (capture_of (turned a)) (loop_events lib ts (turned a))) _
            (main_loop lib ts (turned a))
            (λ e same.
              same
              ∙ ap (λ (c : Capture). run c (loop_events lib ts (turned a)))
                  (finish_turn_lem lib t (record s { app = a })
                    ∙ ap (λ (c : Capture). run c (finish_events t (record s { app = a }))) (sym h))
              ∙ sym (
                  run-append (capture_of s) before (behind a)
                  ∙ run-append (run (capture_of s) before) (finish_events t (record s { app = a }))
                      (loop_events lib ts (turned a))))
            k

      by_dispatch :
          (m : Parse App)
          → Then (λ a. run (capture_of s) before ≡ capture_of (record s { app = a })) m
          → ((d : LoopState)
              → Then
                  (λ e. capture_of e ≡ run (capture_of d) (loop_events lib ts d))
                  (main_loop lib ts d))
          → Then
              (λ e.
                capture_of e
                ≡ run
                    (capture_of s)
                    (before ++ (if t.failed then [] else behind (settled s.app m))))
              (m >>= λ app.
                if◌then◌else◌ {A = Parse LoopState} t.failed
                  (ok (record s { app = app }))
                  (main_loop lib ts (turned app)))
      by_dispatch fault h k = tt
      by_dispatch starved h k = tt
      by_dispatch absent h k = tt
      by_dispatch (ok a) h k = ended t.failed a h (k (turned a))

  -- From a state in its invariants, with packets of fewer than 2 ^ 64 bytes and caches that stay below
  -- 2 ^ 62 entries, the loop and the flush behind it end, the invariants hold then, and the table, the
  -- updates and the final records are those of the events that the turns bring: a touch for each packet
  -- that is not passed over, a streaming round and, when it is due, a flush for each turn that libpcap
  -- does not fail in, and the flush at the end.
  pub run_loop_lem :
      (ts : List Turn) (stop : ℕ) (s : LoopState)
      → All (λ t. All IsCaptured t.packets) ts
      → IsBudget ts s.app
      → AppInv s.app
      → (e : LoopState) × (run_loop lib ts stop s ≡ ok e)
        × AppInv e.app
        × (capture_of e ≡ run (capture_of s) (run_events lib ts stop s))
  unfolding run_loop run_events final_flush
  run_loop_lem ts stop s h b v =
      joined (main_loop lib ts s) (run_loop-Ends lib ts stop s h b v) (main_loop_lem ts s)
    where
      last : ℕ
      last = minute_bucket_for (stop + 60 * second)

      joined :
          (m : Parse LoopState)
          → Ends (λ e. AppInv e.app) (m >>= λ e. ok (flush_at last e))
          → Then (λ e. capture_of e ≡ run (capture_of s) (loop_events lib ts s)) m
          → (e : LoopState) × ((m >>= λ e. ok (flush_at last e)) ≡ ok e)
            × AppInv e.app
            × (capture_of e ≡ run (capture_of s) (loop_events lib ts s ++ flushes last ∷ []))
      joined fault i k = absurd i
      joined starved i k = absurd i
      joined absent i k = absurd i
      joined (ok e) i k = (
        flush_at last e,
        refl,
        i,
        flush_at_lem last e
            ∙ ap (λ (c : Capture). run c (flushes last ∷ [])) k
            ∙ sym (run-append (capture_of s) (loop_events lib ts s) (flushes last ∷ [])),
      )
