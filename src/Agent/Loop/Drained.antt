-- ===== src/Agent/Loop/Drained.antt =====
-- The loop of `main` in src/main.c with the flush behind it: at the end every packet that the table
-- took is in a final record.
use if_flow.Base.{
  ℕ, ◌+◌, ◌*◌, ◌%◌, ◌^◌, ◌≤◌, ◌<◌, ◌≡◌, ap, ◌∙◌, Bool, true, false, List, [], ◌∷◌, ◌++◌, arith, All,
  if◌then◌else◌,
}
use if_flow.Flow.{u64_mod, second, minute_bucket_for}
use if_flow.FlowTable.{Touch, flow_table_init}
use if_flow.FlowTable.Runs.{Event, flushes, Capture, run, start, IsEvent, init-Inv}
use if_flow.FlowTable.Runs.Account.{
  Meter, total, accounted, offered, packet_meter, byte_meter, capture_accounts,
}
use if_flow.FlowTable.Runs.Closed.{ComesBy, run-drained}
use if_flow.Parser.Reads.{Parse, fault, starved, absent, ok, Gives}
use if_flow.Packet.Safe.{IsTouch, packet_touch-Gives}
use if_flow.Agent.{App, Library, attribute, packet_handler}
use if_flow.Agent.Handled.{AppInv}
use if_flow.Agent.Loop.{Captured, Turn, LoopState, is_due, finish_turn, dispatch, run_loop}
use if_flow.Agent.Loop.Outcome.{IsCaptured, IsBudget}
use if_flow.Agent.Loop.Events.{
  finals_of, updates_of, capture_of, run-append, flush_events, finish_events, settled, touches_of,
  touch_of, dispatch_events, loop_events, run_events,
}
use if_flow.Agent.Loop.Refines.{run_loop_lem}

-- A packet of fewer than 2 ^ 64 bytes that is handled at `stop` at the latest.
abbrev pub IsTimely : ℕ → Captured → Type 0
IsTimely stop c = IsCaptured c × (c.out.now_sec ≤ stop)

abbrev IsFair : ℕ → Event → Type 0
IsFair stop v = IsEvent v × ComesBy stop v

All-++ :
    (stop : ℕ) (vs ws : List Event)
    → All (IsFair stop) vs
    → All (IsFair stop) ws
    → All (IsFair stop) (vs ++ ws)
All-++ stop [] ws h k = k
All-++ stop (v ∷ vs) ws h k = (h.0, All-++ stop vs ws h.1 k)

split_fair :
    (stop : ℕ) (vs : List Event) → All (IsFair stop) vs → All IsEvent vs × All (ComesBy stop) vs
split_fair stop [] h = (tt, tt)
split_fair stop (v ∷ vs) h = let (a, b) = split_fair stop vs h.1 in ((h.0.0, a), (h.0.1, b))

finish_events-IsFair : (stop : ℕ) (t : Turn) (s : LoopState) → All (IsFair stop) (finish_events t s)
unfolding finish_events flush_events
finish_events-IsFair stop t s = ((tt, tt), flushed t.now (is_due t.now s))
  where
    flushed :
        (now : ℕ) (due : Bool)
        → All (IsFair stop) (if due then flushes (minute_bucket_for now) ∷ [] else [])
    flushed now true = ((tt, tt), tt)
    flushed now false = tt

began :
    (s : LoopState) (max_flows : ℕ)
    → s.app.flows ≡ flow_table_init max_flows
    → s.calls ≡ []
    → capture_of s ≡ start max_flows
unfolding updates_of finals_of
began s max_flows flows calls = simp (flows, calls)

-- With an empty table all that is accounted for is in the final records.
final_total :
    (m : Meter) (e : LoopState)
    → e.app.flows.entries ≡ []
    → total m (finals_of e.calls) ≡ accounted m (capture_of e)
unfolding total accounted
final_total m e empty = simp empty (omega arith)

module _ (lib : Library) (stop : ℕ) where
  touch_of-IsFair :
      (c : Captured) (app : App)
      → IsTimely stop c
      → All (IsFair stop) (touches_of c.out.table_realloc (touch_of lib c app))
  touch_of-IsFair c app h = by_touch (touch_of lib c app) (
      packet_touch-Gives lib.address_text app.local_ips (λ key. (attribute lib c.out app key).2)
        app.linktype c.out.now_sec c.bytes)
    where
      by_touch :
          (m : Parse Touch)
          → Gives (IsTouch c.bytes c.out.now_sec) m
          → All (IsFair stop) (touches_of c.out.table_realloc m)
      by_touch fault g = tt
      by_touch starved g = tt
      by_touch absent g = tt
      by_touch (ok t) g = ((omega (arith, g.counts, h.0), omega (arith, g.stamped, h.1)), tt)

  dispatch_events-IsFair :
      (cs : List Captured) (app : App)
      → All (IsTimely stop) cs
      → All (IsFair stop) (dispatch_events lib cs app)
  unfolding dispatch_events
  dispatch_events-IsFair [] app h = tt
  dispatch_events-IsFair (c ∷ cs) app h =
      All-++ stop (touches_of c.out.table_realloc (touch_of lib c app)) _
        (touch_of-IsFair c app h.0)
        (dispatch_events-IsFair cs (settled app (packet_handler lib c.out c.bytes app)) h.1)

  loop_events-IsFair :
      (ts : List Turn) (s : LoopState)
      → All (λ t. All (IsTimely stop) t.packets) ts
      → All (IsFair stop) (loop_events lib ts s)
  unfolding loop_events
  loop_events-IsFair [] s h = tt
  loop_events-IsFair (t ∷ ts) s h =
      let dispatched = record s { app = settled s.app (dispatch lib t.packets s.app) } in
      All-++ stop (dispatch_events lib t.packets s.app) _
        (dispatch_events-IsFair t.packets s.app h.0)
        (ended _ t.failed (
          All-++ stop (finish_events t dispatched) _ (finish_events-IsFair stop t dispatched)
            (loop_events-IsFair ts (finish_turn lib t dispatched) h.1)))
    where
      ended :
          (vs : List Event) (failed : Bool)
          → All (IsFair stop) vs
          → All (IsFair stop) (if failed then [] else vs)
      ended vs true k = tt
      ended vs false k = k

  timely :
      (ts : List Turn)
      → All (λ t. All (IsTimely stop) t.packets) ts
      → All (λ t. All IsCaptured t.packets) ts
  timely [] h = tt
  timely (t ∷ ts) h = (sizes t.packets h.0, timely ts h.1)
    where
      sizes : (cs : List Captured) → All (IsTimely stop) cs → All IsCaptured cs
      sizes [] k = tt
      sizes (c ∷ cs) k = (k.0.0, sizes cs k.1)

  run_events-start :
      (ts : List Turn) (s : LoopState) (max_flows : ℕ)
      → max_flows < 2 ^ 31
      → All (λ t. All (IsTimely stop) t.packets) ts
      → (run (start max_flows) (run_events lib ts stop s)).table.entries ≡ []
  unfolding run_events run
  run_events-start ts s max_flows h k =
      let (events, soon) = split_fair stop (loop_events lib ts s) (loop_events-IsFair ts s k) in
      let last = flushes (minute_bucket_for (stop + 60 * second)) ∷ [] in
      ap (λ (c : Capture). c.table.entries)
        (run-append (start max_flows) (loop_events lib ts s) last)
      ∙ run-drained stop (start max_flows) (loop_events lib ts s) events soon (init-Inv max_flows h)
          (unfold flow_table_init in tt)

  run_events-IsEvent :
      (ts : List Turn) (s : LoopState)
      → All (λ t. All (IsTimely stop) t.packets) ts
      → All IsEvent (run_events lib ts stop s)
  unfolding run_events
  run_events-IsEvent ts s k =
      let last = flushes (minute_bucket_for (stop + 60 * second)) ∷ [] in
      let (events, _) =
        split_fair stop (loop_events lib ts s ++ last)
          (All-++ stop (loop_events lib ts s) last (loop_events-IsFair ts s k) ((tt, tt), tt)) in
      events

  -- What a run from an empty table has at its end.
  pub record Accounted (max_flows : ℕ) (vs : List Event) (e : LoopState) : Type 0 where
    pub drained : e.app.flows.entries ≡ []
    pub packets :
        total packet_meter (finals_of e.calls) % u64_mod
        ≡ offered packet_meter (start max_flows) vs % u64_mod
    pub bytes :
        total byte_meter (finals_of e.calls) % u64_mod
        ≡ offered byte_meter (start max_flows) vs % u64_mod

  -- A run of the loop from a state in its invariants, with an empty table whose maximum is below
  -- 2 ^ 31, no records yet, packets of fewer than 2 ^ 64 bytes that come at `stop` at the latest, and
  -- caches that stay below 2 ^ 62 entries, ends with the flush behind it. The table is empty then, and
  -- the packets and bytes of all packets that found an entry or room for one are, modulo 2 ^ 64, those
  -- of the final records.
  pub run_loop_accounts :
      (ts : List Turn) (s : LoopState) (max_flows : ℕ)
      → max_flows < 2 ^ 31
      → s.app.flows ≡ flow_table_init max_flows
      → s.calls ≡ []
      → All (λ t. All (IsTimely stop) t.packets) ts
      → IsBudget ts s.app
      → AppInv s.app
      → (e : LoopState) × (run_loop lib ts stop s ≡ ok e)
        × Accounted max_flows (run_events lib ts stop s) e
  run_loop_accounts ts s max_flows h flows calls k b v =
      let (e, ran, inv, same) = run_loop_lem lib ts stop s (timely ts k) b v in
      let vs = run_events lib ts stop s in
      let at_start : capture_of s ≡ start max_flows = began s max_flows flows calls in
      let ended : capture_of e ≡ run (start max_flows) vs =
        same ∙ ap (λ (c : Capture). run c vs) at_start in
      let empty : e.app.flows.entries ≡ [] =
        ap (λ (c : Capture). c.table.entries) ended ∙ run_events-start ts s max_flows h k in
      let (packets, bytes) = capture_accounts max_flows vs h (run_events-IsEvent ts s k) in
      (
        e,
        ran,
        record {
          drained = empty;
          packets =
              ap (λ (n : ℕ). n % u64_mod) (final_total packet_meter e empty)
              ∙ ap (λ (c : Capture). accounted packet_meter c % u64_mod) ended
              ∙ packets;
          bytes =
              ap (λ (n : ℕ). n % u64_mod) (final_total byte_meter e empty)
              ∙ ap (λ (c : Capture). accounted byte_meter c % u64_mod) ended
              ∙ bytes;
        },
      )
