-- ===== src/Agent/Main/Setup.antt =====
-- The state that `main` of src/main.c has set up when its loop starts.
use if_flow.Base.{
  ℕ, ◌^◌, ◌<◌, ◌≡◌, refl, ap, sym, subst, ◌∙◌, [], ℤ, pos, arith, Bool-cases, inl, inr,
}
use if_flow.FlowTable.{flow_table_init}
use if_flow.FlowTable.Runs.{init-Inv}
use if_flow.FlowTable.Invariant as TableLaws
use if_flow.EbpfTracker.{EbpfTracker, ebpf_tracker_init, ebpf_tracker_close}
use if_flow.EbpfTracker.Invariant as Hints
use if_flow.EbpfTracker.Attach.{ebpf_tracker_open, open-entries}
use if_flow.Resolver.{Resolver, resolver_init}
use if_flow.Resolver.Invariant as Answers
use if_flow.Config.{AppConfig}
use if_flow.Agent.{App}
use if_flow.Agent.Handled.{AppInv}
use if_flow.Agent.Main.{Startup, to_size, init_app, load_ips, open_ebpf, loop_app}

-- A cache without hints, as it is when it is set up and when it is closed.
blank-Inv : (tracker : EbpfTracker) → tracker.entries ≡ [] → tracker.cap ≡ 0 → Hints.Inv tracker
blank-Inv tracker empty room = record {
  within_cap = simp (empty, room) (omega arith);
  distinct = rw empty tt;
  hints = rw empty tt;
}

-- What opening leaves of the other parts and of the hints.
record Opened (before after : App) : Type 0 where
  same_flows : after.flows ≡ before.flows
  same_resolver : after.resolver ≡ before.resolver
  no_hints : after.ebpf.entries ≡ []
  no_room : after.ebpf.cap ≡ 0

open_ebpf-Opened :
    (su : Startup) (app : App)
    → app.ebpf.entries ≡ []
    → app.ebpf.cap ≡ 0
    → Opened app (open_ebpf su app)
unfolding open_ebpf ebpf_tracker_close
open_ebpf-Opened su app empty room = elim (Bool-cases app.cfg.use_ebpf) [
  | inr off ↦
      rw off (record { same_flows = refl; same_resolver = refl; no_hints = empty; no_room = room })
  | inl on ↦ rw on (elim (Bool-cases (ebpf_tracker_open su.libbpf app.ebpf).2) [
    | inl opened ↦ rw opened (record {
      same_flows = refl;
      same_resolver = refl;
      no_hints = (open-entries su.libbpf app.ebpf).0 ∙ empty;
      no_room = (open-entries su.libbpf app.ebpf).1 ∙ room;
    })
    | inr failed ↦
        rw failed
          (record { same_flows = refl; same_resolver = refl; no_hints = refl; no_room = refl })
  ])
]

-- At the loop the table is empty with room for `max_flows` flows, and both caches are empty.
pub record Ready (max_flows : ℕ) (app : App) : Type 0 where
  pub no_flows : app.flows ≡ flow_table_init max_flows
  pub no_hints : app.ebpf.entries ≡ []
  pub no_answers : app.resolver.entries ≡ []
  pub inv : AppInv app

pub loop_app-Ready :
    (su : Startup) (cfg : AppConfig) (max_flows : ℕ)
    → cfg.max_flows ≡ pos max_flows
    → max_flows < 2 ^ 31
    → Ready max_flows (loop_app su (init_app su cfg))
unfolding init_app load_ips ebpf_tracker_init resolver_init
loop_app-Ready su cfg max_flows limit h =
    let opened = open_ebpf-Opened su (load_ips su (init_app su cfg)) refl refl in
    let flows : (loop_app su (init_app su cfg)).flows ≡ flow_table_init max_flows =
      opened.same_flows ∙ ap (λ (z : ℤ). flow_table_init (to_size z)) limit in
    record {
      no_flows = flows;
      no_hints = opened.no_hints;
      no_answers = ap (λ (r : Resolver). r.entries) opened.same_resolver;
      inv = record {
        table = subst TableLaws.Inv (sym flows) (init-Inv max_flows h);
        hints = blank-Inv _ opened.no_hints opened.no_room;
        answers = subst Answers.Inv (sym opened.same_resolver) (Answers.init-Inv _ _);
      };
    }
