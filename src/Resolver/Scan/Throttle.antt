-- ===== src/Resolver/Scan/Throttle.antt =====
-- `resolver_lookup` of src/resolver.c: /proc is not read again before the refresh period is over.
use if_flow.Base.{
  ℕ, ◌+◌, ◌≤◌, ◌<◌, ◌≡◌, refl, Bool, true, false, Option, none, List, [], ◌∷◌, map, Bytes, ℤ, pos,
  arith, All, Option-cases, inl, inr,
}
use if_flow.Flow.{FlowKey, within}
use if_flow.Resolver.{Resolver, Texts, Sizes, no_texts, resolver_cache_get}
use if_flow.Resolver.Put.{put_lem}
use if_flow.Resolver.ProcFs.{ProcFs}
use if_flow.Resolver.Identity.{PidCache, resolver_read_identity_by_pid}
use if_flow.Resolver.Scan.{owner_of, resolver_lookup}

-- A call of `resolver_lookup`, and calls in turn with their answers.
pub record LookupCall : Type 0 where
  pub fs : ProcFs
  pub realloc : ℕ → Bool
  pub clock : ℕ → ℕ
  pub key : FlowKey
  pub sz : Sizes

abbrev pub Answer : Type 0
Answer = Option (ℤ × Texts)

abbrev pub with_files : ProcFs → LookupCall → LookupCall
with_files fs call = record call { fs = fs }

-- `now` is before the end of the period that starts at `t`.
abbrev pub IsBefore : ℕ → LookupCall → Type 0
IsBefore t call = call.clock 1 < t

module _ (scan_hex : Option ℕ → Bytes → Option (ℕ × Bytes)) (inet_ntop : Bytes → Option Bytes) where
  abbrev pub call_lookup : LookupCall → Resolver → PidCache → Resolver × PidCache × Answer
  call_lookup call resolver pids =
      resolver_lookup scan_hex inet_ntop call.fs call.realloc call.clock call.key call.sz resolver
        pids

  pub lookup_all : List LookupCall → Resolver → PidCache → Resolver × PidCache × List Answer
  lookup_all [] resolver pids = (resolver, pids, [])
  lookup_all (call ∷ calls) resolver pids =
      let (resolver', pids', answer) = call_lookup call resolver pids in
      let (last, known, answers) = lookup_all calls resolver' pids' in
      (last, known, answer ∷ answers)

  -- Within the period the cache alone answers.
  lookup_early :
      (call : LookupCall) (resolver : Resolver) (pids : PidCache)
      → call.clock 1 < resolver.last_refresh + resolver.refresh_sec
      → call_lookup call resolver pids
        ≡ (resolver, pids, resolver_cache_get (call.clock 0) call.key call.sz resolver)
  unfolding resolver_lookup
  lookup_early call resolver pids early =
      let soon : within (call.clock 1) resolver.last_refresh resolver.refresh_sec ≡ true =
        ground (arith, early) in
      elim (Option-cases (resolver_cache_get (call.clock 0) call.key call.sz resolver)) [
        | inr (answer, cached) ↦ rw (cached, resolver_lookup) refl
        | inl missed ↦ rw (missed, soon, resolver_lookup) refl
      ]

  -- A lookup that reads /proc remembers when.
  lookup-last_refresh :
      (call : LookupCall) (resolver : Resolver) (pids : PidCache)
      → resolver_cache_get (call.clock 0) call.key call.sz resolver ≡ none
      → resolver.last_refresh + resolver.refresh_sec ≤ call.clock 1
      → ((call_lookup call resolver pids).0.last_refresh ≡ call.clock 1)
        × ((call_lookup call resolver pids).0.refresh_sec ≡ resolver.refresh_sec)
  unfolding resolver_lookup
  lookup-last_refresh call resolver pids missed late =
      let due : within (call.clock 1) resolver.last_refresh resolver.refresh_sec ≡ false =
        ground (arith, late) in
      elim (Option-cases (owner_of scan_hex inet_ntop call.fs call.key)) [
        | inl nobody ↦ rw (missed, due, nobody, resolver_lookup) (refl, refl)
        | inr (pid, owned) ↦
            let scanned : Resolver = record resolver { last_refresh = call.clock 1 } in
            let identity =
              resolver_read_identity_by_pid call.fs (λ i. call.clock (i + 2)) (pos pid) call.sz
                no_texts pids in
            let (es, c, less, put) =
              put_lem call.realloc (λ i. call.clock (i + 4)) call.key (pos pid) identity.0
                scanned in
            rw (missed, due, owned, resolver_lookup) (rw put (refl, refl))
      ]

  lookup_all_early :
      (fs : ProcFs) (calls : List LookupCall) (resolver : Resolver) (pids : PidCache)
      → All (IsBefore (resolver.last_refresh + resolver.refresh_sec)) calls
      → lookup_all (map (with_files fs) calls) resolver pids ≡ lookup_all calls resolver pids
  unfolding lookup_all
  lookup_all_early fs [] resolver pids h = refl
  lookup_all_early fs (call ∷ calls) resolver pids h =
      rw
        (
          lookup_early call resolver pids h.0,
          lookup_early (with_files fs call) resolver pids h.0,
          lookup_all_early fs calls resolver pids h.1,
        )
        refl

  -- Once a lookup at time `t` has read /proc, no lookup before the period is over reads it, whatever
  -- its key: the answers and the state are those that any other contents of /proc give.
  pub lookup_all-files :
      (first : LookupCall) (fs : ProcFs) (calls : List LookupCall) (resolver : Resolver)
      (pids : PidCache)
      → resolver_cache_get (first.clock 0) first.key first.sz resolver ≡ none
      → resolver.last_refresh + resolver.refresh_sec ≤ first.clock 1
      → All (IsBefore (first.clock 1 + resolver.refresh_sec)) calls
      → lookup_all (first ∷ map (with_files fs) calls) resolver pids
        ≡ lookup_all (first ∷ calls) resolver pids
  unfolding lookup_all
  lookup_all-files first fs calls resolver pids missed late h =
      let (after, known, answer) = call_lookup first resolver pids in
      let (stamped, period) = lookup-last_refresh first resolver pids missed late in
      rw (lookup_all_early fs calls after known (rw (stamped, period) h)) refl
