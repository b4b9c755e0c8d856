-- ===== src/Resolver/Identity/Cached.antt =====
-- The cache of identities in src/resolver.c: what is read of a process is what is answered for 30
-- seconds.
use if_flow.Base.{
  ℕ, suc, ◌+◌, ◌*◌, ◌%◌, ◌≤◌, ◌<◌, ◌≡◌, refl, ap, ◌∙◌, true, false, some, List, [], ◌∷◌, map, Bytes,
  ℤ, pos, negsuc, arith, length, length-take, All, take, safe_copy_fits, safe_copy_all, ◌==◌,
  ==_iff, Bool-cases, Option-cases, inl, inr,
}
use if_flow.Flow.{second, if_flow_max_proc_name, if_flow_max_cmdline, if_flow_max_workload}
use if_flow.Resolver.{Texts, Sizes, entry_sizes, copy_texts}
use if_flow.Resolver.Invariant.{TextsFit}
use if_flow.Resolver.ProcFs.{ProcFs}
use if_flow.Resolver.Identity.{
  PidIdentity, PidCache, store, blank_nul, read_cmdline, workload_for_pid, read_texts, is_known,
  resolver_read_identity_by_pid,
}

length-blanked : (s : Bytes) → length (map blank_nul s) ≡ length s
length-blanked [] = refl
length-blanked (c ∷ s) = ap suc (length-blanked s)

read_cmdline_fits :
    (fs : ProcFs) (pid : ℕ) (cmdline : Bytes)
    → length (read_cmdline fs pid cmdline if_flow_max_cmdline) < if_flow_max_cmdline
unfolding read_cmdline
read_cmdline_fits fs pid cmdline = elim (Option-cases (fs.cmdline pid)) [
  | inl missing ↦
      rw (missing, read_cmdline)
        (safe_copy_fits cmdline if_flow_max_cmdline (some []) (omega arith))
  | inr (content, read) ↦
      rw (read, read_cmdline)
        (omega (arith, length-blanked (take 511 content), length-take 511 content))
]

-- What is read fits the buffers.
pub read_texts-TextsFit :
    (fs : ProcFs) (pid : ℕ) (texts : Texts) → TextsFit (read_texts fs pid entry_sizes texts)
unfolding read_texts workload_for_pid
read_texts-TextsFit fs pid texts = record {
  process_fits = safe_copy_fits texts.process if_flow_max_proc_name _ (omega arith);
  cmdline_fits = read_cmdline_fits fs pid texts.cmdline;
  workload_fits = safe_copy_fits texts.workload if_flow_max_workload _ (omega arith);
}

-- Texts that fit are copied whole.
pub copy_texts_all : (dst t : Texts) → TextsFit t → copy_texts dst entry_sizes t ≡ t
unfolding copy_texts
copy_texts_all dst t v =
    rw
      (
        safe_copy_all dst.process if_flow_max_proc_name t.process v.process_fits,
        safe_copy_all dst.cmdline if_flow_max_cmdline t.cmdline v.cmdline_fits,
        safe_copy_all dst.workload if_flow_max_workload t.workload v.workload_fits,
      )
      refl

-- A call of `resolver_read_identity_by_pid`, and calls in turn.
pub record Reading : Type 0 where
  pub fs : ProcFs
  pub clock : ℕ → ℕ
  pub pid : ℤ
  pub sz : Sizes
  pub texts : Texts

pub read_all : List Reading → PidCache → PidCache
read_all [] pids = pids
read_all (r ∷ rs) pids =
    read_all rs (resolver_read_identity_by_pid r.fs r.clock r.pid r.sz r.texts pids).1

-- The process has another cell.
abbrev pub UsesOtherCell : ℕ → ℤ → Type 0
UsesOtherCell idx (pos q) = (idx == q % 1024) ≡ false
UsesOtherCell idx (negsuc n) = Unit {0}

read_identity-other :
    (r : Reading) (pid : ℤ) (idx : ℕ) (pids : PidCache)
    → UsesOtherCell idx pid
    → (resolver_read_identity_by_pid r.fs r.clock pid r.sz r.texts pids).1 idx ≡ pids idx
unfolding resolver_read_identity_by_pid
read_identity-other r (negsuc n) idx pids h = refl
read_identity-other r (pos q) idx pids h = elim (Bool-cases (is_known pids q (r.clock 0))) [
  | inl known ↦ rw known refl
  | inr unknown ↦ rw (unknown, h) refl
]

read_all-other :
    (rs : List Reading) (idx : ℕ) (pids : PidCache)
    → All (λ r. UsesOtherCell idx r.pid) rs
    → read_all rs pids idx ≡ pids idx
unfolding read_all
read_all-other [] idx pids h = refl
read_all-other (r ∷ rs) idx pids h =
    read_all-other rs idx _ h.1 ∙ read_identity-other r r.pid idx pids h.0

module _ (fs fs' : ProcFs) (clock clock' : ℕ → ℕ) (pid : ℕ) (texts texts' : Texts) where
  abbrev found : Texts
  found = read_texts fs pid entry_sizes texts

  abbrev stored : PidIdentity
  stored = record { pid = pid; texts = found; ts = clock 1 }

  read_identity_miss :
      (pids : PidCache)
      → is_known pids pid (clock 0) ≡ false
      → resolver_read_identity_by_pid fs clock (pos pid) entry_sizes texts pids
        ≡ (found, store pids (pid % 1024) stored)
  unfolding resolver_read_identity_by_pid
  read_identity_miss pids h =
      let copied =
        copy_texts_all (pids (pid % 1024)).texts found (read_texts-TextsFit fs pid texts) in
      rw (h, copied) refl

  read_identity_hit :
      (pids : PidCache)
      → pids (pid % 1024) ≡ stored
      → clock' 0 ≤ clock 1 + 30 * second
      → resolver_read_identity_by_pid fs' clock' (pos pid) entry_sizes texts' pids ≡ (found, pids)
  unfolding resolver_read_identity_by_pid is_known
  read_identity_hit pids h soon =
      let known : is_known pids pid (clock' 0) ≡ true =
        unfold is_known in rw h (ground (arith, ==_iff pid pid)) in
      rw (known, h)
        (ap (λ t. (t, pids)) (copy_texts_all texts' found (read_texts-TextsFit fs pid texts)))

  -- What is read of a process that the cache does not know is what is answered for it 30 seconds
  -- long, whatever /proc holds then and whatever is in the buffers, after any calls in between for
  -- processes that have other cells.
  pub read_identity_again :
      (rs : List Reading) (pids : PidCache)
      → is_known pids pid (clock 0) ≡ false
      → All (λ r. UsesOtherCell (pid % 1024) r.pid) rs
      → clock' 0 ≤ clock 1 + 30 * second
      → let (first, known) =
          resolver_read_identity_by_pid fs clock (pos pid) entry_sizes texts pids in
        let later = read_all rs known in
        resolver_read_identity_by_pid fs' clock' (pos pid) entry_sizes texts' later ≡ (first, later)
  read_identity_again rs pids h others soon =
      let known = store pids (pid % 1024) stored in
      let here : store pids (pid % 1024) stored (pid % 1024) ≡ stored =
        ground (arith, ==_iff (pid % 1024) (pid % 1024)) in
      rw (read_identity_miss pids h) (
        read_identity_hit (read_all rs known) (read_all-other rs (pid % 1024) known others ∙ here)
          soon)
