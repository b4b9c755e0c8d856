-- ===== src/Agent/Attribution.antt =====
-- src/main.c: where the identity of a packet comes from.
use if_flow.Base.{
  subst, codes, true, if◌then◌else◌, ℕ, ◌+◌, ◌^◌, ◌≤◌, ◌<◌, ◌≡◌, refl, sym, ◌∙◌, false, Option,
  none, some, [], Bytes, ℤ, pos, negsuc, is_neg, is_empty, arith, length, last, All-last, All-kept,
  kept, Bool-cases, Option-cases, inl, inr,
}
use if_flow.Flow.{FlowKey, src_ebpf, src_proc, src_unknown, if_flow_max_proc_name}
use if_flow.EbpfTracker.{EbpfTracker, EbpfCacheEntry, is_not_positive, ebpf_tracker_lookup}
use if_flow.EbpfTracker.Invariant as HintLaws
use if_flow.EbpfTracker.Lookup.{answers, identity_of, lookup_lem}
use if_flow.Resolver.{Resolver, Texts, entry_sizes, no_texts}
use if_flow.Resolver.Identity.{PidCache, resolver_read_identity_by_pid}
use if_flow.Resolver.Scan.{resolver_lookup}
use if_flow.Resolver.Invariant.{Inv, TextsFit}
use if_flow.Resolver.Scan.Keeps.{AnswerFits, lookup-Looked, read_identity-TextsFit}
use if_flow.Packet.{Identity}
use if_flow.Agent.{
  App, Library, Outside, Attributed, or_host, by_hint, by_proc, hint_for, with_hint, with_proc,
  attribute,
}

-- The process of a hint is one.
hint_is_process :
    (clock : ℕ → ℕ) (key : FlowKey) (sz : ℕ) (tracker : EbpfTracker) (pid : ℤ) (process : Bytes)
    → HintLaws.Inv tracker
    → ebpf_tracker_lookup clock key sz tracker ≡ some (pid, process)
    → is_neg pid ≡ false
hint_is_process clock key sz tracker pid process v h =
    let es = kept (answers clock tracker key) 0 tracker.entries in
    let inv = All-kept (answers clock tracker key) HintLaws.HintInv 0 tracker.entries v.hints in
    by_entry (last es) (λ e at. All-last HintLaws.HintInv es e at inv)
      (sym (lookup_lem clock tracker key sz) ∙ h)
  where
    positive : (z w : ℤ) → z ≡ w → is_not_positive z ≡ false → is_neg w ≡ false
    positive (pos n) (pos m) e h = refl
    positive (pos n) (negsuc m) e h = absurd (cc)
    positive (negsuc n) w e h = absurd (cc)

    by_entry :
        (o : Option EbpfCacheEntry)
        → ((e : EbpfCacheEntry) → o ≡ some e → HintLaws.HintInv e)
        → identity_of sz o ≡ some (pid, process)
        → is_neg pid ≡ false
    by_entry none inv e = absurd (cc)
    by_entry (some x) inv e = positive x.pid pid (cc (e)) (inv x refl).is_process

-- The texts of an identity, which the table copies.
abbrev pub texts_of : Identity → Texts
texts_of i = record { process = i.process; cmdline = i.cmdline; workload = i.workload }

-- The identity is that of a hint for `pid`, whose texts were read; "HOST" stands for no workload.
pub record IsHinted (pid : ℤ) (read : Texts) (i : Identity) : Type 0 where
  pub is_ebpf : i.attr_source ≡ src_ebpf
  pub is_pid : i.pid ≡ pid
  pub is_process : is_neg pid ≡ false
  pub same_process : i.process ≡ read.process
  pub same_cmdline : i.cmdline ≡ read.cmdline
  pub same_workload : is_empty read.workload ≡ false → i.workload ≡ read.workload
  pub host_workload : is_empty read.workload ≡ true → i.workload ≡ codes "HOST"

-- Without a hint the identity is what the resolver answered; nothing is known where it has no answer.
abbrev pub IsAnswered : Option (ℤ × Texts) → Identity → Type 0
IsAnswered (some (pid, texts)) i =
    (i.attr_source ≡ src_proc) × (i.pid ≡ pid) × (is_neg pid ≡ false) × (texts_of i ≡ texts)
IsAnswered none i = (i.attr_source ≡ src_unknown) × (i.pid ≡ negsuc 0) × (texts_of i ≡ no_texts)

or_host_lem :
    (t : Texts)
    → TextsFit t
    → TextsFit (record t { workload = or_host t.workload })
      × (is_empty (or_host t.workload) ≡ false)
or_host_lem t v = elim (Bool-cases (is_empty t.workload)) [
  | inl blank ↦ rw blank (
    record {
      process_fits = v.process_fits;
      cmdline_fits = v.cmdline_fits;
      workload_fits = omega arith;
    },
    refl,
  )
  | inr given ↦ rw given (v, given)
]

or_host-IsHinted : (pid : ℤ) (t : Texts) → is_neg pid ≡ false → IsHinted pid t (by_hint pid t)
or_host-IsHinted pid t h = record {
  is_ebpf = refl;
  is_pid = refl;
  is_process = h;
  same_process = refl;
  same_cmdline = refl;
  same_workload = λ given. rw given refl;
  host_workload = λ blank. rw blank refl;
}

module _ (lib : Library) (out : Outside) (app : App) (key : FlowKey) where
  -- What the cache of the eBPF program answers, if it is in use; what is read of a process with that
  -- name in the buffer; and what the resolver answers.
  abbrev pub hint : Option (ℤ × Bytes)
  hint =
      if app.cfg.use_ebpf
      then ebpf_tracker_lookup out.ebpf_clock key if_flow_max_proc_name app.ebpf
      else none

  abbrev pub read : ℤ → Bytes → Texts × PidCache
  read pid process =
      resolver_read_identity_by_pid out.fs out.clock pid entry_sizes
        (record { process = process; cmdline = []; workload = [] }) app.pids

  abbrev pub looked : Resolver × PidCache × Option (ℤ × Texts)
  looked =
      resolver_lookup lib.scan_hex lib.ipv6_text out.fs out.cache_realloc out.clock key entry_sizes
        app.resolver app.pids

  -- Who decides, and what becomes of the two caches of the resolver.
  abbrev pub IsBy : Option (ℤ × Bytes) → Attributed → Type 0
  IsBy (some (pid, process)) (after, known, identity) =
      (after ≡ app.resolver)
      × (known ≡ (read pid process).1)
      × IsHinted pid (read pid process).0 identity
  IsBy none (after, known, identity) =
      (after ≡ looked.0) × (known ≡ looked.1) × IsAnswered looked.2 identity

  -- What an attribution leaves: besides, the invariant of the resolver's cache with one entry more at
  -- most, and texts that fit.
  pub record IsAttributed (attributed : Attributed) : Type 0 where
    pub kept : Inv attributed.0
    pub grows : length attributed.0.entries ≤ length app.resolver.entries + 1
    pub fits : TextsFit (texts_of attributed.2)
    pub is_by : IsBy hint attributed

  with_hint-IsBy :
      (pid : ℤ) (process : Bytes)
      → is_neg pid ≡ false
      → Inv app.resolver
      → hint ≡ some (pid, process)
      → IsAttributed (with_hint lib out app pid process)
  with_hint-IsBy pid process real v h =
      let buffers : Texts = record { process = process; cmdline = []; workload = [] } in
      let fit = read_identity-TextsFit out.fs out.clock pid buffers app.pids in
      record {
        kept = v;
        grows = omega arith;
        fits = (or_host_lem (read pid process).0 fit).0;
        is_by =
            subst (λ o. IsBy o (with_hint lib out app pid process)) (sym h)
              (refl, refl, or_host-IsHinted pid (read pid process).0 real);
      }

  with_proc-IsBy :
      length app.resolver.entries < 2 ^ 62
      → Inv app.resolver
      → hint ≡ none
      → IsAttributed (with_proc lib out app key)
  with_proc-IsBy b v h =
      let found =
        lookup-Looked lib.scan_hex lib.ipv6_text out.fs out.cache_realloc out.clock key app.resolver
          app.pids b v in
      let (fits, answered) = by_answer looked.2 found.fits in
      record {
        kept = found.kept;
        grows = found.grows;
        fits = fits;
        is_by = subst (λ o. IsBy o (with_proc lib out app key)) (sym h) (refl, refl, answered);
      }
    where
      by_answer :
          (o : Option (ℤ × Texts))
          → AnswerFits o
          → TextsFit (texts_of (by_proc o)) × IsAnswered o (by_proc o)
      by_answer none h = (omega arith, (refl, refl, refl))
      by_answer (some (pid, texts)) h = (h.1, (refl, refl, h.0, refl))

  hint_for-is_process :
      (pid : ℤ) (process : Bytes)
      → HintLaws.Inv app.ebpf
      → hint_for out app key ≡ some (pid, process)
      → is_neg pid ≡ false
  hint_for-is_process pid process v h = elim (Bool-cases app.cfg.use_ebpf) [
    | inr off ↦ absurd (ground (arith, off, h))
    | inl on ↦
        hint_is_process out.ebpf_clock key if_flow_max_proc_name app.ebpf pid process v (rw on at h)
  ]

  -- With both caches in their invariants and fewer than 2 ^ 62 answers: if the cache of the eBPF
  -- program is in use and has a hint, the identity is that of the hint's process, as it is read of the
  -- process or known, with "HOST" for an empty workload, and the source is eBPF. Otherwise it is what
  -- the resolver answers, with /proc as the source, and where the resolver has no answer nothing is
  -- known, and the source neither. The resolver's caches are left as the one that was asked leaves
  -- them; its cache of answers keeps its invariant and gets one entry more at most, and the texts fit.
  pub attribute_lem :
      length app.resolver.entries < 2 ^ 62
      → Inv app.resolver
      → HintLaws.Inv app.ebpf
      → IsAttributed (attribute lib out app key)
  unfolding attribute
  attribute_lem b v w = elim (Option-cases (hint_for out app key)) [
    | inl none_there ↦ rw (none_there, attribute) (with_proc-IsBy b v none_there)
    | inr ((pid, process), given) ↦
        rw (given, attribute)
          (with_hint-IsBy pid process (hint_for-is_process pid process w given) v given)
  ]
