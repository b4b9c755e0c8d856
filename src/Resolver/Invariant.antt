-- ===== src/Resolver/Invariant.antt =====
-- What the cache of src/resolver.c satisfies, and that its operations keep it.
use if_flow.Base.{
  ℕ, ◌+◌, ◌≤◌, ◌<◌, ◌≡◌, refl, ap, Bool, false, Option, none, some, List, [], ◌∷◌, map, ℤ, is_neg,
  arith, length, length-kept, kept, sweep_lem, All, All-kept, safe_copy_fits, if◌then◌else◌,
  Bool-cases, inl, inr,
}
use if_flow.Flow.{
  FlowKey, flow_key_equal, if_flow_max_proc_name, if_flow_max_cmdline, if_flow_max_workload,
}
use if_flow.Resolver.{
  Resolver, ResolverCacheEntry, Texts, entry_sizes, copy_texts, is_cached, refresh_entry,
  refresh_loop, resolver_cache_prune, resolver_init,
}

abbrev pub key_of : ResolverCacheEntry → FlowKey
key_of e = e.key

-- No key twice.
abbrev pub IsDistinct : List FlowKey → Type 0
IsDistinct [] = Unit {0}
IsDistinct (k ∷ ks) = All (λ j. flow_key_equal k j ≡ false) ks × IsDistinct ks

-- The texts fit buffers of the sizes of an entry.
pub record TextsFit (texts : Texts) : Type 0 where
  pub process_fits : length texts.process < if_flow_max_proc_name
  pub cmdline_fits : length texts.cmdline < if_flow_max_cmdline
  pub workload_fits : length texts.workload < if_flow_max_workload

pub record AnswerInv (e : ResolverCacheEntry) : Type 0 where
  pub is_process : is_neg e.pid ≡ false
  pub fits : TextsFit e.texts

pub record Inv (resolver : Resolver) : Type 0 where
  pub within_cap : length resolver.entries ≤ resolver.cap
  pub distinct : IsDistinct (map key_of resolver.entries)
  pub answers : All AnswerInv resolver.entries

pub copy_texts-TextsFit : (dst src : Texts) → TextsFit (copy_texts dst entry_sizes src)
unfolding copy_texts
copy_texts-TextsFit dst src = record {
  process_fits = safe_copy_fits dst.process if_flow_max_proc_name (some src.process) (omega arith);
  cmdline_fits = safe_copy_fits dst.cmdline if_flow_max_cmdline (some src.cmdline) (omega arith);
  workload_fits =
      safe_copy_fits dst.workload if_flow_max_workload (some src.workload) (omega arith);
}

pub init-Inv : (ttl_sec refresh_sec : ℕ) → Inv (resolver_init ttl_sec refresh_sec)
unfolding resolver_init
init-Inv ttl_sec refresh_sec = record { within_cap = omega arith; distinct = tt; answers = tt }

-- Pruning.
module _ (keep : ℕ → ResolverCacheEntry → Bool) where
  All_keys-kept :
      (k : FlowKey) (i : ℕ) (es : List ResolverCacheEntry)
      → All (λ j. flow_key_equal k j ≡ false) (map key_of es)
      → All (λ j. flow_key_equal k j ≡ false) (map key_of (kept keep i es))
  unfolding kept
  All_keys-kept k i [] h = tt
  All_keys-kept k i (e ∷ es) h = elim (Bool-cases (keep i e)) [
    | inl b ↦ rw b (h.0, All_keys-kept k (i + 1) es h.1)
    | inr b ↦ rw b (All_keys-kept k (i + 1) es h.1)
  ]

  IsDistinct-kept :
      (i : ℕ) (es : List ResolverCacheEntry)
      → IsDistinct (map key_of es)
      → IsDistinct (map key_of (kept keep i es))
  unfolding kept
  IsDistinct-kept i [] d = tt
  IsDistinct-kept i (e ∷ es) d = elim (Bool-cases (keep i e)) [
    | inl b ↦ rw b (All_keys-kept e.key (i + 1) es d.0, IsDistinct-kept (i + 1) es d.1)
    | inr b ↦ rw b (IsDistinct-kept (i + 1) es d.1)
  ]

pub prune_lem :
    (now : ℕ) (resolver : Resolver)
    → resolver_cache_prune now resolver
      ≡ record resolver { entries = kept (λ r. is_cached resolver now) 0 resolver.entries }
unfolding resolver_cache_prune
prune_lem now resolver = rw (sweep_lem (λ r. is_cached resolver now) resolver.entries) refl

pub prune-Inv :
    (now : ℕ) (resolver : Resolver) → Inv resolver → Inv (resolver_cache_prune now resolver)
prune-Inv now resolver v =
    let keep : ℕ → ResolverCacheEntry → Bool = λ r. is_cached resolver now in
    rw (prune_lem now resolver) (record {
      within_cap = omega (arith, length-kept keep 0 resolver.entries, v.within_cap);
      distinct = IsDistinct-kept keep 0 resolver.entries v.distinct;
      answers = All-kept keep AnswerInv 0 resolver.entries v.answers;
    })

pub refresh_loop-cons :
    (key : FlowKey) (pid : ℤ) (texts : Texts) (now : ℕ) (e : ResolverCacheEntry)
    (es : List ResolverCacheEntry)
    → refresh_loop key pid texts now (e ∷ es) ≡ (
        if flow_key_equal e.key key
        then some (refresh_entry pid texts now e ∷ es)
        else elim (refresh_loop key pid texts now es) [ none ↦ none | some es' ↦ some (e ∷ es') ])
unfolding refresh_loop
refresh_loop-cons key pid texts now e es = refl

-- Putting.
module _ (key : FlowKey) (pid : ℤ) (texts : Texts) (real : is_neg pid ≡ false) where
  -- What the search for the key ends with: a key that is new, or an array with the same keys.
  abbrev pub Refreshed : List ResolverCacheEntry → Option (List ResolverCacheEntry) → Type 0
  Refreshed es none = All (λ k. flow_key_equal k key ≡ false) (map key_of es)
  Refreshed es (some es') = (map key_of es' ≡ map key_of es) × All AnswerInv es'

  refresh-cons :
      (e : ResolverCacheEntry) (es : List ResolverCacheEntry) (o : Option (List ResolverCacheEntry))
      → flow_key_equal e.key key ≡ false
      → AnswerInv e
      → Refreshed es o
      → Refreshed (e ∷ es) (elim o [ none ↦ none | some es' ↦ some (e ∷ es') ])
  refresh-cons e es none n v h = (n, h)
  refresh-cons e es (some es') n v h = (ap (◌∷◌ e.key) h.0, (v, h.1))

  refreshed-AnswerInv :
      (now : ℕ) (e : ResolverCacheEntry) → AnswerInv (refresh_entry pid texts now e)
  unfolding refresh_entry
  refreshed-AnswerInv now e = record { is_process = real; fits = copy_texts-TextsFit e.texts texts }

  pub refresh_loop-Refreshed :
      (now : ℕ) (es : List ResolverCacheEntry)
      → All AnswerInv es
      → Refreshed es (refresh_loop key pid texts now es)
  refresh_loop-Refreshed now [] v = unfold refresh_loop in tt
  refresh_loop-Refreshed now (e ∷ es) v = elim (Bool-cases (flow_key_equal e.key key)) [
    | inl here ↦
        rw (refresh_loop-cons key pid texts now e es, here)
          (unfold refresh_entry in refl, (refreshed-AnswerInv now e, v.1))
    | inr other ↦
        rw (refresh_loop-cons key pid texts now e es, other)
          (refresh-cons e es _ other v.0 (refresh_loop-Refreshed now es v.1))
  ]
