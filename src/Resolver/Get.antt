-- ===== src/Resolver/Get.antt =====
-- `resolver_cache_get` of src/resolver.c: which entry answers.
use if_flow.Base.{
  ℕ, zero, suc, ◌≤◌, ◌<◌, ◌≡◌, refl, sym, subst, ◌≢◌, ◌⊎◌, Bool, true, false, Option, none, some,
  List, [], ◌∷◌, ℤ, arith, length, get_elem?, Option-cases, inl, inr, if◌then◌else◌,
}
use if_flow.Flow.{FlowKey}
use if_flow.Resolver.{
  Resolver, ResolverCacheEntry, Texts, Sizes, no_texts, copy_texts, is_cached, answers_key,
  get_loop, resolver_cache_get,
}

-- What a caller gets of the entry that answers.
abbrev pub texts_of : Sizes → Option ResolverCacheEntry → Option (ℤ × Texts)
texts_of sz none = none
texts_of sz (some e) = some (e.pid, copy_texts no_texts sz e.texts)

module _ (resolver : Resolver) (now : ℕ) (key : FlowKey) where
  -- The entry at `j` is too old.
  pub record IsStaleAt (j : ℕ) : Type 0 where
    pub stale : ResolverCacheEntry
    pub at : get_elem? resolver.entries j ≡ some stale
    pub is_stale : is_cached resolver now stale ≡ false

  -- Of the first `n` entries none answers: any that is for the key is too old or stands in front of
  -- one that is.
  abbrev pub Unanswered : ℕ → Type 0
  Unanswered n =
      (i : ℕ) (e : ResolverCacheEntry)
      → i < n
      → get_elem? resolver.entries i ≡ some e
      → answers_key key e ≡ true
      → (j : ℕ) × (i ≤ j) × (j < n) × IsStaleAt j

  -- Of the first `n` entries `e` answers: it is for the key and live, and so is every entry behind
  -- it, of which none is for the key.
  pub record Answered (n : ℕ) (e : ResolverCacheEntry) : Type 0 where
    pub index : ℕ
    pub below : index < n
    pub at : get_elem? resolver.entries index ≡ some e
    pub is_live : is_cached resolver now e ≡ true
    pub is_for_key : answers_key key e ≡ true
    pub later :
        (j : ℕ) (s : ResolverCacheEntry)
        → index < j
        → j < n
        → get_elem? resolver.entries j ≡ some s
        → (is_cached resolver now s ≡ true) × (answers_key key s ≡ false)

  abbrev pub IsAnswer : ℕ → Option ResolverCacheEntry → Type 0
  IsAnswer n none = Unanswered n
  IsAnswer n (some e) = Answered n e

  below_suc : (i n : ℕ) → i < suc n → (i < n) ⊎ (i ≡ n)
  below_suc i n h = ground arith

  same_entry :
      {i n : ℕ} (e s : ResolverCacheEntry)
      → i ≡ n
      → get_elem? resolver.entries n ≡ some e
      → get_elem? resolver.entries i ≡ some s
      → s ≡ e
  same_entry e s p g h = cc

  IsAnswer-pass :
      (n : ℕ) (e : ResolverCacheEntry) (o : Option ResolverCacheEntry)
      → get_elem? resolver.entries n ≡ some e
      → is_cached resolver now e ≡ true
      → answers_key key e ≡ false
      → IsAnswer n o
      → IsAnswer (suc n) o
  IsAnswer-pass n e none g live other h = λ i s lt at a. elim (below_suc i n lt) [
    | inl before ↦ let (j, le, lt', stale) = h i s before at a in (j, le, omega arith, stale)
    | inr here ↦ absurd (cc (same_entry e s here g at))
  ]
  IsAnswer-pass n e (some x) g live other h = record {
    index = h.index;
    below = omega (arith, h.below);
    at = h.at;
    is_live = h.is_live;
    is_for_key = h.is_for_key;
    later = λ j s lt lt' at. elim (below_suc j n lt') [
      | inl before ↦ h.later j s lt before at
      | inr here ↦ let same = same_entry e s here g at in (cc (same, live), cc (same, other))
    ];
  }

  get_loop-at :
      (n : ℕ) (e : ResolverCacheEntry)
      → get_elem? resolver.entries n ≡ some e
      → get_loop resolver now key (suc n) ≡ (
          if is_cached resolver now e
          then (if answers_key key e then some e else get_loop resolver now key n)
          else none)
  unfolding get_loop
  get_loop-at n e at = rw (at, get_loop) refl

  in_range : (n : ℕ) (es : List ResolverCacheEntry) → suc n ≤ length es → get_elem? es n ≢ none
  in_range n [] b h = absurd (omega arith)
  in_range zero (e ∷ es) b h = cc
  in_range (suc n) (e ∷ es) b h = in_range n es (omega arith) h

  IsAnswer-step :
      (n : ℕ) (e : ResolverCacheEntry) (o : Option ResolverCacheEntry) (live here : Bool)
      → get_elem? resolver.entries n ≡ some e
      → is_cached resolver now e ≡ live
      → answers_key key e ≡ here
      → IsAnswer n o
      → IsAnswer (suc n) (if live then (if here then some e else o) else none)
  IsAnswer-step n e o false here at l h before =
      λ i s lt at' a. (n, omega arith, omega arith, record { stale = e; at = at; is_stale = l })
  IsAnswer-step n e o true true at l h before = record {
    index = n;
    below = omega arith;
    at = at;
    is_live = l;
    is_for_key = h;
    later = λ j s lt lt' at'. absurd (omega arith);
  }
  IsAnswer-step n e o true false at l h before = IsAnswer-pass n e o at l h before

  get_loop-IsAnswer :
      (n : ℕ) → n ≤ length resolver.entries → IsAnswer n (get_loop resolver now key n)
  get_loop-IsAnswer zero b = unfold get_loop in (λ i e lt at a. absurd (omega arith))
  get_loop-IsAnswer (suc n) b =
      let before = get_loop-IsAnswer n (omega arith) in
      elim (Option-cases (get_elem? resolver.entries n)) [
        | inl missing ↦ absurd (in_range n resolver.entries b missing)
        | inr (e, at) ↦ subst (IsAnswer (suc n)) (sym (get_loop-at n e at)) (
            IsAnswer-step n e (get_loop resolver now key n) (is_cached resolver now e)
              (answers_key key e) at refl refl before)
      ]

  -- A lookup in the cache gives the identity in the last entry for the key or its reverse, if that
  -- entry and all behind it are live, and none just where that is not so.
  pub cache_get_lem :
      (sz : Sizes)
      → (o : Option ResolverCacheEntry) × (resolver_cache_get now key sz resolver ≡ texts_of sz o)
        × IsAnswer (length resolver.entries) o
  unfolding resolver_cache_get
  cache_get_lem sz = (
    get_loop resolver now key (length resolver.entries),
    joined (get_loop resolver now key (length resolver.entries)),
    get_loop-IsAnswer (length resolver.entries) (omega arith),
  )
    where
      joined :
          (o : Option ResolverCacheEntry)
          → ◌≡◌ {A = Option (ℤ × Texts)}
              (elim o [ none ↦ none | some e ↦ some (e.pid, copy_texts no_texts sz e.texts) ])
              (texts_of sz o)
      joined none = refl
      joined (some e) = refl
