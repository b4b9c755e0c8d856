-- ===== src/Resolver/Hidden.antt =====
-- src/resolver.c: an entry that is refreshed in place stays where it is, and the search from the end
-- stops at the first entry that is too old.
use if_flow.Base.{
  ℕ, zero, suc, ◌+◌, ◌≡◌, refl, ap, sym, ◌∙◌, All, All-get, Option-cases, Bool, true, false, ◌||◌,
  none, some, List, [], ◌∷◌, ◌++◌, ℤ, pos, arith, length, length-append, get_elem?,
  get_elem?-append_zero, Bool-cases, inl, inr,
}
use if_flow.Flow.{FlowKey, flow_key_equal}
use if_flow.Resolver.{
  Resolver, ResolverCacheEntry, Texts, Sizes, is_cached, answers_key, refresh_entry, refresh_loop,
  get_loop, after_refresh, resolver_cache_put, resolver_cache_get,
}

-- Whether the key has an entry.
unfoldable pub has_answer : FlowKey → List ResolverCacheEntry → Bool
has_answer key [] = false
has_answer key (e ∷ es) = flow_key_equal e.key key || has_answer key es

module _ (key : FlowKey) (pid : ℤ) (texts : Texts) (now : ℕ) where
  -- A refresh in front leaves the entries behind where they are.
  refresh_loop-front :
      (es : List ResolverCacheEntry) (s : ResolverCacheEntry) (ys : List ResolverCacheEntry)
      → has_answer key es ≡ true
      → (es' : List ResolverCacheEntry) × (refresh_loop key pid texts now (es ++ s ∷ ys)
          ≡ some (es' ++ s ∷ ys))
  unfolding refresh_loop has_answer
  refresh_loop-front [] s ys h = absurd (ground (arith, h))
  refresh_loop-front (e ∷ es) s ys h = elim (Bool-cases (flow_key_equal e.key key)) [
    | inl here ↦ (refresh_entry pid texts now e ∷ es, rw here refl)
    | inr other ↦
        let (es', later) = refresh_loop-front es s ys (rw other at h) in
        (e ∷ es', rw (other, later) refl)
  ]

get_elem?-behind :
    (es : List ResolverCacheEntry) (s : ResolverCacheEntry) (ys : List ResolverCacheEntry) (k : ℕ)
    → get_elem? (es ++ s ∷ ys) (k + suc (length es)) ≡ get_elem? ys k
get_elem?-behind [] s ys k = let e : k + 1 ≡ suc k = omega arith in rw e refl
get_elem?-behind (e ∷ es) s ys k =
    let next : k + suc (suc (length es)) ≡ suc (k + suc (length es)) = omega arith in
    rw next (get_elem?-behind es s ys k)

module _ (resolver : Resolver) (now : ℕ) (key : FlowKey) where
  get_loop-pass :
      (n : ℕ)
      → ((e : ResolverCacheEntry)
          → get_elem? resolver.entries n ≡ some e
          → answers_key key e ≡ false)
      → get_loop resolver now key n ≡ none
      → get_loop resolver now key (suc n) ≡ none
  get_loop-pass n other missed = elim (Option-cases (get_elem? resolver.entries n)) [
    | inl past ↦ unfold get_loop in rw (get_loop, past) missed
    | inr (e, at) ↦
        let no : answers_key key e ≡ false = other e at in
        elim (Bool-cases (is_cached resolver now e)) [
          | inl live ↦ unfold get_loop in rw (get_loop, at, live, no) missed
          | inr old ↦ unfold get_loop in rw (get_loop, at, old) refl
        ]
  ]

  module _ (es : List ResolverCacheEntry) (s : ResolverCacheEntry) (ys : List ResolverCacheEntry)
      (h : resolver.entries ≡ es ++ s ∷ ys) (old : is_cached resolver now s ≡ false)
      (others : All (λ e. answers_key key e ≡ false) ys) where
    get_loop-behind : (k : ℕ) → get_loop resolver now key (k + suc (length es)) ≡ none
    get_loop-behind zero =
        let at : get_elem? resolver.entries (length es) ≡ some s =
          rw h (get_elem?-append_zero es (s ∷ ys)) in
        let start : 0 + suc (length es) ≡ suc (length es) = omega arith in
        unfold get_loop in rw (start, get_loop, at, old) refl
    get_loop-behind (suc k) =
        let next : suc k + suc (length es) ≡ suc (k + suc (length es)) = omega arith in
        rw next (
          get_loop-pass (k + suc (length es))
            (λ e at.
              All-get (λ e. answers_key key e ≡ false) ys k e
                (sym (ap (λ xs. get_elem? xs (k + suc (length es))) h ∙ get_elem?-behind es s ys k)
                  ∙ at)
                others)
            (get_loop-behind k))

    -- An old entry hides those in front of it from a search that finds nothing behind it.
    get_behind_stale : (sz : Sizes) → resolver_cache_get now key sz resolver ≡ none
    unfolding resolver_cache_get
    get_behind_stale sz =
        let size : length resolver.entries ≡ length ys + suc (length es) =
          ap length h ∙ omega (arith, length-append es (s ∷ ys)) in
        let missed : get_loop resolver now key (length resolver.entries) ≡ none =
          ap (get_loop resolver now key) size ∙ get_loop-behind (length ys) in
        rw (missed, resolver_cache_get) refl

-- A put for a key that has an entry in front of one that is too old at `now`, behind which no entry
-- is for the key or its reverse, is lost on a lookup at `now`: the entry is refreshed where it is, and
-- the search does not get there.
pub get-put_hidden :
    (realloc : ℕ → Bool) (clock : ℕ → ℕ) (now : ℕ) (key : FlowKey) (pid : ℕ) (texts : Texts)
    (sz : Sizes) (resolver : Resolver) (es : List ResolverCacheEntry) (s : ResolverCacheEntry)
    (ys : List ResolverCacheEntry)
    → resolver.entries ≡ es ++ s ∷ ys
    → has_answer key es ≡ true
    → is_cached resolver now s ≡ false
    → All (λ e. answers_key key e ≡ false) ys
    → resolver_cache_get now key sz (resolver_cache_put realloc clock key (pos pid) texts resolver)
      ≡ none
unfolding resolver_cache_put after_refresh
get-put_hidden realloc clock now key pid texts sz resolver es s ys h has old others =
    let (es', found) = refresh_loop-front key (pos pid) texts (clock 0) es s ys has in
    rw (h, found)
      (get_behind_stale (record resolver { entries = es' ++ s ∷ ys }) now key es' s ys refl
        (unfold is_cached in old) others sz)
