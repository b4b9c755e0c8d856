-- ===== src/Resolver/Recent.antt =====
-- src/resolver.c: an answer that is put for a new key is what the cache gives while it is trusted.
use if_flow.Base.{
  ℕ, suc, ◌+◌, ◌*◌, ◌%◌, ◌≤◌, ◌≡◌, ◌∙◌, refl, ap, Bool, true, false, Option, none, some, List, [],
  ◌∷◌, ◌++◌, ℤ, pos, arith, length, length-append, All, get_elem?, get_elem?-append_zero, kept,
  kept-append, if◌then◌else◌, ◌==◌, Bool-cases, inl, inr,
}
use if_flow.Flow.{
  FlowKey, flow_key_equal, flow_key_equal_iff, flow_key_equal_rev_iff, reversed, u64_mod,
}
use if_flow.Resolver.{
  Resolver, ResolverCacheEntry, Texts, Sizes, entry_sizes, no_texts, copy_texts, is_cached,
  answers_key, refresh_loop, grow_resolver, fresh_answer, append_answer, after_refresh,
  resolver_cache_put, get_loop, resolver_cache_get,
}
use if_flow.Resolver.Invariant.{prune_lem}

refresh_loop-new :
    (key : FlowKey) (pid : ℤ) (texts : Texts) (now : ℕ) (es : List ResolverCacheEntry)
    → All (λ e. flow_key_equal e.key key ≡ false) es
    → refresh_loop key pid texts now es ≡ none
unfolding refresh_loop
refresh_loop-new key pid texts now [] h = refl
refresh_loop-new key pid texts now (e ∷ es) h =
    let later = refresh_loop-new key pid texts now es h.1 in rw (h.0, later) refl

grow_resolver-granted :
    (realloc : ℕ → Bool) (resolver : Resolver)
    → ((n : ℕ) → realloc n ≡ true)
    → (c : ℕ) × (grow_resolver realloc resolver ≡ some (record resolver { cap = c }))
unfolding grow_resolver
grow_resolver-granted realloc resolver granted =
    elim (Bool-cases (length resolver.entries == resolver.cap)) [
      | inr room ↦ (resolver.cap, rw room refl)
      | inl full ↦
          let new_cap = if resolver.cap == 0 then 2048 else (resolver.cap * 2) % u64_mod in
          (new_cap, rw (full, granted new_cap) refl)
    ]

-- A live entry at the end of the array is what is found.
get-last :
    (resolver : Resolver) (now : ℕ) (key : FlowKey) (sz : Sizes) (es : List ResolverCacheEntry)
    (e : ResolverCacheEntry)
    → resolver.entries ≡ es ++ e ∷ []
    → is_cached resolver now e ≡ true
    → answers_key key e ≡ true
    → resolver_cache_get now key sz resolver ≡ some (e.pid, copy_texts no_texts sz e.texts)
unfolding resolver_cache_get get_loop
get-last resolver now key sz es e h live here =
    let size : length resolver.entries ≡ suc (length es) =
      ap length h ∙ omega (arith, length-append es (e ∷ [])) in
    let at : get_elem? resolver.entries (length es) ≡ some e =
      rw h (get_elem?-append_zero es (e ∷ [])) in
    let found : get_loop resolver now key (length resolver.entries) ≡ some e =
      ap (get_loop resolver now key) size ∙ rw (get_loop, at, live, here) refl in
    rw (found, resolver_cache_get) refl

module _ (key : FlowKey) (pid : ℕ) (texts : Texts) where
  abbrev new : ℕ → ResolverCacheEntry
  new now = fresh_answer key (pos pid) texts now

  new-is_cached :
      (resolver : Resolver) (now later : ℕ)
      → later ≤ now + resolver.ttl_sec
      → is_cached resolver later (new now) ≡ true
  unfolding is_cached fresh_answer
  new-is_cached resolver now later h = ground arith

  new-answers_key :
      (now : ℕ) → (answers_key key (new now) ≡ true) × (answers_key (reversed key) (new now) ≡ true)
  unfolding answers_key fresh_answer
  new-answers_key now = (
    ground (arith, flow_key_equal_iff key key),
    ground (arith, flow_key_equal_rev_iff key (reversed key)),
  )

  -- The cache behind a put for a key without an entry.
  pub put_lem :
      (realloc : ℕ → Bool) (clock : ℕ → ℕ) (resolver : Resolver)
      → All (λ e. flow_key_equal e.key key ≡ false) resolver.entries
      → ((n : ℕ) → realloc n ≡ true)
      → clock 1 ≤ clock 0 + resolver.ttl_sec
      → (c : ℕ) × (es : List ResolverCacheEntry) × (resolver_cache_put realloc clock key
            (pos pid)
            texts
            resolver
          ≡ record resolver { cap = c; entries = es ++ new (clock 0) ∷ [] })
  unfolding resolver_cache_put after_refresh append_answer
  put_lem realloc clock resolver other granted fresh =
      let (c, room) = grow_resolver-granted realloc resolver granted in
      let grown : Resolver = record resolver {
        cap = c;
        entries = resolver.entries ++ new (clock 0) ∷ [];
      } in
      let keep : ℕ → ResolverCacheEntry → Bool = λ r. is_cached grown (clock 1) in
      let live = new-is_cached grown (clock 0) (clock 1) fresh in
      let kept_last : kept keep 0 grown.entries
          ≡ kept keep 0 resolver.entries ++ new (clock 0) ∷ [] =
        rw (kept-append keep 0 resolver.entries (new (clock 0)), live) refl in
      (
        c,
        kept keep 0 resolver.entries,
        rw (refresh_loop-new key (pos pid) texts (clock 0) resolver.entries other, room)
            (prune_lem (clock 1) grown
              ∙ ap (λ es. record resolver { cap = c; entries = es }) kept_last),
      )

  -- What is put for a key that has no entry, with memory granted and no time to live run out while
  -- it prunes, is what the cache gives for the key and for its reverse as long as it is trusted.
  pub cache_get-put :
      (realloc : ℕ → Bool) (clock : ℕ → ℕ) (now : ℕ) (sz : Sizes) (resolver : Resolver)
      → All (λ e. flow_key_equal e.key key ≡ false) resolver.entries
      → ((n : ℕ) → realloc n ≡ true)
      → clock 1 ≤ clock 0 + resolver.ttl_sec
      → now ≤ clock 0 + resolver.ttl_sec
      → let after = resolver_cache_put realloc clock key (pos pid) texts resolver in
        let answer : Option (ℤ × Texts) =
          some (pos pid, copy_texts no_texts sz (copy_texts no_texts entry_sizes texts)) in
        (resolver_cache_get now key sz after ≡ answer)
        × (resolver_cache_get now (reversed key) sz after ≡ answer)
  cache_get-put realloc clock now sz resolver other granted fresh soon =
      let (c, es, e) = put_lem realloc clock resolver other granted fresh in
      let after : Resolver = record resolver { cap = c; entries = es ++ new (clock 0) ∷ [] } in
      let live = new-is_cached after (clock 0) now soon in
      let (same, turned) = new-answers_key (clock 0) in
      rw e (
        unfold fresh_answer in
        (
          get-last after now key sz es (new (clock 0)) refl live same,
          get-last after now (reversed key) sz es (new (clock 0)) refl live turned,
        ))
