-- ===== src/Resolver/Put.antt =====
-- `resolver_cache_put` of src/resolver.c keeps the invariant of the cache.
use if_flow.Base.{
  ◌⊎◌, ℕ, ◌+◌, ◌*◌, ◌%◌, ◌^◌, ◌≤◌, ◌<◌, ◌≡◌, refl, ap, Bool, false, Option, none, some, List, [],
  ◌∷◌, ◌++◌, map, ℤ, is_neg, arith, length, length-append, length-kept, kept, All, All-append,
  if◌then◌else◌, ◌==◌, Bool-cases, Option-cases, inl, inr,
}
use if_flow.Flow.{FlowKey, flow_key_equal, u64_mod}
use if_flow.Resolver.{
  Resolver, ResolverCacheEntry, Texts, no_texts, is_cached, refresh_loop, grow_resolver,
  fresh_answer, append_answer, after_refresh, resolver_cache_put,
}
use if_flow.Resolver.Invariant.{
  key_of, IsDistinct, AnswerInv, Inv, copy_texts-TextsFit, prune_lem, prune-Inv, Refreshed,
  refresh_loop-cons, refresh_loop-Refreshed,
}

-- Where there is no room the cache stays, and otherwise the entries do, within the new capacity.
pub grow_resolver_lem :
    (realloc : ℕ → Bool) (resolver : Resolver)
    → length resolver.entries ≤ resolver.cap
    → length resolver.entries < 2 ^ 62
    → (grow_resolver realloc resolver ≡ none)
      ⊎ ((c : ℕ) × (length resolver.entries < c)
          × (grow_resolver realloc resolver ≡ some (record resolver { cap = c })))
unfolding grow_resolver
grow_resolver_lem realloc resolver h b =
    elim (Bool-cases (length resolver.entries == resolver.cap)) [
      | inr room ↦ inr (resolver.cap, ground (arith, room, h), rw room refl)
      | inl full ↦
          let new_cap = if resolver.cap == 0 then 2048 else (resolver.cap * 2) % u64_mod in
          elim (Bool-cases (realloc new_cap)) [
            | inl more ↦ inr (new_cap, ground (arith, full, b), rw (full, more) refl)
            | inr no_memory ↦ inl (rw (full, no_memory) refl)
          ]
    ]

map-append_one :
    (es : List ResolverCacheEntry) (e : ResolverCacheEntry)
    → map key_of (es ++ e ∷ []) ≡ map key_of es ++ e.key ∷ []
map-append_one [] e = refl
map-append_one (x ∷ es) e = ap (◌∷◌ x.key) (map-append_one es e)

IsDistinct-append :
    (ks : List FlowKey) (k : FlowKey)
    → All (λ j. flow_key_equal j k ≡ false) ks
    → IsDistinct ks
    → IsDistinct (ks ++ k ∷ [])
IsDistinct-append [] k h d = (tt, tt)
IsDistinct-append (j ∷ ks) k h d =
    (All-append (λ i. flow_key_equal j i ≡ false) ks k d.0 h.0, IsDistinct-append ks k h.1 d.1)

module _ (clock : ℕ → ℕ) (key : FlowKey) (pid : ℤ) (texts : Texts) (real : is_neg pid ≡ false) where
  abbrev new : ResolverCacheEntry
  new = fresh_answer key pid texts (clock 0)

  new-AnswerInv : AnswerInv new
  unfolding fresh_answer
  new-AnswerInv = record { is_process = real; fits = copy_texts-TextsFit no_texts texts }

  new-key : new.key ≡ key
  unfolding fresh_answer
  new-key = refl

  appended-Inv :
      (c : ℕ) (resolver : Resolver)
      → length resolver.entries < c
      → All (λ k. flow_key_equal k key ≡ false) (map key_of resolver.entries)
      → Inv resolver
      → Inv (record resolver { cap = c; entries = resolver.entries ++ new ∷ [] })
  appended-Inv c resolver room other v = record {
    within_cap = omega (arith, room, length-append resolver.entries (new ∷ []));
    distinct =
        rw (map-append_one resolver.entries new, new-key)
          (IsDistinct-append (map key_of resolver.entries) key other v.distinct);
    answers = All-append AnswerInv resolver.entries new v.answers new-AnswerInv;
  }

  append_answer-Inv :
      (realloc : ℕ → Bool) (resolver : Resolver)
      → length resolver.entries < 2 ^ 62
      → All (λ k. flow_key_equal k key ≡ false) (map key_of resolver.entries)
      → Inv resolver
      → Inv (append_answer clock key pid texts resolver (grow_resolver realloc resolver))
  append_answer-Inv realloc resolver b other v =
      elim (grow_resolver_lem realloc resolver v.within_cap b) [
        | inl no_room ↦ rw no_room (unfold append_answer in v)
        | inr (c, room, grown) ↦ rw grown (
            unfold append_answer in
            prune-Inv (clock 1)
              (record resolver { cap = c; entries = resolver.entries ++ new ∷ [] })
              (appended-Inv c resolver room other v))
      ]

  put_search-Inv :
      (realloc : ℕ → Bool) (resolver : Resolver) (o : Option (List ResolverCacheEntry))
      → length resolver.entries < 2 ^ 62
      → Refreshed key pid texts real resolver.entries o
      → Inv resolver
      → Inv (after_refresh realloc clock key pid texts resolver o)
  unfolding after_refresh
  put_search-Inv realloc resolver none b h v = append_answer-Inv realloc resolver b h v
  put_search-Inv realloc resolver (some es) b (same, answers) v = record {
    within_cap = omega (arith, v.within_cap, same_length es resolver.entries same);
    distinct = rw same v.distinct;
    answers = answers;
  }
    where
      same_length :
          (xs ys : List ResolverCacheEntry) → map key_of xs ≡ map key_of ys → length xs ≡ length ys
      same_length [] [] h = refl
      same_length (x ∷ xs) [] h = absurd (cc)
      same_length [] (y ∷ ys) h = absurd (cc)
      same_length (x ∷ xs) (y ∷ ys) h = omega (arith, same_length xs ys (cc))

pub put-Inv :
    (realloc : ℕ → Bool) (clock : ℕ → ℕ) (key : FlowKey) (pid : ℤ) (texts : Texts)
    (resolver : Resolver)
    → length resolver.entries < 2 ^ 62
    → Inv resolver
    → Inv (resolver_cache_put realloc clock key pid texts resolver)
unfolding resolver_cache_put
put-Inv realloc clock key pid texts resolver b v = elim (Bool-cases (is_neg pid)) [
  | inl none_found ↦ rw none_found v
  | inr real ↦ rw real (
      put_search-Inv clock key pid texts real realloc resolver _ b
        (refresh_loop-Refreshed key pid texts real (clock 0) resolver.entries v.answers) v)
]

grow_resolver_kinds :
    (realloc : ℕ → Bool) (resolver : Resolver)
    → (grow_resolver realloc resolver ≡ none)
      ⊎ ((c : ℕ) × (grow_resolver realloc resolver ≡ some (record resolver { cap = c })))
unfolding grow_resolver
grow_resolver_kinds realloc resolver = elim (Bool-cases (length resolver.entries == resolver.cap)) [
  | inr room ↦ inr (resolver.cap, rw room refl)
  | inl full ↦
      let new_cap = if resolver.cap == 0 then 2048 else (resolver.cap * 2) % u64_mod in
      elim (Bool-cases (realloc new_cap)) [
        | inl more ↦ inr (new_cap, rw (full, more) refl)
        | inr no_memory ↦ inl (rw (full, no_memory) refl)
      ]
]

refresh_loop-length :
    (key : FlowKey) (pid : ℤ) (texts : Texts) (now : ℕ) (es es' : List ResolverCacheEntry)
    → refresh_loop key pid texts now es ≡ some es'
    → length es' ≡ length es
refresh_loop-length key pid texts now [] es' h = absurd (unfold refresh_loop in ground arith)
refresh_loop-length key pid texts now (e ∷ es) es' h =
    elim (Option-cases (refresh_loop key pid texts now es)) [
      | inl missed ↦ ground (arith, refresh_loop-cons key pid texts now e es)
      | inr (rest, hit) ↦ ground (
        arith,
        refresh_loop-cons key pid texts now e es,
        refresh_loop-length key pid texts now es rest hit,
      )
    ]

-- A put changes nothing but the array, to which it adds one entry at most, and its capacity.
pub put_lem :
    (realloc : ℕ → Bool) (clock : ℕ → ℕ) (key : FlowKey) (pid : ℤ) (texts : Texts)
    (resolver : Resolver)
    → (es : List ResolverCacheEntry) × (c : ℕ) × (length es ≤ length resolver.entries + 1)
      × (resolver_cache_put realloc clock key pid texts resolver
          ≡ record resolver { entries = es; cap = c })
unfolding resolver_cache_put after_refresh append_answer
put_lem realloc clock key pid texts resolver = elim (Bool-cases (is_neg pid)) [
  | inl none_found ↦ (resolver.entries, resolver.cap, omega arith, rw none_found refl)
  | inr real ↦ elim (Option-cases (refresh_loop key pid texts (clock 0) resolver.entries)) [
    | inr (es, hit) ↦ (
      es,
      resolver.cap,
      omega (arith, refresh_loop-length key pid texts (clock 0) resolver.entries es hit),
      rw (real, hit) refl,
    )
    | inl missed ↦ elim (grow_resolver_kinds realloc resolver) [
      | inl no_room ↦ (resolver.entries, resolver.cap, omega arith, rw (real, missed, no_room) refl)
      | inr (c, room) ↦
          let new = fresh_answer key pid texts (clock 0) in
          let grown : Resolver = record resolver {
            cap = c;
            entries = resolver.entries ++ new ∷ [];
          } in
          let keep : ℕ → ResolverCacheEntry → Bool = λ r. is_cached grown (clock 1) in
          (
            kept keep 0 grown.entries,
            c,
            omega (
              arith,
              length-kept keep 0 grown.entries,
              length-append resolver.entries (new ∷ []),
            ),
            rw (real, missed, room) (prune_lem (clock 1) grown),
          )
    ]
  ]
]
