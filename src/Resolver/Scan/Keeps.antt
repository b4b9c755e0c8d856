-- ===== src/Resolver/Scan/Keeps.antt =====
-- `resolver_lookup` of src/resolver.c keeps the invariant of the cache, and its answers fit.
use if_flow.Base.{
  ℕ, ◌+◌, ◌^◌, ◌%◌, ◌≤◌, ◌<◌, ◌≡◌, refl, Bool, false, Option, none, some, Bytes, ℤ, pos, negsuc,
  is_neg, arith, length, All, All-get, Bool-cases, Option-cases, inl, inr,
}
use if_flow.Flow.{FlowKey, within}
use if_flow.Resolver.{
  Resolver, ResolverCacheEntry, Texts, entry_sizes, no_texts, resolver_cache_get,
}
use if_flow.Resolver.ProcFs.{ProcFs}
use if_flow.Resolver.Identity.{PidCache, is_known, resolver_read_identity_by_pid}
use if_flow.Resolver.Identity.Cached.{read_texts-TextsFit}
use if_flow.Resolver.Invariant.{Inv, AnswerInv, TextsFit, copy_texts-TextsFit}
use if_flow.Resolver.Get.{texts_of, IsAnswer, cache_get_lem}
use if_flow.Resolver.Put.{put-Inv, put_lem}
use if_flow.Resolver.Scan.{owner_of, resolver_lookup}

-- What is answered: a process, with texts that fit.
abbrev pub AnswerFits : Option (ℤ × Texts) → Type 0
AnswerFits none = Unit {0}
AnswerFits (some (pid, texts)) = (is_neg pid ≡ false) × TextsFit texts

cache_get-fits :
    (now : ℕ) (key : FlowKey) (resolver : Resolver)
    → All AnswerInv resolver.entries
    → AnswerFits (resolver_cache_get now key entry_sizes resolver)
cache_get-fits now key resolver v =
    let (o, given, answer) = cache_get_lem resolver now key entry_sizes in rw given (fits o answer)
  where
    fits :
        (o : Option ResolverCacheEntry)
        → IsAnswer resolver now key (length resolver.entries) o
        → AnswerFits (texts_of entry_sizes o)
    fits none a = tt
    fits (some e) a = (
      (All-get AnswerInv resolver.entries a.index e a.at v).is_process,
      copy_texts-TextsFit no_texts e.texts,
    )

-- The texts of a process fit, whether they are read or known.
pub read_identity-TextsFit :
    (fs : ProcFs) (clock : ℕ → ℕ) (pid : ℤ) (texts : Texts) (pids : PidCache)
    → TextsFit (resolver_read_identity_by_pid fs clock pid entry_sizes texts pids).0
unfolding resolver_read_identity_by_pid
read_identity-TextsFit fs clock (negsuc n) texts pids = copy_texts-TextsFit texts no_texts
read_identity-TextsFit fs clock (pos n) texts pids = elim (Bool-cases (is_known pids n (clock 0))) [
  | inl known ↦ rw known (copy_texts-TextsFit texts (pids (n % 1024)).texts)
  | inr unknown ↦ rw unknown (read_texts-TextsFit fs n texts)
]

-- What a lookup leaves: the invariant and one entry more at most, and texts that fit.
pub record Looked (before after : Resolver) (answer : Option (ℤ × Texts)) : Type 0 where
  pub kept : Inv after
  pub grows : length after.entries ≤ length before.entries + 1
  pub fits : AnswerFits answer

-- Whatever /proc holds and the clock and the allocator say, a lookup into buffers of the sizes of an
-- entry keeps the invariant of the cache, adds one entry at most, and its answer fits.
pub lookup-Looked :
    (scan_hex : Option ℕ → Bytes → Option (ℕ × Bytes)) (inet_ntop : Bytes → Option Bytes)
    (fs : ProcFs) (realloc : ℕ → Bool) (clock : ℕ → ℕ) (key : FlowKey) (resolver : Resolver)
    (pids : PidCache)
    → length resolver.entries < 2 ^ 62
    → Inv resolver
    → let (after, known, answer) =
        resolver_lookup scan_hex inet_ntop fs realloc clock key entry_sizes resolver pids in
      Looked resolver after answer
unfolding resolver_lookup
lookup-Looked scan_hex inet_ntop fs realloc clock key resolver pids b v =
    elim (Option-cases (resolver_cache_get (clock 0) key entry_sizes resolver)) [
      | inr (answer, cached) ↦
          rw (cached, resolver_lookup)
            (record {
              kept = v;
              grows = omega arith;
              fits = rw cached at (cache_get-fits (clock 0) key resolver v.answers);
            })
      | inl missed ↦
          elim (Bool-cases (within (clock 1) resolver.last_refresh resolver.refresh_sec)) [
            | inl soon ↦
                rw (missed, soon, resolver_lookup)
                  (record { kept = v; grows = omega arith; fits = tt })
            | inr due ↦ elim (Option-cases (owner_of scan_hex inet_ntop fs key)) [
              | inl nobody ↦
                  rw (missed, due, nobody, resolver_lookup)
                    (record { kept = scanned-Inv; grows = omega arith; fits = tt })
              | inr (pid, owned) ↦
                  let (texts, known) =
                    resolver_read_identity_by_pid fs (λ i. clock (i + 2)) (pos pid) entry_sizes
                      no_texts pids in
                  let (es, c, less, put) =
                    put_lem realloc (λ i. clock (i + 4)) key (pos pid) texts scanned in
                  rw (missed, due, owned, resolver_lookup)
                    (record {
                      kept =
                          put-Inv realloc (λ i. clock (i + 4)) key (pos pid) texts scanned b
                            scanned-Inv;
                      grows = rw put less;
                      fits = (
                        refl,
                        read_identity-TextsFit fs (λ i. clock (i + 2)) (pos pid) no_texts pids,
                      );
                    })
            ]
          ]
    ]
  where
    scanned : Resolver
    scanned = record resolver { last_refresh = clock 1 }

    scanned-Inv : Inv scanned
    scanned-Inv = record { within_cap = v.within_cap; distinct = v.distinct; answers = v.answers }
