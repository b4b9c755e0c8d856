-- ===== src/Parser/HttpHost/Search.antt =====
-- The search of src/parser.c: it stays inside the payload, and a match ends at a colon.
use if_flow.Base.{
  ℕ, zero, suc, ◌+◌, ◌≤◌, ◌<◌, Bool, true, false, ◌||◌, ◌≡◌, inl, inr, Option, none, some, [], ◌∷◌,
  ◌++◌, Bytes, codes, length, length-append, ltb, ◌==◌, if◌then◌else◌, arith, Bool-cases,
}
use if_flow.Parser.Reads.{Parse, absent, ok, read, Gives, read_ok, Gives-bind}
use if_flow.Parser.HttpHost.{
  tolower, match_loop, search_loop, memcasestr_n, or_search, or_absent, find_header, strchr_loop,
}

-- A colon stands at or behind `h`.
pub record ColonAhead (payload : Bytes) (h : ℕ) : Type 0 where
  pub colon : ℕ
  pub ahead : h ≤ colon
  pub inside : colon < length payload
  pub is_colon : read payload colon ≡ ok b':'

abbrev ColonAhead? : Bytes → Option ℕ → Type 0
ColonAhead? payload none = Unit {0}
ColonAhead? payload (some h) = ColonAhead payload h

tolower_colon : (c : ℕ) → (tolower c == tolower b':') ≡ true → c ≡ b':'
unfolding tolower
tolower_colon c h = ground arith

module _ (payload : Bytes) where
  -- A match of a needle that ends with a colon.
  abbrev Matched : ℕ → Bool → Type 0
  Matched k false = Unit {0}
  Matched k true = ColonAhead payload k

  weaken : (k : ℕ) (b : Bool) → Matched (k + 1) b → Matched k b
  weaken k false m = tt
  weaken k true m = record {
    colon = m.colon;
    ahead = omega arith;
    inside = m.inside;
    is_colon = m.is_colon;
  }

  Gives-weaken : (k : ℕ) (m : Parse Bool) → Gives (Matched (k + 1)) m → Gives (Matched k) m
  Gives-weaken k (ok b) h = weaken k b h
  Gives-weaken k absent h = tt
  Gives-weaken k _ h = h

  match_loop-Gives :
      (front : Bytes) (k : ℕ)
      → k + length front < length payload
      → Gives (Matched k) (match_loop payload k (front ++ b':' ∷ []))
  unfolding match_loop
  match_loop-Gives [] k h =
      let (c, e) = read_ok payload k (omega arith) in
      rw e (elim (Bool-cases (tolower c == tolower b':')) [
        | inl same ↦ rw same (record {
          colon = k;
          ahead = omega arith;
          inside = omega arith;
          is_colon = ground (arith, tolower_colon c same);
        })
        | inr other ↦ rw other tt
      ])
  match_loop-Gives (b ∷ front) k h =
      let (c, e) = read_ok payload k (omega arith) in
      let rest = match_loop-Gives front (k + 1) (omega arith) in
      rw e (elim (Bool-cases (tolower c == tolower b)) [
        | inl same ↦ rw same (Gives-weaken k _ rest)
        | inr other ↦ rw other tt
      ])

  found-Gives :
      (i : ℕ) (b : Bool) (rest : Parse (Option ℕ))
      → Matched i b
      → Gives (ColonAhead? payload) rest
      → Gives (ColonAhead? payload) (if b then ok (some i) else rest)
  found-Gives i true rest m h = m
  found-Gives i false rest m h = h

  search_loop-Gives :
      (starts : ℕ) (i : ℕ) (front : Bytes)
      → i + starts + length front ≤ length payload
      → Gives (ColonAhead? payload) (search_loop starts payload i (front ++ b':' ∷ []))
  unfolding search_loop
  search_loop-Gives zero i front h = tt
  search_loop-Gives (suc starts) i front h =
      let rest = search_loop-Gives starts (i + 1) front (omega arith) in
      Gives-bind (Matched i) (ColonAhead? payload) (match_loop payload i (front ++ b':' ∷ [])) _
        (match_loop-Gives front i (omega arith)) (λ b m. found-Gives i b _ m rest)

  memcasestr_n-Gives :
      (front : Bytes) → Gives (ColonAhead? payload) (memcasestr_n payload (front ++ b':' ∷ []))
  unfolding memcasestr_n
  memcasestr_n-Gives front =
      elim (Bool-cases
        (length (front ++ b':' ∷ []) == 0 || ltb (length payload) (length (front ++ b':' ∷ [])))) [
          | inl short ↦ rw short tt
          | inr fits ↦
              rw fits
                (search_loop-Gives _ 0 front (ground (arith, length-append front (b':' ∷ []))))
        ]

  or_search-Gives :
      (front : Bytes) (o : Option ℕ)
      → ColonAhead? payload o
      → Gives (ColonAhead? payload) (or_search payload (front ++ b':' ∷ []) o)
  or_search-Gives front none h = memcasestr_n-Gives front
  or_search-Gives front (some i) h = h

  or_absent-Gives :
      (o : Option ℕ) → ColonAhead? payload o → Gives (ColonAhead payload) (or_absent o)
  or_absent-Gives none h = tt
  or_absent-Gives (some i) h = h

  pub find_header-Gives : Gives (ColonAhead payload) (find_header payload)
  unfolding find_header
  find_header-Gives =
      Gives-bind (ColonAhead? payload) (ColonAhead payload) _ _
        (memcasestr_n-Gives (codes "\r\nHost"))
        λ first a.
          Gives-bind (ColonAhead? payload) (ColonAhead payload) _ _
            (or_search-Gives (codes "\nhost") first a)
            λ second b.
              Gives-bind (ColonAhead? payload) (ColonAhead payload) _ _
                (or_search-Gives (codes "Host") second b) λ third c. or_absent-Gives third c

  -- `strchr` stops at that colon at the latest.
  pub strchr_loop-Gives :
      (fuel h : ℕ) (a : ColonAhead payload h)
      → a.colon < h + fuel
      → Gives (λ k. k < length payload) (strchr_loop fuel payload h)
  unfolding strchr_loop
  strchr_loop-Gives zero h a f = absurd (omega arith)
  strchr_loop-Gives (suc fuel) h a f =
      let (c, e) = read_ok payload h (omega arith) in
      rw e (elim (Bool-cases (c == b':')) [
        | inl colon ↦ rw colon (omega arith)
        | inr other ↦
            rw other (
              stop_or (c == 0) _
                (strchr_loop-Gives fuel (h + 1) (ahead_of c e other) (omega arith)))
      ])
    where
      ahead_of : (c : ℕ) → read payload h ≡ ok c → (c == b':') ≡ false → ColonAhead payload (h + 1)
      ahead_of c e other = record {
        colon = a.colon;
        ahead = ground (arith, a.is_colon);
        inside = a.inside;
        is_colon = a.is_colon;
      }

      stop_or :
          (b : Bool) (m : Parse ℕ)
          → Gives (λ k. k < length payload) m
          → Gives (λ k. k < length payload) (if b then absent else m)
      stop_or true m g = tt
      stop_or false m g = g
