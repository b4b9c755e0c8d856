-- ===== src/Parser/HttpHost/Scan.antt =====
-- The loops of `parser_extract_http_host` of src/parser.c over bytes that are known.
use if_flow.Base.{
  ℕ, zero, suc, ◌+◌, ◌-◌, ◌<◌, ◌≡◌, ◌≢◌, refl, Bool, true, false, some, [], ◌∷◌, ◌++◌, Bytes, ◌∙◌,
  arith, length, All, ◌==◌, ap, subst, map,
}
use if_flow.Parser.Reads.{ok, read}
use if_flow.Parser.Cursor.{At, At-skip, At-read}
use if_flow.Parser.HttpHost.{
  tolower, match_loop, search_loop, strchr_loop, is_blank, skip_while, blank_at, trim_loop,
}

abbrev pub NoStop : ℕ → Type 0
NoStop c = (c ≢ b':') × (c ≢ 0)

module _ (payload : Bytes) where
  search_loop-miss :
      (needle : Bytes) (n i : ℕ)
      → match_loop payload i needle ≡ ok false
      → search_loop (suc n) payload i needle ≡ search_loop n payload (i + 1) needle
  search_loop-miss needle n i h = unfold search_loop in rw h refl

  pub search_loop-hit :
      (needle : Bytes) (n i : ℕ)
      → match_loop payload i needle ≡ ok true
      → search_loop (suc n) payload i needle ≡ ok (some i)
  search_loop-hit needle n i h = unfold search_loop in rw h refl

  -- A byte that is no carriage return starts no match.
  match_loop-miss :
      (needle : Bytes) (c i : ℕ)
      → c ≢ b'\r'
      → read payload i ≡ ok c
      → match_loop payload i (b'\r' ∷ needle) ≡ ok false
  unfolding match_loop
  match_loop-miss needle c i h r = rw (r, other) refl
    where
      other : (tolower c == tolower b'\r') ≡ false
      other = unfold tolower in ground (arith, h)

  -- The search passes over bytes that are no carriage return.
  pub search_loop-skip :
      (line rest needle : Bytes) (n i : ℕ)
      → All (λ c. c ≢ b'\r') line
      → At payload i (line ++ rest)
      → search_loop (length line + n) payload i (b'\r' ∷ needle)
        ≡ search_loop n payload (i + length line) (b'\r' ∷ needle)
  search_loop-skip [] rest needle n i h a = ground arith
  search_loop-skip (c ∷ line) rest needle n i h a =
      let b = At-skip (c ∷ []) (i + 1) refl a in
      let later = search_loop-skip line rest needle n (i + 1) h.1 b in
      let miss = match_loop-miss needle c i h.0 (At-read c (line ++ rest) a) in
      let e : i + 1 + length line ≡ i + suc (length line) = omega arith in
      let f : suc (length line) + n ≡ suc (length line + n) = omega arith in
      ap (λ k. search_loop k payload i (b'\r' ∷ needle)) f
      ∙ search_loop-miss (b'\r' ∷ needle) (length line + n) i miss
      ∙ later
      ∙ ap (λ k. search_loop n payload k (b'\r' ∷ needle)) e

  pub match_loop-hit :
      (xs needle rest : Bytes) (k : ℕ)
      → map tolower xs ≡ map tolower needle
      → At payload k (xs ++ rest)
      → match_loop payload k needle ≡ ok true
  unfolding match_loop
  match_loop-hit [] [] rest k e a = refl
  match_loop-hit [] (b ∷ needle) rest k e a = absurd (ground arith)
  match_loop-hit (x ∷ xs) [] rest k e a = absurd (ground arith)
  match_loop-hit (x ∷ xs) (b ∷ needle) rest k e a =
      let c = At-skip (x ∷ []) (k + 1) refl a in
      let later = match_loop-hit xs needle rest (k + 1) (ground arith) c in
      rw (At-read x (xs ++ rest) a) (ground (arith, later))

  -- `strchr` passes over bytes that are neither a colon nor a NUL.
  pub strchr_loop-At :
      (xs rest : Bytes) (fuel h : ℕ)
      → length xs < fuel
      → All NoStop xs
      → At payload h (xs ++ b':' ∷ rest)
      → strchr_loop fuel payload h ≡ ok (h + length xs)
  strchr_loop-At xs rest zero h f p a = absurd (omega arith)
  strchr_loop-At [] rest (suc fuel) h f p a =
      unfold strchr_loop in rw (At-read b':' rest a) (ap ok (omega arith))
  strchr_loop-At (x ∷ xs) rest (suc fuel) h f p a =
      let b = At-skip (x ∷ []) (h + 1) refl a in
      let later = strchr_loop-At xs rest fuel (h + 1) (omega arith) p.1 b in
      passed (At-read x (xs ++ b':' ∷ rest) a) later
    where
      passed :
          read payload h ≡ ok x
          → strchr_loop fuel payload (h + 1) ≡ ok (h + 1 + length xs)
          → strchr_loop (suc fuel) payload h ≡ ok (h + suc (length xs))
      passed r later = unfold strchr_loop in rw (r, later) (ground (arith, p.0))

  -- `test` at the first of the bytes that follow.
  abbrev pub first : (ℕ → Bool) → Bytes → Bool
  first test [] = false
  first test (c ∷ rest) = test c

  pub skip_while-At :
      (test : ℕ → Bool) (xs rest : Bytes) (fuel h : ℕ)
      → length xs < fuel
      → All (λ c. test c ≡ true) xs
      → first test rest ≡ false
      → At payload h (xs ++ rest)
      → skip_while test fuel payload h ≡ ok (h + length xs)
  skip_while-At test xs rest zero h f p q a = absurd (omega arith)
  skip_while-At test [] [] (suc fuel) h f p q a = unfold skip_while in ground (arith, a.size)
  skip_while-At test [] (y ∷ rest) (suc fuel) h f p q a =
      unfold skip_while in rw (At-read y rest a, q) (ground (arith, a.size))
  skip_while-At test (x ∷ xs) rest (suc fuel) h f p q a =
      let b = At-skip (x ∷ []) (h + 1) refl a in
      let later = skip_while-At test xs rest fuel (h + 1) (omega arith) p.1 q b in
      passed (At-read x (xs ++ rest) a) later
    where
      passed :
          read payload h ≡ ok x
          → skip_while test fuel payload (h + 1) ≡ ok (h + 1 + length xs)
          → skip_while test (suc fuel) payload h ≡ ok (h + suc (length xs))
      passed r later = unfold skip_while in rw (r, later, p.0) (ground (arith, a.size))

  pub first-host :
      (host rest : Bytes)
      → 0 < length host
      → blank_at host 0 ≡ false
      → first is_blank (host ++ rest) ≡ false
  first-host [] rest n e = absurd (omega arith)
  first-host (c ∷ host) rest n e = e

  pub trim_loop-full :
      (out : Bytes)
      → blank_at out (length out - 1) ≡ false
      → 0 < length out
      → trim_loop out (length out) ≡ length out
  trim_loop-full [] h p = absurd (omega arith)
  trim_loop-full (x ∷ out) h p =
      unfold trim_loop in
      let e : suc (length out) - 1 ≡ length out = omega arith in
      rw (subst (λ k. blank_at (x ∷ out) k ≡ false) e h) refl
