-- ===== src/Parser/HttpHost/Safe.antt =====
-- `parser_extract_http_host` of src/parser.c on any payload at all: no read leaves the payload, the
-- loops end, and what is returned is the text of a trimmed piece of one line that fits the caller's
-- buffer.
use if_flow.Base.{
  ℕ, zero, suc, ◌+◌, ◌-◌, ◌≤◌, ◌<◌, Bool, true, false, not, ◌||◌, ◌≡◌, refl, inl, inr, some, [],
  ◌∷◌, Bytes, c_str, length, get_elem?, take, drop, All, ltb, leb, ◌==◌, arith, length-take_le,
  Bool-cases, Option-cases, ◌∙◌, ==_iff, ap,
}
use if_flow.Parser.Reads.{
  ok, ◌>>◌, guard, read, Gives, read_ok, read_inside, slice-read, Gives-bind, Gives-mono, slice_lem,
  length-slice, get_elem?-take, get_elem?-inside, take-take,
}
use if_flow.Parser.TlsSni.Safe.{IsPiece, IsCut, cut_lem}
use if_flow.Parser.HttpHost.{
  skip_while, is_blank, is_line_end, blank_at, trim_loop, read_value, parser_extract_http_host,
}
use if_flow.Parser.HttpHost.Search.{ColonAhead, find_header-Gives, strchr_loop-Gives}

-- A piece of one line with no blank at either end.
pub record IsTrimmed (payload : Bytes) (out_sz : ℕ) (piece : Bytes) : Type 0 where
  pub is_piece : IsPiece payload out_sz piece
  pub one_line : All (λ c. is_line_end c ≡ false) piece
  pub no_blank_first : blank_at piece 0 ≡ false
  pub no_blank_last : blank_at piece (length piece - 1) ≡ false

-- The text in the buffer that such a piece was copied to.
abbrev pub IsHost : Bytes → ℕ → Bytes → Type 0
IsHost payload out_sz text = IsCut (IsTrimmed payload out_sz) out_sz text

-- Where `skip_while` stops: behind bytes that pass, at one that does not or at the end.
pub record Skipped (payload : Bytes) (test : ℕ → Bool) (h e : ℕ) : Type 0 where
  pub ahead : h ≤ e
  pub inside : e ≤ length payload
  pub passed : (i c : ℕ) → h ≤ i → i < e → read payload i ≡ ok c → test c ≡ true
  pub stopped : (c : ℕ) → read payload e ≡ ok c → test c ≡ false

Skipped-step :
    (payload : Bytes) (test : ℕ → Bool) (h c e : ℕ)
    → read payload h ≡ ok c
    → test c ≡ true
    → Skipped payload test (h + 1) e
    → Skipped payload test h e
Skipped-step payload test h c e r pass s = record {
  ahead = omega (arith, s.ahead);
  inside = s.inside;
  passed = λ i d p q g. elim (Bool-cases (i == h)) [
    | inl here ↦ ground (arith, ap (read payload) ((==_iff i h).0 here))
    | inr later ↦ s.passed i d (ground arith) q g
  ];
  stopped = s.stopped;
}

skip_while-Gives :
    (payload : Bytes) (test : ℕ → Bool) (fuel h : ℕ)
    → h ≤ length payload
    → length payload < h + fuel
    → Gives (Skipped payload test h) (skip_while test fuel payload h)
unfolding skip_while
skip_while-Gives payload test zero h a b = absurd (omega arith)
skip_while-Gives payload test (suc fuel) h a b = elim (Bool-cases (ltb h (length payload))) [
  | inr end ↦ rw end (record {
    ahead = omega arith;
    inside = a;
    passed = λ i c p q r. absurd (omega arith);
    stopped = λ c r. absurd (ground (arith, read_inside payload h r));
  })
  | inl more ↦
      let (c, e) = read_ok payload h (ground arith) in
      rw (more, e)
        (elim (Bool-cases (test c)) [
          | inr stop ↦ rw stop (record {
            ahead = omega arith;
            inside = a;
            passed = λ i d p q r. absurd (omega arith);
            stopped = λ d r. ground arith;
          })
          | inl pass ↦ rw pass (
              Gives-mono (Skipped payload test (h + 1)) (Skipped payload test h) _
                (λ k. Skipped-step payload test h c k e pass)
                (skip_while-Gives payload test fuel (h + 1) (ground arith) (omega arith)))
        ])
]

trim_loop-le : (out : Bytes) (n : ℕ) → trim_loop out n ≤ n
unfolding trim_loop
trim_loop-le out zero = omega arith
trim_loop-le out (suc n) = ground (arith, trim_loop-le out n)

trim_loop-pos : (out : Bytes) (n : ℕ) → blank_at out 0 ≡ false → 0 < n → 0 < trim_loop out n
unfolding trim_loop
trim_loop-pos out zero h p = p
trim_loop-pos out (suc zero) h p = rw h (omega arith)
trim_loop-pos out (suc (suc n)) h p = ground (arith, trim_loop-pos out (suc n) h)

blank_pred : (out : Bytes) (n : ℕ) → blank_at out n ≡ false → blank_at out (suc n - 1) ≡ false
blank_pred out n h = let e : suc n - 1 ≡ n = omega arith in rw e h

trim_loop_last :
    (out : Bytes) (n : ℕ) → 0 < trim_loop out n → blank_at out (trim_loop out n - 1) ≡ false
unfolding trim_loop
trim_loop_last out zero p = absurd (omega arith)
trim_loop_last out (suc n) p = elim (Bool-cases (blank_at out n)) [
  | inl blank ↦ rw blank (trim_loop_last out n (ground arith))
  | inr other ↦ rw other (blank_pred out n other)
]

-- A property of every byte, by index.
All-index {ℓ} :
    {P : ℕ → Type ℓ} (xs : Bytes) → ((i c : ℕ) → get_elem? xs i ≡ some c → P c) → All P xs
All-index [] h = tt
All-index (x ∷ xs) h = (h 0 x refl, All-index xs (λ i c e. h (suc i) c e))

blank_at-take : (out : Bytes) (k i : ℕ) → i < k → blank_at (take k out) i ≡ blank_at out i
blank_at-take out zero i h = absurd (omega arith)
blank_at-take [] (suc k) i h = refl
blank_at-take (x ∷ out) (suc k) zero h = refl
blank_at-take (x ∷ out) (suc k) (suc i) h = blank_at-take out k i (omega arith)

not_blank_at :
    (out : Bytes) (i : ℕ)
    → ((c : ℕ) → get_elem? out i ≡ some c → is_blank c ≡ false)
    → blank_at out i ≡ false
not_blank_at out i h = elim (Option-cases (get_elem? out i)) [
  | inl past ↦ rw (past, blank_at)
  | inr (c, e) ↦ rw (e, blank_at) (h c e)
]

-- The text between two places where the loops have stopped, without the blanks at its end.
module _ (payload : Bytes) (out_sz h e : ℕ) where
  abbrev between : Bytes
  between = take (e - h) (drop h payload)

  trim-IsTrimmed :
      Skipped payload (λ c. not (is_line_end c)) h e
      → ((c : ℕ) → read payload h ≡ ok c → is_blank c ≡ false)
      → (e - h == 0 || leb out_sz (e - h)) ≡ false
      → IsTrimmed payload out_sz (take (trim_loop between (e - h)) between)
  trim-IsTrimmed s first fits =
      let n = e - h in
      let k = trim_loop between n in
      let le = trim_loop-le between n in
      let inside = s.inside in
      let ahead = s.ahead in
      let size : length between ≡ n = length-slice n h payload (omega arith) in
      let len : length (take k between) ≡ k = length-take_le k between (omega arith) in
      let start =
        not_blank_at between 0 (λ c g. first c (ground (arith, slice-read payload h n 0 g))) in
      let pos = trim_loop-pos between n start (ground arith) in
      record {
        is_piece = record {
          not_empty = omega arith;
          piece_fits = ground arith;
          from_payload = (h, rw len (take-take k n (drop h payload) le));
        };
        one_line = All-index (take k between) (λ i c g.
            let at = get_elem?-inside (take k between) i g in
            let r = slice-read payload h n i (get_elem?-take k i between g) in
            ground (arith, s.passed (h + i) c (omega arith) (omega arith) r));
        no_blank_first = blank_at-take between k 0 pos ∙ start;
        no_blank_last =
            rw len (blank_at-take between k (k - 1) (omega arith) ∙ trim_loop_last between n pos);
      }

read_value-Gives :
    (payload : Bytes) (out_sz colon : ℕ)
    → colon < length payload
    → Gives (IsHost payload out_sz) (read_value payload out_sz colon)
unfolding read_value
read_value-Gives payload out_sz colon inside =
    Gives-bind (Skipped payload is_blank (colon + 1)) (IsHost payload out_sz) _ _
      (skip_while-Gives payload is_blank (length payload + 1) (colon + 1) (omega arith)
        (omega arith))
      λ h a.
        Gives-bind (Skipped payload (λ c. not (is_line_end c)) h) (IsHost payload out_sz) _ _
          (skip_while-Gives payload (λ c. not (is_line_end c)) (length payload + 1) h a.inside
            (omega (arith, a.ahead)))
          λ e b. elim (Bool-cases (e - h == 0 || leb out_sz (e - h))) [
            | inl misfit ↦ rw misfit tt
            | inr fits ↦
                rw (fits, slice_lem payload h (e - h) (omega (arith, b.inside, b.ahead)))
                  (guarded _ _ (trim-IsTrimmed payload out_sz h e b a.stopped fits))
          ]
  where
    guarded :
        (b : Bool) (text : Bytes)
        → IsTrimmed payload out_sz text
        → Gives (IsHost payload out_sz) (guard b >> ok (c_str text))
    guarded true text h = cut_lem (IsTrimmed payload out_sz) out_sz text h h.is_piece.piece_fits
    guarded false text h = tt

-- On every payload and for every buffer the reader stays inside the payload, its loops end, and what
-- it returns is the text in front of the first NUL of a piece of the payload that is not empty, is of
-- one line, has no blank at either end and fits the buffer.
pub parser_extract_http_host-Gives :
    (payload : Bytes) (out_sz : ℕ)
    → Gives (IsHost payload out_sz) (parser_extract_http_host payload out_sz)
unfolding parser_extract_http_host
parser_extract_http_host-Gives payload out_sz = elim (Bool-cases (out_sz == 0)) [
  | inl none_fits ↦ rw none_fits tt
  | inr some_fit ↦ rw some_fit (elim (Bool-cases (ltb (length payload) 8)) [
    | inl short ↦ rw short tt
    | inr long ↦ rw long (
        Gives-bind (ColonAhead payload) (IsHost payload out_sz) _ _ (find_header-Gives payload)
          λ h a.
            Gives-bind (λ k. k < length payload) (IsHost payload out_sz) _ _
              (strchr_loop-Gives payload (length payload) h a (omega (arith, a.inside)))
              λ colon b. read_value-Gives payload out_sz colon b)
  ])
]
