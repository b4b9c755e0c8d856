-- ===== src/Writer/Split.antt =====
-- `split_base_ext` of src/writer_jsonl.c cuts a base path at its last dot.
use if_flow.Base.{
  ℕ, zero, suc, ◌≤◌, ◌<◌, ◌≡◌, ◌≢◌, ◌⊎◌, ==_iff, refl, ap, false, Option, none, some, [], ◌∷◌, ◌++◌,
  Bytes, arith, All, length, take, drop, copy_loop, is_empty, leb, ◌==◌, Bool-cases, inl, inr,
}
use mathlib.Core.List.{append-nil}
use if_flow.Writer.{strrchr, snprintf_text, split_at, split_base_ext}

-- Where a search from the end stops.
abbrev Last : Bytes → ℕ → Option ℕ → Type 0
Last xs c none = All (λ d. d ≢ c) xs
Last xs c (some i) =
    (i < length xs) × (drop i xs ≡ c ∷ drop (suc i) xs) × All (λ d. d ≢ c) (drop (suc i) xs)

strrchr-Last : (xs : Bytes) (c : ℕ) → Last xs c (strrchr xs c)
strrchr-Last [] c = unfold strrchr in tt
strrchr-Last (x ∷ xs) c = found (strrchr xs c) refl (strrchr-Last xs c)
  where
    found : (o : Option ℕ) → strrchr xs c ≡ o → Last xs c o → Last (x ∷ xs) c (strrchr (x ∷ xs) c)
    found (some i) e (inside, here, behind) = unfold strrchr in rw e (omega arith, here, behind)
    found none e h = elim (Bool-cases (x == c)) [
      | inl here ↦
          unfold strrchr in rw (e, here) (omega arith, ap (λ d. d ∷ xs) ((==_iff x c).0 here), h)
      | inr other ↦ unfold strrchr in rw (e, other) (ground arith, h)
    ]

copy_loop-all : (room : ℕ) (xs : Bytes) → length xs ≤ room → copy_loop room xs ≡ xs
unfolding copy_loop
copy_loop-all zero [] h = refl
copy_loop-all zero (x ∷ xs) h = absurd (omega arith)
copy_loop-all (suc room) [] h = refl
copy_loop-all (suc room) (x ∷ xs) h = ap (◌∷◌ x) (copy_loop-all room xs (omega arith))

pub snprintf_text-all : (sz : ℕ) (xs : Bytes) → length xs < sz → snprintf_text sz xs ≡ xs
snprintf_text-all zero xs h = absurd (omega arith)
snprintf_text-all (suc room) xs h = copy_loop-all room xs (omega arith)

take-drop : (n : ℕ) (xs : Bytes) → take n xs ++ drop n xs ≡ xs
take-drop zero xs = refl
take-drop (suc n) [] = refl
take-drop (suc n) (x ∷ xs) = ap (◌∷◌ x) (take-drop n xs)

length-drop : (n : ℕ) (xs : Bytes) → length (drop n xs) ≤ length xs
length-drop zero xs = omega arith
length-drop (suc n) [] = omega arith
length-drop (suc n) (x ∷ xs) = omega (arith, length-drop n xs)

All-tail {ℓ} : (P : ℕ → Type ℓ) (xs : Bytes) → All P xs → All P (drop 1 xs)
All-tail P [] h = tt
All-tail P (x ∷ xs) h = h.1

-- Where a base path is cut: the extension is empty and no dot stands behind the first byte, or the
-- extension starts with the last dot.
abbrev pub IsCut : Bytes → Bytes → Type 0
IsCut base ext =
    ((ext ≡ []) × All (λ c. c ≢ b'.') (drop 1 base))
    ⊎ ((tail : Bytes) × (ext ≡ b'.' ∷ tail) × All (λ c. c ≢ b'.') tail)

-- What the two buffers hold for a base path that fits them both: its two parts.
pub record IsSplit (base stem ext : Bytes) : Type 0 where
  pub whole : stem ++ ext ≡ base
  pub has_stem : is_empty stem ≡ false
  pub is_cut : IsCut base ext

-- A base path that is not empty and shorter than both buffers is cut into a stem, which is not
-- empty, and an extension; together they are the path. The cut is in front of the last dot; there is
-- no extension just where no dot stands behind the first byte of the path.
pub split_base_ext-IsSplit :
    (base : Bytes) (stem_sz ext_sz : ℕ)
    → is_empty base ≡ false
    → length base < stem_sz
    → length base < ext_sz
    → IsSplit base (split_base_ext base stem_sz ext_sz).0 (split_base_ext base stem_sz ext_sz).1
unfolding split_base_ext
split_base_ext-IsSplit base stem_sz ext_sz e s x =
    rw e (cut (strrchr base b'.') (strrchr-Last base b'.'))
  where
    whole_stem : All (λ c. c ≢ b'.') (drop 1 base) → IsSplit base (snprintf_text stem_sz base) []
    whole_stem h =
        rw (snprintf_text-all stem_sz base s)
          (record { whole = append-nil base; has_stem = e; is_cut = inl (refl, h) })

    cut :
        (o : Option ℕ)
        → Last base b'.' o
        → IsSplit base (split_at base stem_sz ext_sz o).0 (split_at base stem_sz ext_sz o).1
    cut none h = whole_stem (All-tail (λ c. c ≢ b'.') base h)
    cut (some zero) (inside, here, behind) = whole_stem behind
    cut (some (suc i)) (inside, here, behind) =
        let fits : leb stem_sz (suc i) ≡ false = ground arith in
        rw
          (
            fits,
            snprintf_text-all ext_sz (drop (suc i) base) (omega (arith, length-drop (suc i) base)),
          )
          (record {
            whole = take-drop (suc i) base;
            has_stem = stem_of base e;
            is_cut = inr (drop (suc (suc i)) base, here, behind);
          })
      where
        stem_of : (xs : Bytes) → is_empty xs ≡ false → is_empty (take (suc i) xs) ≡ false
        stem_of [] h = h
        stem_of (y ∷ ys) h = refl
