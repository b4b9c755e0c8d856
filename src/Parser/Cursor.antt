-- ===== src/Parser/Cursor.antt =====
-- Reading a payload of src/parser.c at a place behind which the bytes are known.
use if_flow.Base.{
  ℕ, zero, suc, ◌+◌, ◌/◌, ◌%◌, ◌≡◌, refl, ap, sym, [], ◌∷◌, ◌++◌, Bytes, arith, length,
  length-append, get_elem?, drop, take-append, ◌∙◌,
}
use if_flow.Parser.Reads.{ok, read, read_u16, slice, slice_lem, get_elem?-drop}

-- From `p` on the payload is `rest`.
pub record At (payload : Bytes) (p : ℕ) (rest : Bytes) : Type 0 where
  pub here : drop p payload ≡ rest
  pub size : p + length rest ≡ length payload

drop-nil : (n : ℕ) → drop {A = ℕ} n [] ≡ []
drop-nil zero = refl
drop-nil (suc n) = refl

drop-drop : (p n : ℕ) (xs : Bytes) → drop n (drop p xs) ≡ drop (p + n) xs
drop-drop zero n xs = ground arith
drop-drop (suc p) n [] = drop-nil n ∙ sym (drop-nil (suc p + n))
drop-drop (suc p) n (x ∷ xs) =
    let e : suc (p + n) ≡ suc p + n = omega arith in drop-drop p n xs ∙ ap (λ k. drop k (x ∷ xs)) e

drop-append : (xs ys : Bytes) → drop (length xs) (xs ++ ys) ≡ ys
drop-append [] ys = refl
drop-append (x ∷ xs) ys = drop-append xs ys

pub At-start : (payload : Bytes) → At payload 0 payload
At-start payload = record { here = refl; size = omega arith }

module _ {payload : Bytes} {p : ℕ} where
  -- Past a known piece.
  pub At-skip :
      (xs : Bytes) {rest : Bytes} (q : ℕ)
      → p + length xs ≡ q
      → At payload p (xs ++ rest)
      → At payload q rest
  At-skip xs {rest} q e a = rw (← e) (record {
    here = sym (drop-drop p (length xs) payload) ∙ rw a.here (drop-append xs rest);
    size = omega (arith, a.size, length-append xs rest);
  })

  pub At-read : (c : ℕ) (rest : Bytes) → At payload p (c ∷ rest) → read payload p ≡ ok c
  unfolding read
  At-read c rest a =
      ground (arith, get_elem?-drop p 0 payload, ap (λ (xs : Bytes). get_elem? xs 0) a.here)

  pub At-slice : (xs rest : Bytes) → At payload p (xs ++ rest) → slice payload p (length xs) ≡ ok xs
  At-slice xs rest a =
      slice_lem payload p (length xs) (omega (arith, a.size, length-append xs rest))
      ∙ ap ok (rw a.here (take-append xs rest))

-- A number of 16 bits in network order.
abbrev pub u16 : ℕ → Bytes
u16 n = n / 256 ∷ n % 256 ∷ []

pub At-u16 :
    {payload : Bytes} {p : ℕ} (n : ℕ) (rest : Bytes)
    → At payload p (u16 n ++ rest)
    → read_u16 payload p ≡ ok n
unfolding read_u16
At-u16 {payload} {p} n rest a =
    let b = At-skip (n / 256 ∷ []) (p + 1) refl a in
    rw (At-read (n / 256) (n % 256 ∷ rest) a, At-read (n % 256) rest b) (ap ok (omega arith))
