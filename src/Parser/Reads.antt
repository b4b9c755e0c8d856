-- ===== src/Parser/Reads.antt =====
-- Reads of a payload of src/parser.c, with the outcomes of its functions: a read past the payload is
-- a fault, and a loop that runs out of fuel is told from one that ends.
use if_flow.Base.{
  ap, length-take_le, ℕ, ◌+◌, ◌*◌, ◌≤◌, ◌<◌, Bool, true, false, ◌≡◌, refl, Option, none, some, List,
  [], ◌∷◌, arith, Bytes, length, get_elem?, take, drop, leb, if◌then◌else◌, zero, suc,
}

pub data Parse {ℓ} (A : Type ℓ) : Type ℓ where
  fault starved absent : Parse A
  ok : A → Parse A

infixl 5 ◌>>=◌ ◌>>◌
abbrev pub ◌>>=◌ {ℓ κ} : {A : Type ℓ} {B : Type κ} → Parse A → (A → Parse B) → Parse B
fault >>= f = fault
starved >>= f = starved
absent >>= f = absent
ok a >>= f = f a

abbrev pub ◌>>◌ {ℓ} : {B : Type ℓ} → Parse (Unit {0}) → Parse B → Parse B
m >> k = m >>= λ _. k

-- `if (!b) return 0;`
abbrev pub guard : Bool → Parse (Unit {0})
guard true = ok tt
guard false = absent

abbrev or_fault {ℓ} : {A : Type ℓ} → Option A → Parse A
or_fault none = fault
or_fault (some a) = ok a

-- `payload[i]`
unfoldable pub read : Bytes → ℕ → Parse ℕ
read payload i = or_fault (get_elem? payload i)

-- `((uint16_t)payload[i] << 8) | payload[i + 1]`: the bytes are below 256, so the two parts do not
-- overlap.
unfoldable pub read_u16 : Bytes → ℕ → Parse ℕ
read_u16 payload i = do hi ← read payload i; lo ← read payload (i + 1); ok (hi * 256 + lo)

-- `memcpy(out, &payload[i], n)`
unfoldable pub slice : Bytes → ℕ → ℕ → Parse Bytes
slice payload i n = if leb (i + n) (length payload) then ok (take n (drop i payload)) else fault

-- The run ends without a fault and within its fuel, and what it returns has the property.
abbrev pub Gives {ℓ} : {A : Type ℓ} → (A → Type 0) → Parse A → Type 0
Gives P fault = ⊥
Gives P starved = ⊥
Gives P absent = Unit
Gives P (ok a) = P a

pub Gives-bind {ℓ κ} :
    {A : Type ℓ} {B : Type κ} (P : A → Type 0) (Q : B → Type 0) (m : Parse A) (f : A → Parse B)
    → Gives P m
    → ((a : A) → P a → Gives Q (f a))
    → Gives Q (m >>= f)
Gives-bind P Q fault f h k = h
Gives-bind P Q starved f h k = h
Gives-bind P Q absent f h k = tt
Gives-bind P Q (ok a) f h k = k a h

pub Gives-mono {ℓ} :
    {A : Type ℓ} (P Q : A → Type 0) (m : Parse A) → ((a : A) → P a → Q a) → Gives P m → Gives Q m
Gives-mono P Q fault k h = h
Gives-mono P Q starved k h = h
Gives-mono P Q absent k h = tt
Gives-mono P Q (ok a) k h = k a h

-- `text` stands somewhere in the payload.
abbrev pub IsSlice : Bytes → Bytes → Type 0
IsSlice payload text = (i : ℕ) × (text ≡ take (length text) (drop i payload))

get_elem?-lt {ℓ} :
    {A : Type ℓ} (xs : List A) (i : ℕ) → i < length xs → (x : A) × (get_elem? xs i ≡ some x)
get_elem?-lt [] i h = elim h [ ]
get_elem?-lt (x ∷ xs) zero h = (x, refl)
get_elem?-lt (x ∷ xs) (suc i) h = get_elem?-lt xs i (omega arith)

pub read_ok : (payload : Bytes) (i : ℕ) → i < length payload → (c : ℕ) × (read payload i ≡ ok c)
unfolding read
read_ok payload i h = let (c, e) = get_elem?-lt payload i h in (c, rw e)

pub read_u16_ok :
    (payload : Bytes) (i : ℕ) → i + 1 < length payload → (n : ℕ) × (read_u16 payload i ≡ ok n)
unfolding read_u16
read_u16_ok payload i h =
    let (hi, e) = read_ok payload i (omega arith) in
    let (lo, f) = read_ok payload (i + 1) h in (hi * 256 + lo, rw (e, f))

pub length-slice : (n i : ℕ) (xs : Bytes) → i + n ≤ length xs → length (take n (drop i xs)) ≡ n
length-slice n zero xs h = length-take_le n xs (omega arith)
length-slice n (suc i) [] h = absurd (omega arith)
length-slice n (suc i) (x ∷ xs) h = length-slice n i xs (omega arith)

pub slice_ok :
    (payload : Bytes) (i n : ℕ)
    → i + n ≤ length payload
    → (text : Bytes) × (slice payload i n ≡ ok text) × (length text ≡ n) × IsSlice payload text
unfolding slice
slice_ok payload i n h =
    let same = length-slice n i payload h in
    (take n (drop i payload), ground arith, same, (i, rw same))

pub read_inside : (payload : Bytes) (i : ℕ) {c : ℕ} → read payload i ≡ ok c → i < length payload
unfolding read
read_inside [] i e = absurd (cc)
read_inside (x ∷ xs) zero e = omega arith
read_inside (x ∷ xs) (suc i) e = omega (arith, read_inside xs i e)

pub get_elem?-drop : (i k : ℕ) (xs : Bytes) → get_elem? (drop i xs) k ≡ get_elem? xs (i + k)
get_elem?-drop zero k xs = ground arith
get_elem?-drop (suc i) k [] = ground arith
get_elem?-drop (suc i) k (x ∷ xs) = ground (arith, get_elem?-drop i k xs)

pub get_elem?-take :
    (n k : ℕ) (xs : Bytes) {c : ℕ} → get_elem? (take n xs) k ≡ some c → get_elem? xs k ≡ some c
get_elem?-take zero k xs e = absurd (cc)
get_elem?-take (suc n) k [] e = e
get_elem?-take (suc n) zero (x ∷ xs) e = e
get_elem?-take (suc n) (suc k) (x ∷ xs) e = get_elem?-take n k xs e

-- A byte of a slice is the byte of the payload at its place.
pub slice-read :
    (payload : Bytes) (i n k : ℕ) {c : ℕ}
    → get_elem? (take n (drop i payload)) k ≡ some c
    → read payload (i + k) ≡ ok c
unfolding read
slice-read payload i n k e =
    ground (arith, get_elem?-take n k (drop i payload) e, get_elem?-drop i k payload)

pub slice_lem :
    (payload : Bytes) (i n : ℕ)
    → i + n ≤ length payload
    → slice payload i n ≡ ok (take n (drop i payload))
unfolding slice
slice_lem payload i n h = ground arith

pub get_elem?-inside : (xs : Bytes) (k : ℕ) {c : ℕ} → get_elem? xs k ≡ some c → k < length xs
get_elem?-inside [] k e = absurd (cc)
get_elem?-inside (x ∷ xs) zero e = omega arith
get_elem?-inside (x ∷ xs) (suc k) e = omega (arith, get_elem?-inside xs k e)

pub take-take : (k n : ℕ) (xs : Bytes) → k ≤ n → take k (take n xs) ≡ take k xs
take-take zero n xs h = refl
take-take (suc k) zero xs h = absurd (omega arith)
take-take (suc k) (suc n) [] h = refl
take-take (suc k) (suc n) (x ∷ xs) h = ap (◌∷◌ x) (take-take k n xs (omega arith))
