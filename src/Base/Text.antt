-- ===== src/Base/Text.antt =====
-- C strings: a text is the bytes in front of the terminating NUL, and a `const char *` that may be
-- NULL is an `Option`.
use Prim.Native.Nat.{ℕ, zero, suc, ◌-◌, ◌≤◌, ◌<◌}
use Prim.Native.Char.{code}
use Prim.Native.String.{String}
use mathlib.Core.Path.{◌≡◌, refl}
use mathlib.Core.Logic.{◌↔◌, inl, inr, ◌≢◌}
use mathlib.Core.Bool.{Bool, true, false, ◌&&◌}
use mathlib.Core.List.{List, [], ◌∷◌}
use mathlib.Core.Option.{Option, none, some}
use native.Mathlib.Omega.{arith}
use if_flow.Base.Tests.{◌==◌, if◌then◌else◌, Bool-cases}
use if_flow.Base.Lists.{length, All}

abbrev pub Bytes : Type 0
Bytes = List ℕ

-- The bytes of an ASCII literal.
abbrev pub codes : String → Bytes
codes String.[] = []
codes (String.◌∷◌ c s) = code c ∷ codes s

-- `strcmp(a, b) == 0`
unfoldable pub str_eq : Bytes → Bytes → Bool
str_eq [] [] = true
str_eq (x ∷ xs) (y ∷ ys) = x == y && str_eq xs ys
str_eq _ _ = false

pub str_eq_iff : (a b : Bytes) → (str_eq a b ≡ true) ↔ (a ≡ b)
unfolding str_eq
str_eq_iff (x ∷ a) (y ∷ b) = ground (arith, str_eq_iff a b)
str_eq_iff _ _ = ground arith

-- The text in a buffer: the bytes in front of the first NUL.
unfoldable pub c_str : Bytes → Bytes
c_str [] = []
c_str (c ∷ s) = if c == 0 then [] else c ∷ c_str s

pub c_str-le : (s : Bytes) → length (c_str s) ≤ length s
unfolding c_str
c_str-le [] = omega arith
c_str-le (c ∷ s) = ground (arith, c_str-le s)

-- A text without a NUL is whole.
pub c_str-all : (s : Bytes) → All (λ c. c ≢ 0) s → c_str s ≡ s
unfolding c_str
c_str-all [] h = refl
c_str-all (c ∷ s) h =
    let later = c_str-all s h.1 in
    let other : (c == 0) ≡ false = ground (arith, h.0) in rw (other, later) refl

-- A text has no NUL.
pub c_str-no_nul : (s : Bytes) → All (λ c. c ≢ 0) (c_str s)
unfolding c_str
c_str-no_nul [] = tt
c_str-no_nul (c ∷ s) = elim (Bool-cases (c == 0)) [
  | inl nul ↦ rw nul tt
  | inr other ↦ rw other (ground arith, c_str-no_nul s)
]

-- The loop of `safe_copy`, with the room that is left in front of the terminator.
unfoldable pub copy_loop : ℕ → Bytes → Bytes
copy_loop zero src = []
copy_loop (suc room) [] = []
copy_loop (suc room) (c ∷ src) = c ∷ copy_loop room src

-- `safe_copy(dst, sz, src)`: the text that `dst` holds afterwards.
unfoldable pub safe_copy : Bytes → ℕ → Option Bytes → Bytes
unfolding copy_loop
safe_copy dst sz none = if sz == 0 then dst else []
safe_copy dst sz (some src) = if sz == 0 then dst else copy_loop (sz - 1) src

-- `s && s[0]`
abbrev pub is_set : Option Bytes → Bool
is_set none = false
is_set (some []) = false
is_set (some (c ∷ s)) = true

-- `s[0] == '\0'`
abbrev pub is_empty : Bytes → Bool
is_empty [] = true
is_empty (c ∷ s) = false

copy_loop_le : (room : ℕ) (src : Bytes) → length (copy_loop room src) ≤ room
unfolding copy_loop
copy_loop_le zero src = omega arith
copy_loop_le (suc room) [] = omega arith
copy_loop_le (suc room) (c ∷ src) = omega (arith, copy_loop_le room src)

copy_loop_all : (room : ℕ) (src : Bytes) → length src ≤ room → copy_loop room src ≡ src
unfolding copy_loop
copy_loop_all zero [] h = refl
copy_loop_all zero (c ∷ src) h = absurd (omega arith)
copy_loop_all (suc room) [] h = refl
copy_loop_all (suc room) (c ∷ src) h = ground (arith, copy_loop_all room src)

-- The copy and its terminator fit the buffer.
pub safe_copy_fits :
    (dst : Bytes) (sz : ℕ) (src : Option Bytes) → 0 < sz → length (safe_copy dst sz src) < sz
unfolding safe_copy
safe_copy_fits dst sz none h = ground arith
safe_copy_fits dst sz (some src) h = ground (arith, copy_loop_le (sz - 1) src)

-- A text that fits is copied whole.
pub safe_copy_all :
    (dst : Bytes) (sz : ℕ) (src : Bytes) → length src < sz → safe_copy dst sz (some src) ≡ src
unfolding safe_copy
safe_copy_all dst sz src h = ground (arith, copy_loop_all (sz - 1) src)
