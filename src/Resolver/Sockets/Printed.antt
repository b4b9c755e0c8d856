-- ===== src/Resolver/Sockets/Printed.antt =====
-- The rows of the socket tables as the kernel prints them, and the tokens that src/resolver.c finds in
-- such a line.
use if_flow.Base.{
  c_str, ℕ, zero, suc, ◌+◌, ◌-◌, ◌/◌, ◌%◌, ◌^◌, ◌<◌, ◌≡◌, refl, ap, sym, ◌∙◌, Bool, true, false,
  not, ◌&&◌, Option, none, some, List, [], ◌∷◌, ◌++◌, map, Bytes, arith, All, is_empty, ltb, ◌==◌,
  if◌then◌else◌,
}
use mathlib.Core.List.{append_assoc, append-nil}
use if_flow.Resolver.ProcFs.{is_separator, token_loop}

-- A byte that is part of a word.
abbrev pub is_plain : ℕ → Bool
is_plain c = not (c == 0) && not (is_separator c)

abbrev pub IsWord : Bytes → Type 0
IsWord w = (is_empty w ≡ false) × All (λ c. is_plain c ≡ true) w

-- A word behind one blank and `n` more.
pub record Column : Type 0 where
  pub blanks : ℕ
  pub word : Bytes

abbrev pub pad : ℕ → Bytes → Bytes
pad zero s = s
pad (suc n) s = b' ' ∷ pad n s

-- The columns in front of the line's end.
abbrev pub line_of : List Column → Bytes
line_of [] = b'\n' ∷ []
line_of (c ∷ cs) = b' ' ∷ pad c.blanks (c.word ++ line_of cs)

abbrev pub word_of : Column → Bytes
word_of c = c.word

-- The tokens of a line.
token_loop-plain :
    (word w s : Bytes)
    → All (λ c. is_plain c ≡ true) w
    → token_loop word (w ++ s) ≡ token_loop (word ++ w) s
token_loop-plain word [] s h = ap (λ x. token_loop x s) (sym (append-nil word))
token_loop-plain word (c ∷ w) s h =
    token_loop-step word c (w ++ s) h.0
    ∙ token_loop-plain (word ++ c ∷ []) w s h.1
    ∙ ap (λ x. token_loop x s) (append_assoc word (c ∷ []) w)
  where
    token_loop-step :
        (word : Bytes) (c : ℕ) (s : Bytes)
        → is_plain c ≡ true
        → token_loop word (c ∷ s) ≡ token_loop (word ++ c ∷ []) s
    token_loop-step word c s h = unfold token_loop in ground arith

token_loop-pad : (n : ℕ) (s : Bytes) → token_loop [] (pad n s) ≡ token_loop [] s
unfolding token_loop
token_loop-pad zero s = refl
token_loop-pad (suc n) s = token_loop-pad n s

token_loop-line :
    (word : Bytes) (cs : List Column)
    → is_empty word ≡ false
    → All (λ c. IsWord c.word) cs
    → token_loop word (line_of cs) ≡ word ∷ map word_of cs
token_loop-line word [] h w = unfold token_loop in rw h refl
token_loop-line word (c ∷ cs) h w =
    blank word (pad c.blanks (c.word ++ line_of cs)) h
    ∙ ap (◌∷◌ word) (
        token_loop-pad c.blanks (c.word ++ line_of cs)
        ∙ token_loop-plain [] c.word (line_of cs) w.0.1
        ∙ token_loop-line c.word cs w.0.0 w.1)
  where
    blank :
        (word s : Bytes)
        → is_empty word ≡ false
        → token_loop word (b' ' ∷ s) ≡ word ∷ token_loop [] s
    blank word s h = unfold token_loop in rw h refl

pub tokens_lem :
    (c : Column) (cs : List Column)
    → All (λ c. IsWord c.word) (c ∷ cs)
    → token_loop [] (line_of (c ∷ cs)) ≡ map word_of (c ∷ cs)
tokens_lem c cs w =
    blank (pad c.blanks (c.word ++ line_of cs))
    ∙ token_loop-pad c.blanks (c.word ++ line_of cs)
    ∙ token_loop-plain [] c.word (line_of cs) w.0.1
    ∙ token_loop-line c.word cs w.0.0 w.1
  where
    blank : (s : Bytes) → token_loop [] (b' ' ∷ s) ≡ token_loop [] s
    blank s = unfold token_loop in refl

-- A line has no NUL.
c_str-plain : (w s : Bytes) → All (λ c. is_plain c ≡ true) w → c_str s ≡ s → c_str (w ++ s) ≡ w ++ s
unfolding c_str
c_str-plain [] s h e = e
c_str-plain (c ∷ w) s h e =
    let later = c_str-plain w s h.1 e in
    let other : (c == 0) ≡ false = ground (arith, h.0) in rw (other, later) refl

c_str-pad : (n : ℕ) (s : Bytes) → c_str s ≡ s → c_str (pad n s) ≡ pad n s
unfolding c_str
c_str-pad zero s e = e
c_str-pad (suc n) s e = ap (◌∷◌ b' ') (c_str-pad n s e)

pub c_str-line : (cs : List Column) → All (λ c. IsWord c.word) cs → c_str (line_of cs) ≡ line_of cs
c_str-line [] w = unfold c_str in refl
c_str-line (c ∷ cs) w =
    let later = c_str-plain c.word (line_of cs) w.0.1 (c_str-line cs w.1) in
    c_str-pad (suc c.blanks) (c.word ++ line_of cs) later

-- `%X` of a digit.
abbrev pub hex_upper : ℕ → ℕ
hex_upper n = if ltb n 10 then b'0' + n else b'A' + n - 10

-- `%08X` of an address in network byte order, on a machine that has the lowest byte first, and
-- `%04X` of a port.
pub record Endpoint : Type 0 where
  pub b0 : ℕ
  pub b1 : ℕ
  pub b2 : ℕ
  pub b3 : ℕ
  pub port : ℕ

pub record IsEndpoint (e : Endpoint) : Type 0 where
  pub b0_byte : e.b0 < 256
  pub b1_byte : e.b1 < 256
  pub b2_byte : e.b2 < 256
  pub b3_byte : e.b3 < 256
  pub port_u16 : e.port < 2 ^ 16

abbrev pub hex_byte : ℕ → Bytes → Bytes
hex_byte b s = hex_upper (b / 16) ∷ hex_upper (b % 16) ∷ s

abbrev pub hex_port : ℕ → Bytes
hex_port p =
    hex_upper (p / 4096)
    ∷ hex_upper (p / 256 % 16)
    ∷ hex_upper (p / 16 % 16)
    ∷ hex_upper (p % 16)
    ∷ []

abbrev pub hex_address : Endpoint → Bytes
hex_address e = hex_byte e.b3 (hex_byte e.b2 (hex_byte e.b1 (hex_byte e.b0 [])))

abbrev pub endpoint_word : Endpoint → Bytes
endpoint_word e = hex_address e ++ b':' ∷ hex_port e.port

-- `sscanf` reads two digits of a byte, and the four of a port up to the end.
pub record ReadsHex (scan_hex : Option ℕ → Bytes → Option (ℕ × Bytes)) : Type 0 where
  pub reads_byte : (b : ℕ) (s : Bytes) → b < 256 → scan_hex (some 2) (hex_byte b s) ≡ some (b, s)
  pub reads_port : (p : ℕ) → p < 2 ^ 16 → scan_hex none (hex_port p) ≡ some (p, [])
