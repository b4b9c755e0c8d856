-- ===== src/Resolver/ProcFs.antt =====
-- src/resolver.c: what it reads of /proc, as the answers of the file system, and the helpers that
-- walk texts.
use if_flow.Base.{
  ℕ, ◌-◌, Bool, true, not, ◌&&◌, ◌||◌, Option, none, some, List, [], ◌∷◌, ◌++◌, Bytes, codes,
  is_empty, leb, ◌==◌, if◌then◌else◌,
}
use if_flow.EbpfTracker.{starts_with}

-- Contents of files, `none` where `fopen`, `opendir` or `readlink` fails. `fds` and `link` are those
-- of `/proc/<pid>/fd`.
pub record ProcFs : Type 0 where
  pub net_tcp : Option Bytes
  pub net_tcp6 : Option Bytes
  pub net_udp : Option Bytes
  pub net_udp6 : Option Bytes
  pub comm : ℕ → Option Bytes
  pub cmdline : ℕ → Option Bytes
  pub cgroup : ℕ → Option Bytes
  pub names : Option (List Bytes)
  pub fds : ℕ → Option (List Bytes)
  pub link : ℕ → Bytes → Option Bytes

-- `isdigit` in the C locale.
abbrev pub is_digit : ℕ → Bool
is_digit c = leb b'0' c && leb c b'9'

unfoldable pub all_digits : Bytes → Bool
all_digits [] = true
all_digits (c ∷ s) = is_digit c && all_digits s

unfoldable pub is_digits : Bytes → Bool
unfolding all_digits
is_digits s = not (is_empty s) && all_digits s

-- `name + 4`, for a name with these bytes.
abbrev pub after_4 : Bytes → Bytes
after_4 (a ∷ b ∷ c ∷ d ∷ s) = s
after_4 _ = []

unfoldable pub is_pid_placeholder_name : Bytes → Bool
unfolding all_digits starts_with
is_pid_placeholder_name name =
    starts_with (codes "pid_") name && not (is_empty (after_4 name)) && all_digits (after_4 name)

-- The lines that a loop of `fgets` with a buffer of `room + 1` bytes gives; `left` bytes still fit
-- behind `line`.
unfoldable pub fgets_loop : ℕ → ℕ → Bytes → Bytes → List Bytes
fgets_loop room left line [] = if is_empty line then [] else line ∷ []
fgets_loop room left line (c ∷ s) =
    let full = c == b'\n' || left == 1 in
    let read = line ++ c ∷ [] in
    let rest = fgets_loop room (if full then room else left - 1) (if full then [] else read) s in
    if full then read ∷ rest else rest

unfoldable pub fgets_lines : ℕ → Bytes → List Bytes
unfolding fgets_loop
fgets_lines room content = fgets_loop room room [] content

-- `while (len > 0 && (s[len - 1] == '\n' || s[len - 1] == '\r')) s[--len] = '\0'`
unfoldable pub strip_line_end : Bytes → Bytes
strip_line_end [] = []
strip_line_end (c ∷ s) =
    let rest = strip_line_end s in
    if (c == b'\n' || c == b'\r') && is_empty rest then [] else c ∷ rest

-- A text cut at the first `c`: what stands in front of it and behind it.
unfoldable pub cut_at : ℕ → Bytes → Option (Bytes × Bytes)
cut_at c [] = none
cut_at c (x ∷ s) =
    let rest = cut_at c s in
    if x == c
    then some ([], s)
    else elim rest [ none ↦ none | some (front, back) ↦ some (x ∷ front, back) ]

-- The separators that `strtok_r` is given.
abbrev pub is_separator : ℕ → Bool
is_separator c = c == b' ' || c == b'\t' || c == b'\r' || c == b'\n'

-- The tokens of `strtok_r`; `word` is the one that has begun.
unfoldable pub token_loop : Bytes → Bytes → List Bytes
token_loop word [] = if is_empty word then [] else word ∷ []
token_loop word (c ∷ s) =
    let rest = token_loop (if is_separator c then [] else word ++ c ∷ []) s in
    if is_separator c && not (is_empty word) then word ∷ rest else rest
