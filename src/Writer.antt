-- ===== src/Writer.antt =====
-- src/writer_jsonl.c: the JSONL file, its rotation by day and by size, and the record of a flow. The
-- file system (`stat`, `fopen`), the local day and the local time formats are arguments.
pub mod Split
pub mod Rotation
pub mod Record
use if_flow.Base.{
  ℕ, zero, suc, ◌+◌, ◌-◌, ◌*◌, ◌/◌, ◌%◌, Bool, true, false, not, ◌&&◌, ◌||◌, Option, none, some,
  List, [], ◌∷◌, ◌++◌, Bytes, codes, length, take, drop, copy_loop, str_eq, is_empty, ltb, leb,
  ◌==◌, if◌then◌else◌,
}
use if_flow.Json.{decimal}

-- The index of the last byte `c`, as `strrchr` finds it.
unfoldable pub strrchr : Bytes → ℕ → Option ℕ
strrchr [] c = none
strrchr (x ∷ xs) c = elim (strrchr xs c) [
  | some i ↦ some (suc i)
  | none ↦ if x == c then some 0 else none
]

-- `snprintf(out, sz, "%s", text)`
abbrev pub snprintf_text : ℕ → Bytes → Bytes
snprintf_text zero text = []
snprintf_text (suc room) text = copy_loop room text

abbrev split_at : Bytes → ℕ → ℕ → Option ℕ → Bytes × Bytes
split_at base stem_sz ext_sz none = (snprintf_text stem_sz base, [])
split_at base stem_sz ext_sz (some zero) = (snprintf_text stem_sz base, [])
split_at base stem_sz ext_sz (some (suc dot)) = (
  take (if leb stem_sz (suc dot) then stem_sz - 1 else suc dot) base,
  snprintf_text ext_sz (drop (suc dot) base),
)

-- The stem and the extension; a dot at the start opens no extension.
unfoldable pub split_base_ext : Bytes → ℕ → ℕ → Bytes × Bytes
unfolding strrchr copy_loop
split_base_ext base stem_sz ext_sz =
    if is_empty base
    then (snprintf_text stem_sz (codes "if_flow"), snprintf_text ext_sz (codes ".jsonl"))
    else split_at base stem_sz ext_sz (strrchr base b'.')

-- Zeros up to four digits, for `%04d`.
unfoldable pub pad4 : Bytes → Bytes
pad4 (a ∷ []) = b'0' ∷ b'0' ∷ b'0' ∷ a ∷ []
pad4 (a ∷ b ∷ []) = b'0' ∷ b'0' ∷ a ∷ b ∷ []
pad4 (a ∷ b ∷ c ∷ []) = b'0' ∷ a ∷ b ∷ c ∷ []
pad4 ds = ds

unfoldable pub build_active_path : ℕ → Bytes → Bytes → Bytes → ℕ → Bytes
unfolding copy_loop decimal pad4
build_active_path out_sz stem day ext index =
    if index == 0
    then snprintf_text out_sz (stem ++ b'-' ∷ (day ++ ext))
    else snprintf_text out_sz (stem ++ b'-' ∷ (day ++ b'-' ∷ (pad4 (decimal index) ++ ext)))

-- What is open, and what the writer remembers of it; `fp` is the path that was opened.
pub record JsonlWriter : Type 0 where
  pub fp : Option Bytes
  pub base_path : Bytes
  pub active_path : Bytes
  pub active_day : Bytes
  pub max_file_size_bytes : ℕ
  pub active_index : ℕ

-- `writer->fp` is not NULL.
abbrev pub is_held : Option Bytes → Bool
is_held none = false
is_held (some path) = true

-- `stat_size path` is the size of the file at `path`, if there is one.
module _ (stat_size : Bytes → Option ℕ) where
  -- The loop without end, on fuel; `none` says that the fuel did not do.
  unfoldable pub choose_loop : ℕ → (ℕ → Bytes) → ℕ → ℕ → Option ℕ
  choose_loop zero path limit idx = none
  choose_loop (suc fuel) path limit idx =
      let rest = choose_loop fuel path limit (idx + 1) in
      elim (stat_size (path idx)) [
        | none ↦ some idx
        | some size ↦ if ltb size limit then some idx else rest
      ]

  unfoldable pub choose_active_index : ℕ → JsonlWriter → Bytes → Bytes → Bytes → Option ℕ
  unfolding choose_loop build_active_path
  choose_active_index fuel writer day stem ext =
      if writer.max_file_size_bytes == 0
      then some 0
      else choose_loop fuel (build_active_path 1200 stem day ext) writer.max_file_size_bytes 0

  -- Whether the file is there and below the limit.
  abbrev pub is_below : ℕ → Bytes → Bool
  is_below limit path = elim (stat_size path) [ none ↦ false | some size ↦ ltb size limit ]

  -- Whether the open file still matches both dimensions of the rotation.
  unfoldable pub keeps_file : JsonlWriter → Bytes → ℕ → Bytes → Bool
  keeps_file writer day wanted path =
      is_held writer.fp
      && str_eq writer.active_day day
      && writer.active_index == wanted
      && str_eq writer.active_path path
      && (writer.max_file_size_bytes == 0 || is_below writer.max_file_size_bytes writer.active_path)

  -- The writer afterwards, and whether the call succeeds.
  unfoldable pub reopen : (Bytes → Bool) → JsonlWriter → Bytes → ℕ → Bytes → JsonlWriter × Bool
  unfolding copy_loop
  reopen fopen writer day wanted path =
      if fopen path
      then (
        record writer {
          fp = some path;
          active_day = snprintf_text 16 day;
          active_path = snprintf_text 1200 path;
          active_index = wanted;
        },
        true,
      )
      else (record writer { fp = none }, false)

  unfoldable pub rotate_to : (Bytes → Bool) → JsonlWriter → Bytes → ℕ → Bytes → JsonlWriter × Bool
  unfolding keeps_file reopen
  rotate_to fopen writer day wanted path =
      if keeps_file writer day wanted path
      then (writer, true)
      else reopen fopen writer day wanted path

  unfoldable pub jsonl_writer_rotate_if_needed :
      ℕ → (Bytes → Bool) → Bytes → JsonlWriter → Option (JsonlWriter × Bool)
  jsonl_writer_rotate_if_needed fuel fopen day writer =
      if is_empty writer.base_path
      then some (writer, false)
      else (let (stem, ext) = split_base_ext writer.base_path 1024 128 in
          elim (choose_active_index fuel writer day stem ext) [
            | none ↦ none
            | some wanted ↦
                some
                  (rotate_to fopen writer day wanted (build_active_path 1200 stem day ext wanted))
          ])

  abbrev opened_writer : Bytes → ℕ → JsonlWriter
  opened_writer path max_file_size_bytes = record {
    fp = none;
    base_path = snprintf_text 1024 path;
    active_path = [];
    active_day = [];
    max_file_size_bytes = max_file_size_bytes;
    active_index = 0;
  }

  -- The result is -1 for an empty path, before anything is written to the structure.
  unfoldable pub jsonl_writer_open :
      ℕ → (Bytes → Bool) → Bytes → JsonlWriter → Bytes → ℕ → Option (JsonlWriter × Bool)
  unfolding copy_loop
  jsonl_writer_open fuel fopen day writer path max_file_size_bytes =
      if is_empty path
      then some (writer, false)
      else jsonl_writer_rotate_if_needed fuel fopen day (opened_writer path max_file_size_bytes)

abbrev pub jsonl_writer_close : JsonlWriter → JsonlWriter
jsonl_writer_close writer = record writer { fp = none }
