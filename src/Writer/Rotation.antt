-- ===== src/Writer/Rotation.antt =====
-- The rotation of src/writer_jsonl.c: which chunk is chosen, and what is open afterwards.
use if_flow.Base.{
  ◌⊎◌, [], ◌∷◌, ◌++◌, ℕ, zero, suc, ◌+◌, ◌≤◌, ◌<◌, ◌≡◌, refl, ap, ◌∙◌, Bool, true, false, Option,
  none, some, Bytes, arith, length, str_eq_iff, copy_loop, is_empty, ltb, ◌==◌, if◌then◌else◌,
  Option-cases, Bool-cases, inl, inr,
}
use if_flow.Writer.{
  JsonlWriter, pad4, split_base_ext, build_active_path, choose_loop, choose_active_index,
  keeps_file, reopen, rotate_to, jsonl_writer_rotate_if_needed,
}
use if_flow.Json.{decimal}
use if_flow.Writer.Split.{snprintf_text-all}

module _ (stat_size : Bytes → Option ℕ) where
  -- A chunk that can be written to: there is none yet, or it is below the limit.
  abbrev pub is_writable : ℕ → Bytes → Bool
  is_writable limit path = elim (stat_size path) [ none ↦ true | some size ↦ ltb size limit ]

  choose_loop-step :
      (fuel : ℕ) (path : ℕ → Bytes) (limit idx : ℕ)
      → choose_loop stat_size (suc fuel) path limit idx ≡ (
          if is_writable limit (path idx)
          then some idx
          else choose_loop stat_size fuel path limit (idx + 1))
  unfolding choose_loop
  choose_loop-step fuel path limit idx = elim (Option-cases (stat_size (path idx))) [
    | inl missing ↦ ground (arith, missing)
    | inr (size, e) ↦ ground (arith, e)
  ]

  choose_loop_lem :
      (fuel : ℕ) (path : ℕ → Bytes) (limit idx k : ℕ)
      → idx ≤ k
      → k < idx + fuel
      → is_writable limit (path k) ≡ true
      → ((j : ℕ) → j < k → is_writable limit (path j) ≡ false)
      → choose_loop stat_size fuel path limit idx ≡ some k
  choose_loop_lem zero path limit idx k b f o h = absurd (omega arith)
  choose_loop_lem (suc fuel) path limit idx k b f o h =
      choose_loop-step fuel path limit idx ∙ elim (Bool-cases (idx == k)) [
        | inl here ↦ let e : idx ≡ k = ground arith in rw (e, o) refl
        | inr before ↦
            rw (h idx (ground arith))
              (choose_loop_lem fuel path limit (idx + 1) k (ground arith) (omega arith) o h)
      ]

  -- With a size limit, the loop chooses the first chunk of the day that does not exist or is below
  -- the limit; any fuel above the index of that chunk is enough.
  pub choose_active_index_lem :
      (fuel : ℕ) (writer : JsonlWriter) (day stem ext : Bytes) (k : ℕ)
      → 0 < writer.max_file_size_bytes
      → k < fuel
      → is_writable writer.max_file_size_bytes (build_active_path 1200 stem day ext k) ≡ true
      → ((j : ℕ)
          → j < k
          → is_writable writer.max_file_size_bytes (build_active_path 1200 stem day ext j) ≡ false)
      → choose_active_index stat_size fuel writer day stem ext ≡ some k
  unfolding choose_active_index
  choose_active_index_lem fuel writer day stem ext k m f o h =
      let limited : (writer.max_file_size_bytes == 0) ≡ false = ground arith in
      rw limited (
        choose_loop_lem fuel (build_active_path 1200 stem day ext) writer.max_file_size_bytes 0 k
          (omega arith) (omega arith) o h)

  -- A file is open only under the path that the writer remembers.
  abbrev pub IsOpenAt : JsonlWriter → Type 0
  IsOpenAt writer = (writer.fp ≡ none) ⊎ (writer.fp ≡ some writer.active_path)

  module _ (fopen : Bytes → Bool) (day : Bytes) (wanted : ℕ) (path : Bytes) where
    keeps_lem :
        (writer : JsonlWriter)
        → IsOpenAt writer
        → keeps_file stat_size writer day wanted path ≡ true
        → (writer.fp ≡ some path)
          × (writer.active_day ≡ day)
          × (writer.active_index ≡ wanted)
          × (writer.active_path ≡ path)
    unfolding keeps_file
    keeps_lem writer i h =
        let day_iff = str_eq_iff writer.active_day day in
        let path_iff = str_eq_iff writer.active_path path in
        (
          ground (arith, day_iff, path_iff),
          ground (arith, day_iff, path_iff),
          ground (arith, day_iff, path_iff),
          ground (arith, day_iff, path_iff),
        )

    -- The writer that opening leaves.
    abbrev pub on_path : JsonlWriter → JsonlWriter
    on_path writer = record writer {
      fp = some path;
      active_day = day;
      active_path = path;
      active_index = wanted;
    }

    rotate_to_lem :
        (writer : JsonlWriter)
        → length day < 16
        → length path < 1200
        → IsOpenAt writer
        → (rotate_to stat_size fopen writer day wanted path ≡ (on_path writer, true))
          ⊎ ((rotate_to stat_size fopen writer day wanted path
                ≡ (record writer { fp = none }, false))
              × (fopen path ≡ false))
    unfolding rotate_to reopen
    rotate_to_lem writer d p i = elim (Bool-cases (keeps_file stat_size writer day wanted path)) [
      | inl keeps ↦
          let (f, d, w, p) = keeps_lem writer i keeps in
          let same : writer ≡ on_path writer = λ t. record writer {
            fp = f t;
            active_day = d t;
            active_path = p t;
            active_index = w t;
          } in
          rw keeps (inl (ap (λ (x : JsonlWriter). (x, true)) same))
      | inr lost ↦
          rw (lost, snprintf_text-all 16 day d, snprintf_text-all 1200 path p)
            (elim (Bool-cases (fopen path)) [
              | inl opens ↦ rw opens (inl refl)
              | inr fails ↦ rw fails (inr (refl, refl))
            ])
    ]

copy_loop_le : (room : ℕ) (src : Bytes) → length (copy_loop room src) ≤ room
unfolding copy_loop
copy_loop_le zero src = omega arith
copy_loop_le (suc room) [] = omega arith
copy_loop_le (suc room) (c ∷ src) = omega (arith, copy_loop_le room src)

build_active_path-fits :
    (stem day ext : Bytes) (index : ℕ) → length (build_active_path 1200 stem day ext index) < 1200
unfolding build_active_path
build_active_path-fits stem day ext index = elim (Bool-cases (index == 0)) [
  | inl first ↦ rw first (omega (arith, copy_loop_le 1199 (stem ++ b'-' ∷ (day ++ ext))))
  | inr later ↦ rw later (
      omega
        (arith, copy_loop_le 1199 (stem ++ b'-' ∷ (day ++ b'-' ∷ (pad4 (decimal index) ++ ext)))))
]

module _ (stat_size : Bytes → Option ℕ) (fopen : Bytes → Bool) (day : Bytes) where
  -- The path of the chunk `wanted`.
  abbrev pub path_of : JsonlWriter → ℕ → Bytes
  path_of writer wanted =
      build_active_path 1200 (split_base_ext writer.base_path 1024 128).0 day
        (split_base_ext writer.base_path 1024 128).1 wanted

  abbrev pub choose : ℕ → JsonlWriter → Option ℕ
  choose fuel writer =
      choose_active_index stat_size fuel writer day (split_base_ext writer.base_path 1024 128).0
        (split_base_ext writer.base_path 1024 128).1

  -- For a writer with a base path that holds nothing open but what it remembers, and a day of fewer
  -- than 16 bytes: a rotation leaves the file of the chosen chunk open, with its day, path and index
  -- remembered and the rest as it was, or it fails, and then `fopen` has refused that file and none
  -- is open.
  pub rotate_if_needed_lem :
      (fuel : ℕ) (writer : JsonlWriter) (wanted : ℕ)
      → length day < 16
      → is_empty writer.base_path ≡ false
      → IsOpenAt stat_size writer
      → choose fuel writer ≡ some wanted
      → (jsonl_writer_rotate_if_needed stat_size fuel fopen day writer
          ≡ some (on_path stat_size fopen day wanted (path_of writer wanted) writer, true))
        ⊎ ((jsonl_writer_rotate_if_needed stat_size fuel fopen day writer
              ≡ some (record writer { fp = none }, false))
            × (fopen (path_of writer wanted) ≡ false))
  unfolding jsonl_writer_rotate_if_needed
  rotate_if_needed_lem fuel writer wanted d b i c =
      let path = path_of writer wanted in
      let fits =
        build_active_path-fits (split_base_ext writer.base_path 1024 128).0 day
          (split_base_ext writer.base_path 1024 128).1 wanted in
      elim (rotate_to_lem stat_size fopen day wanted path writer d fits i) [
        | inl h ↦ inl (rw (b, c, h) refl)
        | inr (h, f) ↦ inr (rw (b, c, h) refl, f)
      ]
