-- ===== src/Resolver/Identity.antt =====
-- src/resolver.c: the name, command line and workload of a process, and the small cache in front of
-- them. The buffers have room for a terminator, as those of all callers do.
pub mod Cached
pub mod Named
use if_flow.Base.{
  c_str, ℕ, ◌-◌, ◌*◌, ◌%◌, Bool, not, ◌&&◌, ◌||◌, Option, none, some, List, [], ◌∷◌, ◌++◌, map,
  Bytes, codes, ℤ, pos, negsuc, safe_copy, is_empty, take, ◌==◌, if◌then◌else◌,
}
use if_flow.Flow.{is_fresh, second, if_flow_max_proc_name}
use if_flow.EbpfTracker.{has_substring}
use if_flow.Parser.HttpHost.{tolower}
use if_flow.Json.{decimal}
use if_flow.Resolver.{Texts, Sizes, entry_sizes, no_texts, copy_texts}
use if_flow.Resolver.ProcFs.{ProcFs, fgets_lines, strip_line_end, is_pid_placeholder_name}

-- `snprintf(process, sz, "pid_%d", pid)`
unfoldable pub pid_placeholder : ℕ → ℕ → Bytes
unfolding decimal
pid_placeholder pid sz = safe_copy [] sz (some (codes "pid_" ++ decimal pid))

abbrev first_line : List Bytes → Option Bytes
first_line [] = none
first_line (l ∷ ls) = some l

unfoldable pub read_comm : ProcFs → ℕ → ℕ → Bytes
unfolding pid_placeholder fgets_lines strip_line_end c_str
read_comm fs pid process_sz = elim (fs.comm pid) [
  | none ↦ pid_placeholder pid process_sz
  | some content ↦ strip_line_end (elim (first_line (fgets_lines (process_sz - 1) content)) [
    | none ↦ pid_placeholder pid process_sz
    | some line ↦ c_str line
  ])
]

abbrev pub blank_nul : ℕ → ℕ
blank_nul c = if c == 0 then b' ' else c

unfoldable pub read_cmdline : ProcFs → ℕ → Bytes → ℕ → Bytes
read_cmdline fs pid cmdline cmdline_sz = elim (fs.cmdline pid) [
  | none ↦ safe_copy cmdline cmdline_sz (some [])
  | some content ↦ map blank_nul (take (cmdline_sz - 1) content)
]

-- The class of the text of a cgroup file, of which 8191 bytes are read.
unfoldable pub workload_of : Bytes → Bytes
unfolding has_substring tolower c_str
workload_of content =
    let lower = c_str (map tolower (take 8191 content)) in
    if has_substring (codes "kubepods") lower
    then codes "K8S"
    else if has_substring (codes "docker") lower
    then codes "DOCKER"
    else if has_substring (codes "containerd") lower || has_substring (codes "crio") lower
    then codes "CONTAINER"
    else codes "HOST"

unfoldable pub workload_for_pid : ProcFs → ℕ → Bytes → ℕ → Bytes
unfolding workload_of
workload_for_pid fs pid buf buf_sz =
    safe_copy buf buf_sz
      (some (elim (fs.cgroup pid) [ none ↦ codes "HOST" | some content ↦ workload_of content ]))

pub record PidIdentity : Type 0 where
  pub pid : ℕ
  pub texts : Texts
  pub ts : ℕ

-- `g_pid_cache`, an array of 1024 cells that start out as zero bytes.
abbrev pub PidCache : Type 0
PidCache = ℕ → PidIdentity

abbrev pub g_pid_cache : PidCache
g_pid_cache idx = record { pid = 0; texts = no_texts; ts = 0 }

abbrev pub store : PidCache → ℕ → PidIdentity → PidCache
store pids idx identity i = if i == idx then identity else pids i

-- The texts of a process that the cache does not know; `texts` are the buffers before.
unfoldable pub read_texts : ProcFs → ℕ → Sizes → Texts → Texts
unfolding read_comm read_cmdline workload_for_pid is_pid_placeholder_name
read_texts fs pid sz texts =
    let original_process = safe_copy [] if_flow_max_proc_name (some texts.process) in
    let comm_tmp = read_comm fs pid if_flow_max_proc_name in
    let keep = is_pid_placeholder_name comm_tmp && not (is_empty original_process) in
    record {
      process =
          safe_copy texts.process sz.process_sz
            (some (if keep then original_process else comm_tmp));
      cmdline = read_cmdline fs pid texts.cmdline sz.cmdline_sz;
      workload = workload_for_pid fs pid texts.workload sz.workload_sz;
    }

unfoldable pub is_known : PidCache → ℕ → ℕ → Bool
is_known pids pid now =
    (pids (pid % 1024)).pid == pid && is_fresh (pids (pid % 1024)).ts now (30 * second)

-- The buffers and the cache afterwards. Reading 0 of the clock is for the cutoff, reading 1 for the
-- stamp.
unfoldable pub resolver_read_identity_by_pid :
    ProcFs → (ℕ → ℕ) → ℤ → Sizes → Texts → PidCache → Texts × PidCache
unfolding is_known read_texts copy_texts
resolver_read_identity_by_pid fs clock (negsuc n) sz texts pids =
    (copy_texts texts sz no_texts, pids)
resolver_read_identity_by_pid fs clock (pos pid) sz texts pids =
    let idx = pid % 1024 in
    let found = read_texts fs pid sz texts in
    if is_known pids pid (clock 0) then (copy_texts texts sz (pids idx).texts, pids) else (
      found,
      store pids idx (record {
        pid = pid;
        texts = copy_texts (pids idx).texts entry_sizes found;
        ts = clock 1;
      }),
    )
