-- ===== src/Resolver/Owners.antt =====
-- src/resolver.c: the processes that hold sockets, found by the links of `/proc/<pid>/fd`.
use if_flow.Base.{
  c_str, ℕ, zero, suc, ◌+◌, ◌-◌, ◌*◌, Bool, Option, none, some, List, [], ◌∷◌, ◌++◌, Bytes, codes,
  str_eq, safe_copy, length, take, drop, if◌then◌else◌,
}
use if_flow.EbpfTracker.{starts_with}
use if_flow.Resolver.ProcFs.{ProcFs, is_digits, cut_at}

pub record InodeOwner : Type 0 where
  pub inode : Bytes
  pub pid : ℕ

-- `atoi` of a text of digits; a number that the kernel gives to a process fits an int.
unfoldable pub atoi_loop : ℕ → Bytes → ℕ
atoi_loop n [] = n
atoi_loop n (c ∷ s) = atoi_loop (n * 10 + (c - b'0')) s

-- The inode in the target of a link, of which 1023 bytes are read.
unfoldable pub socket_inode : Bytes → Option Bytes
unfolding starts_with cut_at c_str
socket_inode target =
    let linkv = c_str (take 1023 target) in
    if starts_with (codes "socket:[") linkv
    then elim (cut_at b']' (drop 8 linkv)) [
      | none ↦ none
      | some (s, _) ↦ some (safe_copy [] 64 (some s))
    ]
    else none

abbrev is_dot : Bytes → Bool
is_dot name = starts_with (codes ".") name

-- What an entry of `/proc/<pid>/fd` says.
unfoldable pub fd_owner : ProcFs → ℕ → Bytes → Option InodeOwner
unfolding socket_inode starts_with
fd_owner fs pid name = if is_dot name then none else elim (fs.link pid name) [
  | none ↦ none
  | some target ↦ elim (socket_inode target) [
    | none ↦ none
    | some inode ↦ some (record { inode = inode; pid = pid })
  ]
]

-- `room` owners still fit.
unfoldable pub fd_loop : ProcFs → ℕ → ℕ → List Bytes → List InodeOwner
unfolding fd_owner
fd_loop fs pid zero names = []
fd_loop fs pid (suc room) [] = []
fd_loop fs pid (suc room) (name ∷ names) = elim (fd_owner fs pid name) [
  | none ↦ fd_loop fs pid (suc room) names
  | some owner ↦ owner ∷ fd_loop fs pid room names
]

-- The owners that a name in /proc gives.
unfoldable pub process_owners : ProcFs → ℕ → Bytes → List InodeOwner
unfolding fd_loop atoi_loop is_digits
process_owners fs room name =
    if is_digits name
    then elim (fs.fds (atoi_loop 0 name)) [
      | none ↦ []
      | some names ↦ fd_loop fs (atoi_loop 0 name) room names
    ]
    else []

unfoldable pub proc_loop : ProcFs → ℕ → List Bytes → List InodeOwner
unfolding process_owners
proc_loop fs room [] = []
proc_loop fs room (name ∷ names) =
    let owners = process_owners fs room name in owners ++ proc_loop fs (room - length owners) names

unfoldable pub collect_inode_owners : ProcFs → ℕ → List InodeOwner
unfolding proc_loop
collect_inode_owners fs max_owners = elim fs.names [
  | none ↦ []
  | some names ↦ proc_loop fs max_owners names
]

unfoldable pub lookup_inode_owner : List InodeOwner → Bytes → Option ℕ
lookup_inode_owner [] inode = none
lookup_inode_owner (o ∷ owners) inode =
    if str_eq o.inode inode then some o.pid else lookup_inode_owner owners inode
