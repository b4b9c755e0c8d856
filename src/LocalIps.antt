-- ===== src/LocalIps.antt =====
-- src/local_ip.c: the list of the addresses of this host, loaded once, and `detect_direction` of
-- src/main.c, which asks it. The texts of the list are the bytes in front of the NUL.
pub mod Loaded
pub mod Direction
use if_flow.Base.{
  ℕ, ◌*◌, ◌%◌, ◌+◌, zero, suc, Bool, true, false, ◌&&◌, Option, none, some, List, [], ◌∷◌, ◌++◌,
  Bytes, str_eq, is_empty, length, ◌==◌, if◌then◌else◌,
}
use if_flow.Flow.{FlowDirection, dir_unknown, dir_in, dir_out, dir_internal, dir_transit, u64_mod}

pub record LocalIpList : Type 0 where
  pub items : List Bytes
  pub cap : ℕ

abbrev pub local_ip_list_init : LocalIpList
local_ip_list_init = record { items = []; cap = 0 }

abbrev pub local_ip_list_free : LocalIpList → LocalIpList
local_ip_list_free list = record { items = []; cap = 0 }

-- Whether the text is one of the items: the loop of `contains`, and of the search of `add`.
unfoldable pub find_loop : Bytes → List Bytes → Bool
find_loop ip [] = false
find_loop ip (x ∷ xs) = if str_eq x ip then true else find_loop ip xs

-- What the allocator answers in one call of `add`: to `realloc` and to `strdup`.
pub record Alloc : Type 0 where
  pub grown : Bool
  pub copied : Bool

abbrev append_copy : Bool → Bytes → LocalIpList → LocalIpList × Bool
append_copy copied ip list =
    if copied then (record list { items = list.items ++ ip ∷ [] }, true) else (list, false)

-- The list afterwards, and the result of the call.
unfoldable pub local_ip_list_add : Alloc → Bytes → LocalIpList → LocalIpList × Bool
unfolding find_loop
local_ip_list_add alloc ip list =
    if is_empty ip
    then (list, false)
    else if find_loop ip list.items
    then (list, true)
    else if length list.items == list.cap
    then (if alloc.grown
        then append_copy alloc.copied ip
            (record list { cap = if list.cap == 0 then 32 else (list.cap * 2) % u64_mod })
        else (list, false))
    else append_copy alloc.copied ip list

abbrev pub af_inet : ℕ
af_inet = 2

abbrev pub af_inet6 : ℕ
af_inet6 = 10

-- One interface address as `getifaddrs` gives it; `ifa_addr` may be NULL.
pub record SockAddr : Type 0 where
  pub sa_family : ℕ
  pub address : Bytes

-- `inet_ntop` on a family and the bytes of an address, NULL where it fails.
module _ (inet_ntop : ℕ → Bytes → Option Bytes) where
  -- The text that one turn of the loop adds, if it gets that far.
  unfoldable pub address_text : Option SockAddr → Option Bytes
  address_text none = none
  address_text (some a) =
      if a.sa_family == af_inet
      then inet_ntop a.sa_family a.address
      else if a.sa_family == af_inet6
      then inet_ntop a.sa_family a.address
      else none

  add_text : Alloc → Option Bytes → LocalIpList → LocalIpList
  unfolding local_ip_list_add
  add_text alloc none list = list
  add_text alloc (some ip) list = (local_ip_list_add alloc ip list).0

  -- `alloc i` is what the allocator answers in turn `i`.
  unfoldable pub load_loop : (ℕ → Alloc) → ℕ → List (Option SockAddr) → LocalIpList → LocalIpList
  unfolding address_text add_text
  load_loop alloc i [] list = list
  load_loop alloc i (a ∷ rest) list =
      load_loop alloc (i + 1) rest (add_text (alloc i) (address_text a) list)

  -- `none` from `getifaddrs` is its failure.
  unfoldable pub local_ip_list_load :
      (ℕ → Alloc) → Option (List (Option SockAddr)) → LocalIpList → LocalIpList × Bool
  unfolding load_loop
  local_ip_list_load alloc none list = (list, false)
  local_ip_list_load alloc (some ifaddr) list = (load_loop alloc 0 ifaddr list, true)

unfoldable pub local_ip_list_contains : Bytes → LocalIpList → Bool
unfolding find_loop
local_ip_list_contains ip list = find_loop ip list.items

unfoldable pub detect_direction : LocalIpList → Bytes → Bytes → FlowDirection
unfolding local_ip_list_contains
detect_direction list src_ip dst_ip =
    let src_local = local_ip_list_contains src_ip list in
    let dst_local = local_ip_list_contains dst_ip list in
    if src_local && dst_local
    then dir_internal
    else if src_local
    then dir_out
    else if dst_local
    then dir_in
    else dir_transit
