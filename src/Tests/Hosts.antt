-- ===== src/Tests/Hosts.antt =====
-- src/local_ip.c and `detect_direction` of src/main.c on a host with three addresses.
use if_flow.Base.{ℕ, ◌≡◌, refl, true, Option, none, some, List, [], ◌∷◌, ◌++◌, Bytes, codes, str_eq}
use if_flow.Json.{decimal}
use if_flow.LocalIps.{LocalIpList, Alloc, SockAddr, local_ip_list_init, local_ip_list_load}

-- The dotted_text text of four bytes; other addresses fail.
abbrev dotted_text : ℕ → Bytes → Option Bytes
dotted_text family (a ∷ b ∷ c ∷ d ∷ []) = some (
    decimal a
    ++ (codes "." ++ (decimal b ++ (codes "." ++ (decimal c ++ (codes "." ++ decimal d))))))
dotted_text family _ = none

abbrev ifaddr : List (Option SockAddr)
ifaddr =
    some (record { sa_family = 2; address = 127 ∷ 0 ∷ 0 ∷ 1 ∷ [] })
    ∷ none
    ∷ some (record { sa_family = 2; address = 192 ∷ 168 ∷ 1 ∷ 7 ∷ [] })
    ∷ some (record { sa_family = 17; address = 1 ∷ 2 ∷ 3 ∷ 4 ∷ [] })
    ∷ some (record { sa_family = 2; address = 127 ∷ 0 ∷ 0 ∷ 1 ∷ [] })
    ∷ []

abbrev granted : ℕ → Alloc
granted i = record { grown = true; copied = true }

abbrev host_ips : LocalIpList
host_ips = record { items = codes "127.0.0.1" ∷ codes "192.168.1.7" ∷ []; cap = 32 }

loaded : (local_ip_list_load dotted_text granted (some ifaddr) local_ip_list_init).0 ≡ host_ips
unfolding local_ip_list_load decimal str_eq
loaded = refl
