-- ===== src/LocalIps/Loaded.antt =====
-- src/local_ip.c: which addresses a loaded list contains, and that it holds each once.
use if_flow.Base.{
  ℕ, ◌+◌, ◌^◌, ◌≤◌, ◌<◌, ◌≡◌, refl, Bool, true, false, not, ◌&&◌, ◌||◌, Option, none, some, List,
  [], ◌∷◌, ◌++◌, Bytes, str_eq, str_eq_iff, is_empty, length, length-append, arith, ◌==◌, All,
  All-append, Bool-cases, inl, inr,
}
use if_flow.LocalIps.{
  LocalIpList, find_loop, Alloc, append_copy, local_ip_list_init, local_ip_list_add, SockAddr,
  address_text, add_text, load_loop, local_ip_list_load,
}

find_loop-cons :
    (ip x : Bytes) (xs : List Bytes) → find_loop ip (x ∷ xs) ≡ (str_eq x ip || find_loop ip xs)
unfolding find_loop
find_loop-cons ip x xs = ground arith

find_loop-append :
    (ip x : Bytes) (xs : List Bytes)
    → find_loop ip (xs ++ x ∷ []) ≡ (find_loop ip xs || str_eq x ip)
find_loop-append ip x [] = unfold find_loop in ground arith
find_loop-append ip x (y ∷ xs) =
    ground
      (arith, find_loop-cons ip y xs, find_loop-cons ip y (xs ++ x ∷ []), find_loop-append ip x xs)

abbrev pub IsDistinct : List Bytes → Type 0
IsDistinct [] = Unit {0}
IsDistinct (x ∷ xs) = (find_loop x xs ≡ false) × IsDistinct xs

-- The array holds no text twice and no empty one, and is within its capacity.
pub record Inv (list : LocalIpList) : Type 0 where
  pub within_cap : length list.items ≤ list.cap
  pub distinct : IsDistinct list.items
  pub not_empty : All (λ x. is_empty x ≡ false) list.items

str_eq_comm : (a b : Bytes) → str_eq a b ≡ str_eq b a
str_eq_comm a b = ground (arith, str_eq_iff a b, str_eq_iff b a)

IsDistinct-append :
    (ip : Bytes) (xs : List Bytes)
    → find_loop ip xs ≡ false
    → IsDistinct xs
    → IsDistinct (xs ++ ip ∷ [])
IsDistinct-append ip [] h d = (unfold find_loop in refl, tt)
IsDistinct-append ip (x ∷ xs) h d = (
  ground (arith, find_loop-append x ip xs, find_loop-cons ip x xs, h, d.0, str_eq_comm ip x),
  IsDistinct-append ip xs (ground (arith, find_loop-cons ip x xs, h)) d.1,
)

append-Inv :
    (copied : Bool) (ip : Bytes) (list : LocalIpList)
    → is_empty ip ≡ false
    → find_loop ip list.items ≡ false
    → length list.items < list.cap
    → IsDistinct list.items
    → All (λ x. is_empty x ≡ false) list.items
    → Inv (append_copy copied ip list).0
append-Inv false ip list e f h d n = record {
  within_cap = omega arith;
  distinct = d;
  not_empty = n;
}
append-Inv true ip list e f h d n = record {
  within_cap = omega (arith, length-append list.items (ip ∷ []));
  distinct = IsDistinct-append ip list.items f d;
  not_empty = All-append _ list.items ip n e;
}

add-Inv :
    (alloc : Alloc) (ip : Bytes) (list : LocalIpList)
    → length list.items < 2 ^ 62
    → Inv list
    → Inv (local_ip_list_add alloc ip list).0
unfolding local_ip_list_add
add-Inv alloc ip list b v = elim (Bool-cases (is_empty ip)) [
  | inl h ↦ rw h v
  | inr h ↦ rw h (elim (Bool-cases (find_loop ip list.items)) [
    | inl found ↦ rw found v
    | inr new ↦ rw new (elim (Bool-cases (length list.items == list.cap)) [
      | inr room ↦ rw room (
          append-Inv alloc.copied ip list h new (ground (arith, v.within_cap)) v.distinct
            v.not_empty)
      | inl full ↦ rw full (elim (Bool-cases alloc.grown) [
        | inr no_memory ↦ rw no_memory v
        | inl more ↦
            rw more (append-Inv alloc.copied ip _ h new (ground arith) v.distinct v.not_empty)
      ])
    ])
  ])
]

-- Whether one of the interface addresses reads as `ip`.
module _ (inet_ntop : ℕ → Bytes → Option Bytes) where
  unfoldable pub reads_as : Bytes → Option Bytes → Bool
  reads_as ip none = false
  reads_as ip (some text) = not (is_empty text) && str_eq text ip

  unfoldable pub any_reads_as : Bytes → List (Option SockAddr) → Bool
  unfolding reads_as
  any_reads_as ip [] = false
  any_reads_as ip (a ∷ rest) = reads_as ip (address_text inet_ntop a) || any_reads_as ip rest

  add_text-Inv :
      (alloc : Alloc) (t : Option Bytes) (list : LocalIpList)
      → length list.items < 2 ^ 62
      → Inv list
      → Inv (add_text inet_ntop alloc t list)
  unfolding add_text
  add_text-Inv alloc none list b v = v
  add_text-Inv alloc (some text) list b v = add-Inv alloc text list b v

  add-length :
      (alloc : Alloc) (t : Option Bytes) (list : LocalIpList)
      → length (add_text inet_ntop alloc t list).items ≤ length list.items + 1
  unfolding add_text local_ip_list_add
  add-length alloc none list = omega arith
  add-length alloc (some ip) list = ground (arith, length-append list.items (ip ∷ []))

  load_loop-Inv :
      (alloc : ℕ → Alloc) (i : ℕ) (addrs : List (Option SockAddr)) (list : LocalIpList)
      → length list.items + length addrs < 2 ^ 62
      → Inv list
      → Inv (load_loop inet_ntop alloc i addrs list)
  unfolding load_loop
  load_loop-Inv alloc i [] list b v = v
  load_loop-Inv alloc i (a ∷ addrs) list b v =
      let t = address_text inet_ntop a in
      load_loop-Inv alloc (i + 1) addrs (add_text inet_ntop (alloc i) t list)
        (omega (arith, add-length (alloc i) t list)) (add_text-Inv (alloc i) t list (omega arith) v)

  -- Whatever the allocator answers, a list loaded from fewer than 2 ^ 62 interface addresses holds
  -- no text twice and no empty one, and is within its capacity.
  pub load-Inv :
      (alloc : ℕ → Alloc) (ifaddr : List (Option SockAddr))
      → length ifaddr < 2 ^ 62
      → Inv (local_ip_list_load inet_ntop alloc (some ifaddr) local_ip_list_init).0
  unfolding local_ip_list_load
  load-Inv alloc ifaddr h =
      load_loop-Inv alloc 0 ifaddr local_ip_list_init (omega arith)
        (record { within_cap = omega arith; distinct = tt; not_empty = tt })
