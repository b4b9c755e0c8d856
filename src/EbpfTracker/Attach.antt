-- ===== src/EbpfTracker/Attach.antt =====
-- `ebpf_tracker_open` of src/ebpf_tracker.c, with what libbpf answers as an argument.
use if_flow.Base.{
  ◌≡◌, refl, Bool, true, false, not, ◌&&◌, ◌||◌, Option, none, some, List, [], ◌∷◌, Bytes, All,
  str_eq, codes, if◌then◌else◌, Bool-cases, inl, inr,
}
use if_flow.EbpfTracker.{EbpfTracker}

-- The answers: to opening and loading the object file, its programs by name, which attach, and
-- whether the map and the ring buffer are had.
pub record Libbpf : Type 0 where
  pub opens : Bytes → Bool
  pub loads : Bool
  pub programs : List (Option Bytes)
  pub attaches : Option Bytes → Bool
  pub has_events_map : Bool
  pub makes_ring : Bool

unfoldable pub is_datapath : Option Bytes → Bool
is_datapath none = false
is_datapath (some name) = str_eq name (codes "kp_ip_local_out") || str_eq name (codes "kp_ip_rcv")

-- The programs that are attached in turn, and whether the loop gets to its end.
pub attach_loop : Bool → (Option Bytes → Bool) → List (Option Bytes) → List (Option Bytes) × Bool
unfolding is_datapath
attach_loop enable_datapath attaches [] = ([], true)
attach_loop enable_datapath attaches (prog ∷ progs) =
    let (attached, succeeds) = attach_loop enable_datapath attaches progs in
    if not enable_datapath && is_datapath prog
    then (attached, succeeds)
    else if attaches prog
    then (prog ∷ attached, succeeds)
    else ([], false)

abbrev take_ring : Libbpf → EbpfTracker → Bool → EbpfTracker × Bool
take_ring lib tracker succeeds =
    if succeeds && lib.has_events_map
    then (record tracker { has_obj = true; has_rb = lib.makes_ring }, lib.makes_ring)
    else (record tracker { has_obj = true }, false)

-- The tracker afterwards, the programs that are attached, and whether the call returns 0.
unfoldable pub ebpf_tracker_open : Libbpf → EbpfTracker → EbpfTracker × List (Option Bytes) × Bool
unfolding attach_loop
ebpf_tracker_open lib tracker =
    if not (lib.opens tracker.object_path)
    then (record tracker { has_obj = false }, [], false)
    else if not lib.loads
    then (record tracker { has_obj = true }, [], false)
    else (let (attached, succeeds) =
          attach_loop tracker.enable_datapath lib.attaches lib.programs in
        let (opened, ok) = take_ring lib tracker succeeds in (opened, attached, ok))

attach_loop-skips :
    (attaches : Option Bytes → Bool) (progs : List (Option Bytes))
    → All (λ p. is_datapath p ≡ false) (attach_loop false attaches progs).0
unfolding attach_loop
attach_loop-skips attaches [] = tt
attach_loop-skips attaches (prog ∷ progs) = elim (Bool-cases (is_datapath prog)) [
  | inl skipped ↦ rw skipped (attach_loop-skips attaches progs)
  | inr other ↦ rw other (elim (Bool-cases (attaches prog)) [
    | inl attached ↦ rw attached (other, attach_loop-skips attaches progs)
    | inr refused ↦ rw refused tt
  ])
]

-- With the datapath off, opening attaches no datapath program, whatever libbpf answers.
pub open-skips :
    (lib : Libbpf) (tracker : EbpfTracker)
    → tracker.enable_datapath ≡ false
    → All (λ p. is_datapath p ≡ false) (ebpf_tracker_open lib tracker).1
unfolding ebpf_tracker_open
open-skips lib tracker h = elim (Bool-cases (lib.opens tracker.object_path)) [
  | inr missing ↦ rw missing tt
  | inl opens ↦ rw opens (elim (Bool-cases lib.loads) [
    | inr refused ↦ rw refused tt
    | inl loads ↦ rw (loads, h) (attach_loop-skips lib.attaches lib.programs)
  ])
]

take_ring-entries :
    (lib : Libbpf) (tracker : EbpfTracker) (succeeds : Bool)
    → ((take_ring lib tracker succeeds).0.entries ≡ tracker.entries)
      × ((take_ring lib tracker succeeds).0.cap ≡ tracker.cap)
take_ring-entries lib tracker succeeds = elim (Bool-cases (succeeds && lib.has_events_map)) [
  | inl had ↦ rw had (refl, refl)
  | inr missing ↦ rw missing (refl, refl)
]

-- Opening leaves the hints alone.
pub open-entries :
    (lib : Libbpf) (tracker : EbpfTracker)
    → ((ebpf_tracker_open lib tracker).0.entries ≡ tracker.entries)
      × ((ebpf_tracker_open lib tracker).0.cap ≡ tracker.cap)
unfolding ebpf_tracker_open
open-entries lib tracker = elim (Bool-cases (lib.opens tracker.object_path)) [
  | inr missing ↦ rw missing (refl, refl)
  | inl opens ↦ rw opens (elim (Bool-cases lib.loads) [
    | inr refused ↦ rw refused (refl, refl)
    | inl loads ↦ rw loads (
        take_ring-entries lib tracker
          (attach_loop tracker.enable_datapath lib.attaches lib.programs).1)
  ])
]
