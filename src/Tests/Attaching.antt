-- ===== src/Tests/Attaching.antt =====
-- `ebpf_tracker_open` of src/ebpf_tracker.c with the datapath off.
use if_flow.Base.{◌≡◌, refl, true, false, none, some, [], ◌∷◌, codes, str_eq}
use if_flow.EbpfTracker.{EbpfTracker, ebpf_tracker_init}
use if_flow.EbpfTracker.Attach.{Libbpf, ebpf_tracker_open}

abbrev lib : Libbpf
lib = record {
  opens = λ path. true;
  loads = true;
  programs = some (codes "kp_tcp_connect") ∷ some (codes "kp_ip_rcv") ∷ none ∷ [];
  attaches = λ prog. true;
  has_events_map = true;
  makes_ring = true;
}

abbrev closed : EbpfTracker
closed = ebpf_tracker_init 120 30 false none

off : closed.enable_datapath ≡ false
unfolding ebpf_tracker_init
off = refl

attached : (ebpf_tracker_open lib closed).1 ≡ some (codes "kp_tcp_connect") ∷ none ∷ []
unfolding ebpf_tracker_open ebpf_tracker_init str_eq
attached = refl
