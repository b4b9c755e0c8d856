-- ===== src/Tests/Kernel.antt =====
-- bpf/if_flow.bpf.c with src/ebpf_tracker.c on a socket that `curl` connects.
use if_flow.Base.{ℕ, ◌+◌, ◌==◌, ◌*◌, ◌^◌, ◌≡◌, refl, true, none, some, Bytes, codes, if◌then◌else◌}
use if_flow.Flow.{second}
use if_flow.EbpfTracker.{EbpfTracker, ebpf_tracker_init}
use if_flow.Kprobe.{Sock, Task, kp_ip_rcv, submit_from_sock}

-- 10.0.0.2:40000 to 10.0.0.9:443
abbrev sk : Sock
sk = record {
  skc_daddr = 0x0900_000a;
  skc_dport = 0xbb01;
  skc_num = 40000;
  sk_protocol = 6;
  inet_saddr = 0x0200_000a;
  inet_sport = 0;
}

abbrev curl : Task
curl = record { pid_tgid = 1234 * 2 ^ 32 + 1235; comm = codes "curl" }

abbrev ipv4_text : ℕ → Bytes
ipv4_text n = if n == 0x0900_000a then codes "10.0.0.9" else codes "10.0.0.2"

abbrev tracker : EbpfTracker
tracker = ebpf_tracker_init (20 * second) (5 * second) true none

-- A packet that arrives without a socket is no event.
no_socket : kp_ip_rcv true curl (some none) ≡ none
unfolding kp_ip_rcv submit_from_sock
no_socket = refl
