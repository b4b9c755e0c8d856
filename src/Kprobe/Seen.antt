-- ===== src/Kprobe/Seen.antt =====
-- bpf/if_flow.bpf.c with src/ebpf_tracker.c: a socket whose process the in-kernel program reports is
-- found under the addresses and ports of its packets.
use if_flow.Base.{ℕ, ◌/◌, ◌%◌, ◌^◌, ◌<◌, ◌≡◌, ◌⊎◌, Bytes, ℤ, arith, ◌==◌, if◌then◌else◌}
use if_flow.Flow.{FlowKey, ipproto_tcp, ipproto_udp}
use if_flow.EbpfTracker.{EbpfTracker, to_int}
use if_flow.Kprobe.{Sock, Task, bpf_ntohs}

-- A socket that is connected over TCP or UDP; its numbers have their width.
pub record IsConnected (sk : Sock) : Type 0 where
  pub has_peer : 0 < sk.skc_daddr
  pub has_port : 0 < sk.skc_dport
  pub dport_u16 : sk.skc_dport < 2 ^ 16
  pub num_u16 : sk.skc_num < 2 ^ 16
  pub sport_u16 : sk.inet_sport < 2 ^ 16
  pub is_transport : (sk.sk_protocol ≡ ipproto_tcp) ⊎ (sk.sk_protocol ≡ ipproto_udp)

-- The port of this end in host byte order: the local number if the port is not set.
abbrev pub own_port : Sock → ℕ
own_port sk = if sk.inet_sport == 0 then sk.skc_num else bpf_ntohs sk.inet_sport

ntohs_twice : (n : ℕ) → n < 2 ^ 16 → bpf_ntohs (bpf_ntohs n) ≡ n
unfolding bpf_ntohs
ntohs_twice n h = omega arith

-- The key of the packets that the socket sends.
abbrev pub socket_key : (ℕ → Bytes) → Sock → FlowKey
socket_key inet_ntop sk = record {
  proto = sk.sk_protocol;
  src_ip = inet_ntop sk.inet_saddr;
  src_port = own_port sk;
  dst_ip = inet_ntop sk.skc_daddr;
  dst_port = bpf_ntohs sk.skc_dport;
}

abbrev pub pid_of : Task → ℤ
pid_of task = to_int (task.pid_tgid / 2 ^ 32 % 2 ^ 32)
