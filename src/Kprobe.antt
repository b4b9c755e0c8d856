-- ===== src/Kprobe.antt =====
-- bpf/if_flow.bpf.c: the events that the in-kernel program sends. What the kernel holds is an
-- argument: fields in network byte order are the numbers that a machine with the lowest byte first
-- reads. The ring buffer says whether it grants a record.
pub mod Seen
use if_flow.Base.{
  ℕ, ◌+◌, ◌*◌, ◌/◌, ◌%◌, ◌^◌, Bool, true, false, not, ◌&&◌, ◌||◌, Option, none, some, Bytes, ◌==◌,
  if◌then◌else◌,
}
use if_flow.Flow.{ipproto_tcp, ipproto_udp}
use if_flow.EbpfTracker.{EbpfEventV4, event_src_datapath}

-- The fields that are read of a socket.
pub record Sock : Type 0 where
  pub skc_daddr : ℕ
  pub skc_dport : ℕ
  pub skc_num : ℕ
  pub sk_protocol : ℕ
  pub inet_saddr : ℕ
  pub inet_sport : ℕ

-- The task that runs: its number for `bpf_get_current_pid_tgid`, and its name.
pub record Task : Type 0 where
  pub pid_tgid : ℕ
  pub comm : Bytes

abbrev pub event_src_connect : ℕ
event_src_connect = 1

-- `bpf_ntohs` and `bpf_htons`
unfoldable pub bpf_ntohs : ℕ → ℕ
bpf_ntohs n = n % 256 * 256 + n / 256 % 256

-- The source port, taken from the local number where it is not set.
unfoldable pub source_port_be : Sock → ℕ
unfolding bpf_ntohs
source_port_be sk =
    if sk.inet_sport == 0 && not (sk.skc_num == 0) then bpf_ntohs sk.skc_num else sk.inet_sport

abbrev pub event_of : Sock → Task → ℕ → EbpfEventV4
event_of sk task source = record {
  pid = task.pid_tgid / 2 ^ 32 % 2 ^ 32;
  comm = task.comm;
  proto = sk.sk_protocol % 256;
  saddr = sk.inet_saddr;
  daddr = sk.skc_daddr;
  sport = bpf_ntohs (source_port_be sk);
  dport = bpf_ntohs sk.skc_dport;
  source = source;
}

-- The event that is submitted, if any; `sk` may be NULL.
unfoldable pub submit_from_sock : Bool → Task → Option Sock → ℕ → Option EbpfEventV4
unfolding source_port_be
submit_from_sock granted task none source = none
submit_from_sock granted task (some sk) source =
    if sk.skc_dport == 0
    then none
    else if not (sk.sk_protocol == ipproto_tcp) && not (sk.sk_protocol == ipproto_udp)
    then none
    else if sk.skc_daddr == 0 || sk.skc_dport == 0
    then none
    else if granted
    then some (event_of sk task source)
    else none

unfoldable pub kp_tcp_connect : Bool → Task → Option Sock → Option EbpfEventV4
unfolding submit_from_sock
kp_tcp_connect granted task sk = submit_from_sock granted task sk event_src_connect

unfoldable pub kp_ip_local_out : Bool → Task → Option Sock → Option EbpfEventV4
unfolding submit_from_sock
kp_ip_local_out granted task sk = submit_from_sock granted task sk event_src_datapath

-- `skb` may be NULL, and so may its socket.
unfoldable pub kp_ip_rcv : Bool → Task → Option (Option Sock) → Option EbpfEventV4
unfolding submit_from_sock
kp_ip_rcv granted task none = none
kp_ip_rcv granted task (some sk) = submit_from_sock granted task sk event_src_datapath
