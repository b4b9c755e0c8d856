-- ===== src/Packet/RoundTrip.antt =====
-- `packet_handler` of src/main.c on a well-formed UDP datagram over Ethernet and IPv4.
use if_flow.Base.{ℕ, ◌≡◌, refl, true, some, [], Bytes, length}
use if_flow.Flow.{FlowKey, ipproto_udp}
use if_flow.Classify.{classify_packet}
use if_flow.LocalIps.{LocalIpList, detect_direction}
use if_flow.Parser.Reads.{ok}
use if_flow.Parser.Cursor.{At-start}
use if_flow.Headers.{dlt_en10mb}
use if_flow.Headers.RoundTrip.{Datagram, IsDatagram, ip_packet, frame, l2_lem, ip4_lem, udp_lem}
use if_flow.Packet.{Identity, enrich, packet_touch}

-- The key of a datagram.
abbrev pub datagram_key : (Bytes → Bytes) → Datagram → FlowKey
datagram_key inet_ntop d = record {
  proto = ipproto_udp;
  src_ip = inet_ntop d.src;
  src_port = d.src_port;
  dst_ip = inet_ntop d.dst;
  dst_port = d.dst_port;
}

-- A UDP datagram in an Ethernet frame, with an IPv4 header of 20 bytes, is touched under its own
-- addresses and ports: it opens a connection, counts for the whole frame, has the direction, the
-- identity and the class of its key, and no names.
pub packet_touch-frame :
    (inet_ntop : Bytes → Bytes) (local_ips : LocalIpList) (attribute : FlowKey → Identity) (now : ℕ)
    (d : Datagram)
    → IsDatagram d
    → let key = datagram_key inet_ntop d in
      packet_touch inet_ntop local_ips attribute dlt_en10mb now (frame d)
      ≡ ok (record {
        key = key;
        direction = detect_direction local_ips key.src_ip key.dst_ip;
        pid = (attribute key).pid;
        process = some (attribute key).process;
        cmdline = some (attribute key).cmdline;
        workload = some (attribute key).workload;
        sni = some [];
        host = some [];
        class_tag = some (classify_packet key 0 0 (some []) (some []));
        attr_source = (attribute key).attr_source;
        bytes = length (frame d);
        new_connection = true;
        now_sec = now;
      })
unfolding packet_touch enrich
packet_touch-frame inet_ntop local_ips attribute now d h =
    let (l2, l3) = l2_lem d h in
    let a = At-start (ip_packet d) in
    rw (l2, l3, ip4_lem d h (ip_packet d) a inet_ntop, udp_lem d h (ip_packet d) a) refl
