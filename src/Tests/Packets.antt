-- ===== src/Tests/Packets.antt =====
-- `packet_handler` of src/main.c on a DNS query in an Ethernet frame.
use if_flow.Base.{◌≡◌, refl, true, some, [], ◌∷◌, Bytes, negsuc, length}
use if_flow.Flow.{FlowKey, src_unknown, second}
use if_flow.Classify.{classify_packet}
use if_flow.LocalIps.{LocalIpList, detect_direction}
use if_flow.Parser.Reads.{ok}
use if_flow.Headers.{dlt_en10mb}
use if_flow.Headers.RoundTrip.{Datagram, IsDatagram, frame}
use if_flow.Packet.{Identity, packet_touch}
use if_flow.Packet.RoundTrip.{datagram_key, packet_touch-frame}

abbrev pub host_ips : LocalIpList
host_ips = record { items = (10 ∷ 0 ∷ 0 ∷ 2 ∷ []) ∷ []; cap = 32 }

abbrev nobody : FlowKey → Identity
nobody key = record {
  pid = negsuc 0;
  process = [];
  cmdline = [];
  workload = [];
  attr_source = src_unknown;
}

-- The address itself, for its text.
abbrev pub raw_address : Bytes → Bytes
raw_address a = a

abbrev pub query : Datagram
query = record {
  macs = 1 ∷ 2 ∷ 3 ∷ 4 ∷ 5 ∷ 6 ∷ 7 ∷ 8 ∷ 9 ∷ 10 ∷ 11 ∷ 12 ∷ [];
  middle = 0 ∷ 0 ∷ 32 ∷ 0 ∷ 0 ∷ 64 ∷ 0 ∷ 64 ∷ [];
  checksum = 0 ∷ 0 ∷ [];
  src = 10 ∷ 0 ∷ 0 ∷ 2 ∷ [];
  dst = 10 ∷ 0 ∷ 0 ∷ 53 ∷ [];
  src_port = 40000;
  dst_port = 53;
  tail = 0 ∷ 12 ∷ 0 ∷ 0 ∷ [];
  payload = 1 ∷ 2 ∷ 3 ∷ 4 ∷ [];
}

query-IsDatagram : IsDatagram query
query-IsDatagram = record {
  macs_size = refl;
  middle_size = refl;
  checksum_size = refl;
  src_size = refl;
  dst_size = refl;
  tail_size = refl;
}

packet_touch-frame_example :
    packet_touch raw_address host_ips nobody dlt_en10mb second (frame query)
    ≡ ok (record {
      key = datagram_key raw_address query;
      direction = detect_direction host_ips query.src query.dst;
      pid = negsuc 0;
      process = some [];
      cmdline = some [];
      workload = some [];
      sni = some [];
      host = some [];
      class_tag = some (classify_packet (datagram_key raw_address query) 0 0 (some []) (some []));
      attr_source = src_unknown;
      bytes = length (frame query);
      new_connection = true;
      now_sec = second;
    })
packet_touch-frame_example =
    packet_touch-frame raw_address host_ips nobody second query query-IsDatagram
