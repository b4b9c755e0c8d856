-- ===== src/Headers.antt =====
-- `parse_l2_offset` of src/main.c and the header part of its `packet_handler`. A read past the captured
-- bytes is a fault, an early return is `absent`; `inet_ntop` is an argument.
pub mod Safe
pub mod RoundTrip
use if_flow.Base.{
  ℕ, zero, suc, ◌+◌, ◌-◌, ◌*◌, ◌/◌, ◌%◌, Bool, true, false, not, ◌&&◌, ◌||◌, Option, none, some,
  List, [], ◌∷◌, Bytes, ℤ, length, ltb, leb, ◌==◌, if◌then◌else◌,
}
use if_flow.Flow.{
  FlowKey, AttrSource, ipproto_icmp, ipproto_icmpv6, ipproto_tcp, ipproto_udp, ipproto_sctp,
  if_flow_max_name,
}
use if_flow.FlowTable.{FlowTable, Touch, flow_table_touch}
use if_flow.Classify.{classify_ip_proto, classify_packet}
use if_flow.LocalIps.{LocalIpList, detect_direction}
use if_flow.Parser.Reads.{
  Parse, fault, starved, absent, ok, ◌>>=◌, ◌>>◌, guard, read, read_u16, slice,
}
use if_flow.Parser.TlsSni.{parser_extract_tls_sni}
use if_flow.Parser.HttpHost.{parser_extract_http_host}

-- The link types of libpcap and the types of Ethernet that the code names.
abbrev pub dlt_en10mb : ℕ
dlt_en10mb = 1

abbrev pub dlt_raw : ℕ
dlt_raw = 12

abbrev pub dlt_linux_sll : ℕ
dlt_linux_sll = 113

abbrev pub dlt_linux_sll2 : ℕ
dlt_linux_sll2 = 276

abbrev pub ethertype_ip : ℕ
ethertype_ip = 0x0800

abbrev pub ethertype_ipv6 : ℕ
ethertype_ipv6 = 0x86dd

-- A header of `size` bytes with the ethertype at `at`: the offset behind it, and the ethertype.
unfoldable pub l2_header : Bytes → ℕ → ℕ → Parse (ℕ × ℕ)
unfolding read_u16
l2_header packet size at = do
  guard (not (ltb (length packet) size))
  ethertype ← read_u16 packet at
  ok (size, ethertype)

abbrev pub raw_version : ℕ → Parse (ℕ × ℕ)
raw_version version =
    if version == 4
    then ok (0, ethertype_ip)
    else if version == 6
    then ok (0, ethertype_ipv6)
    else absent

unfoldable pub l2_raw : Bytes → Parse (ℕ × ℕ)
unfolding read
l2_raw packet = do
  guard (not (ltb (length packet) 1))
  first ← read packet 0
  raw_version (first / 16)

unfoldable pub parse_l2_offset : Bytes → ℕ → Parse (ℕ × ℕ)
unfolding l2_header l2_raw
parse_l2_offset packet linktype =
    if linktype == dlt_en10mb
    then l2_header packet 14 12
    else if linktype == dlt_linux_sll
    then l2_header packet 16 14
    else if linktype == dlt_linux_sll2
    then l2_header packet 20 0
    else if linktype == dlt_raw
    then l2_raw packet
    else absent

-- What the network header gives: the addresses as text, and where the transport header starts.
pub record Network : Type 0 where
  pub proto : ℕ
  pub src_ip : Bytes
  pub dst_ip : Bytes
  pub l4ofs : ℕ

-- What the transport header gives.
pub record Transport : Type 0 where
  pub src_port : ℕ
  pub dst_port : ℕ
  pub icmp_type : ℕ
  pub icmp_code : ℕ
  pub payload : Bytes
  pub new_connection : Bool

-- `inet_ntop` for an IPv4 or IPv6 address: the text that the key's buffer holds afterwards.
module _ (inet_ntop : Bytes → Bytes) where
  unfoldable pub decode_ip4 : Bytes → Parse Network
  unfolding read slice
  decode_ip4 l3 = do
    guard (not (ltb (length l3) 20))
    first ← read l3 0
    let ihl = first % 16 * 4
    guard (not (ltb ihl 20 || ltb (length l3) ihl))
    proto ← read l3 9
    src ← slice l3 12 4
    dst ← slice l3 16 4
    ok (record { proto = proto; src_ip = inet_ntop src; dst_ip = inet_ntop dst; l4ofs = ihl })

  unfoldable pub decode_ip6 : Bytes → Parse Network
  unfolding read slice
  decode_ip6 l3 = do
    guard (not (ltb (length l3) 40))
    proto ← read l3 6
    src ← slice l3 8 16
    dst ← slice l3 24 16
    ok (record { proto = proto; src_ip = inet_ntop src; dst_ip = inet_ntop dst; l4ofs = 40 })

-- The ports of a header of `size` bytes; the payload starts at `start` behind its own start.
unfoldable pub decode_ports : Bytes → ℕ → ℕ → Bool → Parse Transport
unfolding read_u16 slice
decode_ports l3 l4ofs start new_connection = do
  src_port ← read_u16 l3 l4ofs
  dst_port ← read_u16 l3 (l4ofs + 2)
  payload ← slice l3 (l4ofs + start) (length l3 - l4ofs - start)
  ok (record {
    src_port = src_port;
    dst_port = dst_port;
    icmp_type = 0;
    icmp_code = 0;
    payload = payload;
    new_connection = new_connection;
  })

unfoldable pub decode_tcp : Bytes → ℕ → Parse Transport
unfolding read decode_ports
decode_tcp l3 l4ofs = do
  guard (not (ltb (length l3) (l4ofs + 8)))
  guard (not (ltb (length l3) (l4ofs + 20)))
  off ← read l3 (l4ofs + 12)
  let doff = off / 16 * 4
  guard (not (ltb doff 20 || ltb (length l3) (l4ofs + doff)))
  flags ← read l3 (l4ofs + 13)
  decode_ports l3 l4ofs doff (flags / 2 % 2 == 1 && not (flags / 16 % 2 == 1))

unfoldable pub decode_udp : Bytes → ℕ → Parse Transport
unfolding decode_ports
decode_udp l3 l4ofs = do guard (not (ltb (length l3) (l4ofs + 8))); decode_ports l3 l4ofs 8 true

unfoldable pub decode_sctp : Bytes → ℕ → Parse Transport
unfolding decode_ports
decode_sctp l3 l4ofs = do guard (not (ltb (length l3) (l4ofs + 12))); decode_ports l3 l4ofs 12 true

abbrev no_ports : ℕ → ℕ → Transport
no_ports type code = record {
  src_port = 0;
  dst_port = 0;
  icmp_type = type;
  icmp_code = code;
  payload = [];
  new_connection = true;
}

unfoldable pub decode_icmp : Bytes → ℕ → Parse Transport
unfolding read
decode_icmp l3 l4ofs = do
  guard (not (ltb (length l3) (l4ofs + 8)))
  type ← read l3 l4ofs
  code ← read l3 (l4ofs + 1)
  ok (no_ports type code)

abbrev is_named : Option Bytes → Bool
is_named none = false
is_named (some name) = true

unfoldable pub decode_transport : Bytes → ℕ → ℕ → Parse Transport
unfolding decode_tcp decode_udp decode_sctp decode_icmp
decode_transport l3 l4ofs proto =
    if proto == ipproto_tcp
    then decode_tcp l3 l4ofs
    else if proto == ipproto_udp
    then decode_udp l3 l4ofs
    else if proto == ipproto_sctp
    then decode_sctp l3 l4ofs
    else if proto == ipproto_icmp || proto == ipproto_icmpv6
    then decode_icmp l3 l4ofs
    else if is_named (classify_ip_proto proto)
    then ok (no_ports 0 0)
    else absent
