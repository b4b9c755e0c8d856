-- ===== src/Headers/RoundTrip.antt =====
-- The header part of `packet_handler` of src/main.c on a well-formed UDP datagram over Ethernet.
use if_flow.Base.{
  ℕ, ◌+◌, ◌-◌, ◌≡◌, refl, sym, subst, true, false, [], ◌∷◌, ◌++◌, Bytes, arith, length, ltb,
}
use mathlib.Core.List.{append-nil}
use if_flow.Flow.{ipproto_udp}
use if_flow.Parser.Reads.{ok, slice}
use if_flow.Parser.Cursor.{At, At-start, At-skip, At-read, At-slice, At-u16, u16}
use if_flow.Headers.{
  dlt_en10mb, ethertype_ip, l2_header, parse_l2_offset, decode_ip4, decode_ports, decode_udp,
  decode_transport,
}

-- The fields of a frame: the hardware addresses, the bytes of the IPv4 header between its first and
-- the protocol, its checksum, the addresses, the ports, the length and checksum of UDP.
pub record Datagram : Type 0 where
  pub macs : Bytes
  pub middle : Bytes
  pub checksum : Bytes
  pub src : Bytes
  pub dst : Bytes
  pub src_port : ℕ
  pub dst_port : ℕ
  pub tail : Bytes
  pub payload : Bytes

pub record IsDatagram (d : Datagram) : Type 0 where
  pub macs_size : length d.macs ≡ 12
  pub middle_size : length d.middle ≡ 8
  pub checksum_size : length d.checksum ≡ 2
  pub src_size : length d.src ≡ 4
  pub dst_size : length d.dst ≡ 4
  pub tail_size : length d.tail ≡ 4

abbrev udp : Datagram → Bytes
udp d = u16 d.src_port ++ (u16 d.dst_port ++ (d.tail ++ d.payload))

-- The IPv4 packet, with a header of 20 bytes, and the frame.
abbrev pub ip_packet : Datagram → Bytes
ip_packet d = 0x45 ∷ (d.middle ++ (ipproto_udp ∷ (d.checksum ++ (d.src ++ (d.dst ++ udp d)))))

abbrev pub frame : Datagram → Bytes
frame d = d.macs ++ (u16 ethertype_ip ++ ip_packet d)

module _ (d : Datagram) (h : IsDatagram d) where
  pub l2_lem :
      (parse_l2_offset (frame d) dlt_en10mb ≡ ok (14, ethertype_ip))
      × (slice (frame d) 14 (length (frame d) - 14) ≡ ok (ip_packet d))
  unfolding parse_l2_offset l2_header
  l2_lem =
      let a = At-start (frame d) in
      let b = At-skip {p = 0} d.macs 12 (omega (arith, h.macs_size)) a in
      let c = At-skip {p = 12} (u16 ethertype_ip) 14 (omega arith) b in
      let size : length (frame d) - 14 ≡ length (ip_packet d) = omega (arith, c.size) in
      let long : ltb (length (frame d)) 14 ≡ false = ground (arith, c.size) in
      let whole =
        At-slice (ip_packet d) [] (subst (At (frame d) 14) (sym (append-nil (ip_packet d))) c) in
      (rw (long, At-u16 ethertype_ip (ip_packet d) b) refl, rw size whole)

  module _ (l3 : Bytes) (a : At l3 0 (ip_packet d)) where
    sized :
        {p : ℕ} (n : ℕ) (xs rest : Bytes)
        → length xs ≡ n
        → At l3 p (xs ++ rest)
        → slice l3 p n ≡ ok xs
    sized {p} n xs rest e b = subst (λ k. slice l3 p k ≡ ok xs) e (At-slice xs rest b)

    proto_ahead : At l3 9 (ipproto_udp ∷ (d.checksum ++ (d.src ++ (d.dst ++ udp d))))
    proto_ahead =
        At-skip {p = 1} d.middle 9 (omega (arith, h.middle_size))
          (At-skip {p = 0} (0x45 ∷ []) 1 (omega arith) a)

    src_ahead : At l3 12 (d.src ++ (d.dst ++ udp d))
    src_ahead =
        At-skip {p = 10} d.checksum 12 (omega (arith, h.checksum_size))
          (At-skip {p = 9} (ipproto_udp ∷ []) 10 (omega arith) proto_ahead)

    dst_ahead : At l3 16 (d.dst ++ udp d)
    dst_ahead = At-skip {p = 12} d.src 16 (omega (arith, h.src_size)) src_ahead

    udp_ahead : At l3 20 (udp d)
    udp_ahead = At-skip {p = 16} d.dst 20 (omega (arith, h.dst_size)) dst_ahead

    pub ip4_lem :
        (inet_ntop : Bytes → Bytes)
        → decode_ip4 inet_ntop l3
          ≡ ok (record {
            proto = ipproto_udp;
            src_ip = inet_ntop d.src;
            dst_ip = inet_ntop d.dst;
            l4ofs = 20;
          })
    unfolding decode_ip4
    ip4_lem inet_ntop =
        let long : ltb (length l3) 20 ≡ false = ground (arith, udp_ahead.size) in
        rw
          (
            long,
            At-read {p = 0} 0x45 _ a,
            long,
            At-read {p = 9} ipproto_udp _ proto_ahead,
            sized {p = 12} 4 d.src _ h.src_size src_ahead,
            sized {p = 16} 4 d.dst _ h.dst_size dst_ahead,
          )
          refl

    pub udp_lem :
        decode_transport l3 20 ipproto_udp
        ≡ ok (record {
          src_port = d.src_port;
          dst_port = d.dst_port;
          icmp_type = 0;
          icmp_code = 0;
          payload = d.payload;
          new_connection = true;
        })
    unfolding decode_transport decode_udp decode_ports
    udp_lem =
        let b = At-skip {p = 20} (u16 d.src_port) 22 (omega arith) udp_ahead in
        let c = At-skip {p = 22} (u16 d.dst_port) 24 (omega arith) b in
        let e = At-skip {p = 24} d.tail 28 (omega (arith, h.tail_size)) c in
        let size : length l3 - 20 - 8 ≡ length d.payload = omega (arith, e.size) in
        let long : ltb (length l3) (20 + 8) ≡ false = ground (arith, e.size) in
        let whole =
          At-slice {p = 28} d.payload [] (subst (At l3 28) (sym (append-nil d.payload)) e) in
        rw
          (
            long,
            size,
            At-u16 {p = 20} d.src_port _ udp_ahead,
            At-u16 {p = 22} d.dst_port _ b,
            whole,
          )
          refl
