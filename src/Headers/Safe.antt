-- ===== src/Headers/Safe.antt =====
-- The header part of `packet_handler` of src/main.c reads inside the captured bytes only.
use if_flow.Base.{
  ℕ, ◌+◌, ◌-◌, ◌*◌, ◌/◌, ◌%◌, ◌≤◌, ◌≡◌, refl, Bool, true, false, not, ◌||◌, Bytes, arith, length,
  ltb, ◌==◌, if◌then◌else◌,
}
use if_flow.Flow.{ipproto_icmp, ipproto_icmpv6, ipproto_tcp, ipproto_udp, ipproto_sctp}
use if_flow.Classify.{classify_ip_proto}
use if_flow.Parser.Reads.{Parse, ◌>>◌, guard, Gives, read_ok, read_u16_ok, slice_ok}
use if_flow.Headers.{
  Network, Transport, dlt_en10mb, dlt_raw, dlt_linux_sll, dlt_linux_sll2, l2_header, l2_raw,
  parse_l2_offset, decode_ip4, decode_ip6, decode_ports, decode_tcp, decode_udp, decode_sctp,
  decode_icmp, is_named, decode_transport,
}

-- Behind a guard the condition may be used.
pub Gives-guard :
    {A : Type 0} (P : A → Type 0) (b : Bool) (m : Parse A)
    → (b ≡ true → Gives P m)
    → Gives P (guard b >> m)
Gives-guard P true m h = h refl
Gives-guard P false m h = tt

pub Gives-if :
    {A : Type 0} (P : A → Type 0) (b : Bool) (m n : Parse A)
    → Gives P m
    → Gives P n
    → Gives P (if b then m else n)
Gives-if P true m n h k = h
Gives-if P false m n h k = k

module _ (packet : Bytes) where
  -- The offset is inside the packet.
  abbrev pub IsOffset : ℕ × ℕ → Type 0
  IsOffset p = p.0 ≤ length packet

  l2_header-Gives : (size at : ℕ) → at + 2 ≤ size → Gives IsOffset (l2_header packet size at)
  unfolding l2_header
  l2_header-Gives size at h =
      Gives-guard IsOffset (not (ltb (length packet) size)) _
        λ g. let (n, e) = read_u16_ok packet at (ground arith) in rw e (ground arith)

  l2_raw-Gives : Gives IsOffset (l2_raw packet)
  unfolding l2_raw
  l2_raw-Gives = Gives-guard IsOffset (not (ltb (length packet) 1)) _ λ g.
      let (first, e) = read_ok packet 0 (ground arith) in
      rw e (
        Gives-if IsOffset (first / 16 == 4) _ _ (omega arith)
          (Gives-if IsOffset (first / 16 == 6) _ _ (omega arith) tt))

  pub parse_l2_offset-Gives : (linktype : ℕ) → Gives IsOffset (parse_l2_offset packet linktype)
  unfolding parse_l2_offset
  parse_l2_offset-Gives linktype =
      Gives-if IsOffset (linktype == dlt_en10mb) _ _ (l2_header-Gives 14 12 (omega arith)) (
        Gives-if IsOffset (linktype == dlt_linux_sll) _ _ (l2_header-Gives 16 14 (omega arith)) (
          Gives-if IsOffset (linktype == dlt_linux_sll2) _ _ (l2_header-Gives 20 0 (omega arith))
            (Gives-if IsOffset (linktype == dlt_raw) _ _ l2_raw-Gives tt)))

module _ (l3 : Bytes) where
  -- The transport header starts inside the packet.
  abbrev pub IsNetwork : Network → Type 0
  IsNetwork net = net.l4ofs ≤ length l3

  pub decode_ip4-Gives : (inet_ntop : Bytes → Bytes) → Gives IsNetwork (decode_ip4 inet_ntop l3)
  unfolding decode_ip4
  decode_ip4-Gives inet_ntop = Gives-guard IsNetwork (not (ltb (length l3) 20)) _ λ g.
      let (first, e) = read_ok l3 0 (ground arith) in
      rw e (
        Gives-guard IsNetwork (not (ltb (first % 16 * 4) 20 || ltb (length l3) (first % 16 * 4))) _
          λ h.
            let (proto, f) = read_ok l3 9 (ground arith) in
            let (src, p, _, _) = slice_ok l3 12 4 (ground arith) in
            let (dst, q, _, _) = slice_ok l3 16 4 (ground arith) in rw (f, p, q) (ground arith))

  pub decode_ip6-Gives : (inet_ntop : Bytes → Bytes) → Gives IsNetwork (decode_ip6 inet_ntop l3)
  unfolding decode_ip6
  decode_ip6-Gives inet_ntop = Gives-guard IsNetwork (not (ltb (length l3) 40)) _ λ g.
      let (proto, f) = read_ok l3 6 (ground arith) in
      let (src, p, _, _) = slice_ok l3 8 16 (ground arith) in
      let (dst, q, _, _) = slice_ok l3 24 16 (ground arith) in rw (f, p, q) (ground arith)

  -- The payload is a part of the packet behind the headers.
  abbrev pub IsTransport : ℕ → Transport → Type 0
  IsTransport l4ofs l4 = l4ofs + length l4.payload ≤ length l3

  decode_ports-Gives :
      (l4ofs start : ℕ) (opens : Bool)
      → 4 ≤ start
      → l4ofs + start ≤ length l3
      → Gives (IsTransport l4ofs) (decode_ports l3 l4ofs start opens)
  unfolding decode_ports
  decode_ports-Gives l4ofs start opens h k =
      let (src, e) = read_u16_ok l3 l4ofs (omega arith) in
      let (dst, f) = read_u16_ok l3 (l4ofs + 2) (omega arith) in
      let (payload, p, size, _) =
        slice_ok l3 (l4ofs + start) (length l3 - l4ofs - start) (omega arith) in
      rw (e, f, p) (omega (arith, size))

  decode_tcp-Gives : (l4ofs : ℕ) → Gives (IsTransport l4ofs) (decode_tcp l3 l4ofs)
  unfolding decode_tcp
  decode_tcp-Gives l4ofs =
      Gives-guard (IsTransport l4ofs) (not (ltb (length l3) (l4ofs + 8))) _ λ g.
        Gives-guard (IsTransport l4ofs) (not (ltb (length l3) (l4ofs + 20))) _ λ h.
          let (off, e) = read_ok l3 (l4ofs + 12) (ground arith) in
          let doff = off / 16 * 4 in
          rw e (
            Gives-guard (IsTransport l4ofs) (not (ltb doff 20 || ltb (length l3) (l4ofs + doff))) _
              λ k.
                let (flags, f) = read_ok l3 (l4ofs + 13) (ground arith) in
                rw f (decode_ports-Gives l4ofs doff _ (ground arith) (ground arith)))

  decode_icmp-Gives : (l4ofs : ℕ) → Gives (IsTransport l4ofs) (decode_icmp l3 l4ofs)
  unfolding decode_icmp
  decode_icmp-Gives l4ofs =
      Gives-guard (IsTransport l4ofs) (not (ltb (length l3) (l4ofs + 8))) _ λ g.
        let (type, e) = read_ok l3 l4ofs (ground arith) in
        let (code, f) = read_ok l3 (l4ofs + 1) (ground arith) in rw (e, f) (ground arith)

  pub decode_transport-Gives :
      (l4ofs proto : ℕ)
      → l4ofs ≤ length l3
      → Gives (IsTransport l4ofs) (decode_transport l3 l4ofs proto)
  unfolding decode_transport decode_udp decode_sctp
  decode_transport-Gives l4ofs proto h =
      let P = IsTransport l4ofs in
      Gives-if P (proto == ipproto_tcp) _ _ (decode_tcp-Gives l4ofs) (
        Gives-if P (proto == ipproto_udp) _ _
          (Gives-guard P (not (ltb (length l3) (l4ofs + 8))) _
            λ g. decode_ports-Gives l4ofs 8 true (omega arith) (ground arith))
          (Gives-if P (proto == ipproto_sctp) _ _
            (Gives-guard P (not (ltb (length l3) (l4ofs + 12))) _
              λ g. decode_ports-Gives l4ofs 12 true (omega arith) (ground arith))
            (Gives-if P (proto == ipproto_icmp || proto == ipproto_icmpv6) _ _
              (decode_icmp-Gives l4ofs)
              (Gives-if P (is_named (classify_ip_proto proto)) _ _ (omega arith) tt))))
