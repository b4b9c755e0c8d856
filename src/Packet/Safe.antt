-- ===== src/Packet/Safe.antt =====
-- `packet_handler` of src/main.c on any captured bytes at all.
use if_flow.Base.{
  ℕ, ◌-◌, ◌<◌, ◌≡◌, refl, Bool, true, false, ◌&&◌, ◌||◌, Option, none, some, [], Bytes, arith,
  length, is_set, ltb, ◌==◌, if◌then◌else◌,
}
use if_flow.Flow.{FlowKey, if_flow_max_name, ipproto_tcp}
use if_flow.FlowTable.{Touch}
use if_flow.Classify.Names.{classify_packet_stored}
use if_flow.LocalIps.{LocalIpList}
use if_flow.Parser.Reads.{Parse, fault, starved, absent, ok, Gives, Gives-bind, slice_ok}
use if_flow.Parser.TlsSni.{parser_extract_tls_sni}
use if_flow.Parser.TlsSni.Safe.{IsText, parser_extract_tls_sni-Gives}
use if_flow.Parser.HttpHost.{parser_extract_http_host}
use if_flow.Parser.HttpHost.Safe.{IsHost, parser_extract_http_host-Gives}
use if_flow.Headers.{
  Network, Transport, parse_l2_offset, decode_ip4, decode_ip6, decode_transport, ethertype_ip,
  ethertype_ipv6,
}
use if_flow.Headers.Safe.{
  Gives-guard, Gives-if, IsOffset, IsNetwork, IsTransport, parse_l2_offset-Gives, decode_ip4-Gives,
  decode_ip6-Gives, decode_transport-Gives,
}
use if_flow.Packet.{or_empty, when, Identity, key_of, enrich, packet_touch}

-- A text in front of its NUL in the buffer for names.
abbrev pub FitsName : Option Bytes → Type 0
FitsName none = Unit {0}
FitsName (some text) = length text < if_flow_max_name

-- What is handed to the flow table: it has the time of the packet and counts for the captured bytes,
-- the names fit their buffers and there is a class.
pub record IsTouch (packet : Bytes) (now : ℕ) (t : Touch) : Type 0 where
  pub stamped : t.now_sec ≡ now
  pub counts : t.bytes ≡ length packet
  pub sni_fits : FitsName t.sni
  pub host_fits : FitsName t.host
  pub has_class : is_set t.class_tag ≡ true

abbrev Fits : Bytes → Type 0
Fits text = length text < if_flow_max_name

or_empty-Gives : (m : Parse Bytes) → Gives Fits m → Gives Fits (or_empty m)
or_empty-Gives fault h = h
or_empty-Gives starved h = h
or_empty-Gives absent h = omega arith
or_empty-Gives (ok text) h = h

when-Gives : (b : Bool) (m : Parse Bytes) → Gives Fits m → Gives Fits (when b m)
when-Gives true m h = or_empty-Gives m h
when-Gives false m h = omega arith

Gives-text :
    (P : Bytes → Type 0) (m : Parse Bytes)
    → ((text : Bytes) → P text → Fits text)
    → Gives P m
    → Gives Fits m
Gives-text P fault f h = h
Gives-text P starved f h = h
Gives-text P absent f h = h
Gives-text P (ok text) f h = f text h

module _ (inet_ntop : Bytes → Bytes) (local_ips : LocalIpList)
    (attribute : FlowKey → Identity) where
  enrich-Gives :
      (packet : Bytes) (now : ℕ) (net : Network) (l4 : Transport)
      → Gives (IsTouch packet now) (enrich local_ips attribute (length packet) now net l4)
  unfolding enrich
  enrich-Gives packet now net l4 =
      let has_payload = net.proto == ipproto_tcp && ltb 0 (length l4.payload) in
      let on_https = l4.src_port == 443 || l4.dst_port == 443 in
      Gives-bind Fits (IsTouch packet now)
        (when (has_payload && on_https) (parser_extract_tls_sni l4.payload if_flow_max_name)) _
        (when-Gives (has_payload && on_https) _ (
          Gives-text (IsText l4.payload if_flow_max_name) _ (λ text t. t.fits)
            (parser_extract_tls_sni-Gives l4.payload if_flow_max_name)))
        λ sni s.
          Gives-bind Fits (IsTouch packet now)
            (when has_payload (parser_extract_http_host l4.payload if_flow_max_name)) _
            (when-Gives has_payload _ (
              Gives-text (IsHost l4.payload if_flow_max_name) _ (λ text t. t.fits)
                (parser_extract_http_host-Gives l4.payload if_flow_max_name)))
            λ host h. record {
              stamped = refl;
              counts = refl;
              sni_fits = s;
              host_fits = h;
              has_class =
                  (classify_packet_stored (key_of net l4) l4.icmp_type l4.icmp_code (some sni)
                    (some host) []).0;
            }

  -- Whatever bytes are captured on whatever link, the handler reads none behind them and its loops
  -- end; what it hands to the flow table, if anything, has the time of the packet, counts for the
  -- captured bytes, has a class, and its names fit their buffers.
  pub packet_touch-Gives :
      (linktype now : ℕ) (packet : Bytes)
      → Gives (IsTouch packet now) (packet_touch inet_ntop local_ips attribute linktype now packet)
  unfolding packet_touch
  packet_touch-Gives linktype now packet =
      Gives-bind (IsOffset packet) (IsTouch packet now) (parse_l2_offset packet linktype) _
        (parse_l2_offset-Gives packet linktype)
        λ p o.
          Gives-guard (IsTouch packet now) (p.1 == ethertype_ip || p.1 == ethertype_ipv6) _ λ g.
            let (l3, e, _, _) = slice_ok packet p.0 (length packet - p.0) (omega arith) in
            rw e (
              Gives-bind (IsNetwork l3) (IsTouch packet now)
                (if p.1 == ethertype_ip then decode_ip4 inet_ntop l3 else decode_ip6 inet_ntop l3) _
                (Gives-if (IsNetwork l3) (p.1 == ethertype_ip) _ _ (decode_ip4-Gives l3 inet_ntop)
                  (decode_ip6-Gives l3 inet_ntop))
                λ net n.
                  Gives-bind (IsTransport l3 net.l4ofs) (IsTouch packet now)
                    (decode_transport l3 net.l4ofs net.proto) _
                    (decode_transport-Gives l3 net.l4ofs net.proto n)
                    λ l4 t. enrich-Gives packet now net l4)
