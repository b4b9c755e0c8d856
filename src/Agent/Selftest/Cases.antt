-- ===== src/Agent/Selftest/Cases.antt =====
-- The data of `run_selftest` in src/main.c and its comparisons of classes. Its keys 14 to 24 are never
-- read; a NULL class, at which `strcmp` would fault, counts as a class that is not the expected one.
use if_flow.Base.{
  ℕ, Bool, true, false, ◌&&◌, Option, none, some, List, [], ◌∷◌, Bytes, codes, str_eq,
}
use if_flow.Flow.{FlowKey, ipproto_tcp, ipproto_udp, ipproto_icmp, ipproto_icmpv6, ipproto_sctp}
use if_flow.Classify.{classify_flow, classify_icmp, classify_ip_proto}

abbrev zeros_8 : Bytes → Bytes
zeros_8 s = 0 ∷ 0 ∷ 0 ∷ 0 ∷ 0 ∷ 0 ∷ 0 ∷ 0 ∷ s

-- The 72 bytes of the array; 11 to 42 are zero.
abbrev pub tls_client_hello : Bytes
tls_client_hello =
    0x16
    ∷ 3
    ∷ 1
    ∷ 0
    ∷ 0
    ∷ 1
    ∷ 0
    ∷ 0
    ∷ 0
    ∷ 3
    ∷ 3
    ∷ zeros_8 (
        zeros_8 (
          zeros_8 (
            zeros_8 (
              0
              ∷ 0
              ∷ 2
              ∷ 0x13
              ∷ 1
              ∷ 1
              ∷ 0
              ∷ 0
              ∷ 0x14
              ∷ 0
              ∷ 0
              ∷ 0
              ∷ 0x10
              ∷ 0
              ∷ 0x0e
              ∷ 0
              ∷ 0
              ∷ 0x0b
              ∷ codes "example.org"))))

abbrev pub http_req : Bytes
http_req = codes "GET / HTTP/1.1\r\nHost: api.example.org\r\nUser-Agent: test\r\n\r\n"

-- The keys 1 to 13.
abbrev pub key1 : FlowKey
key1 = record {
  proto = ipproto_tcp;
  src_ip = codes "10.0.0.10";
  src_port = 43210;
  dst_ip = codes "1.1.1.1";
  dst_port = 443;
}

abbrev pub key2 : FlowKey
key2 = record {
  proto = ipproto_udp;
  src_ip = codes "192.168.1.50";
  src_port = 53000;
  dst_ip = codes "10.0.0.20";
  dst_port = 53;
}

abbrev pub key3 : FlowKey
key3 = record {
  proto = ipproto_tcp;
  src_ip = codes "10.0.0.30";
  src_port = 55000;
  dst_ip = codes "10.0.0.40";
  dst_port = 5432;
}

abbrev pub key4 : FlowKey
key4 = record {
  proto = ipproto_udp;
  src_ip = codes "10.0.0.50";
  src_port = 40000;
  dst_ip = codes "239.255.255.250";
  dst_port = 1900;
}

abbrev pub key5 : FlowKey
key5 = record {
  proto = ipproto_tcp;
  src_ip = codes "10.0.0.50";
  src_port = 50123;
  dst_ip = codes "10.0.0.60";
  dst_port = 8123;
}

abbrev pub key6 : FlowKey
key6 = record {
  proto = ipproto_udp;
  src_ip = codes "10.0.0.50";
  src_port = 50124;
  dst_ip = codes "8.8.8.8";
  dst_port = 443;
}

abbrev pub key7 : FlowKey
key7 = record {
  proto = ipproto_udp;
  src_ip = codes "10.0.0.70";
  src_port = 50000;
  dst_ip = codes "10.0.0.71";
  dst_port = 65100;
}

abbrev pub key8 : FlowKey
key8 = record {
  proto = ipproto_tcp;
  src_ip = codes "10.0.0.72";
  src_port = 40000;
  dst_ip = codes "10.0.0.73";
  dst_port = 10051;
}

abbrev pub key9 : FlowKey
key9 = record {
  proto = ipproto_udp;
  src_ip = codes "10.0.0.74";
  src_port = 40001;
  dst_ip = codes "10.0.0.75";
  dst_port = 3784;
}

abbrev pub key10 : FlowKey
key10 = record {
  proto = ipproto_tcp;
  src_ip = codes "10.0.0.76";
  src_port = 40002;
  dst_ip = codes "10.0.0.77";
  dst_port = 2604;
}

abbrev pub key11 : FlowKey
key11 = record {
  proto = ipproto_tcp;
  src_ip = codes "10.0.0.78";
  src_port = 40003;
  dst_ip = codes "10.0.0.79";
  dst_port = 5666;
}

abbrev pub key12 : FlowKey
key12 = record {
  proto = ipproto_tcp;
  src_ip = codes "10.0.0.80";
  src_port = 40004;
  dst_ip = codes "10.0.0.81";
  dst_port = 4505;
}

abbrev pub key13 : FlowKey
key13 = record {
  proto = ipproto_tcp;
  src_ip = codes "10.0.0.82";
  src_port = 40005;
  dst_ip = codes "10.0.0.83";
  dst_port = 20048;
}

-- A class and the one that is expected.
pub record ClassCheck : Type 0 where
  pub class : Option Bytes
  pub expected : Bytes

abbrev pub of_flow : FlowKey → Bytes → ClassCheck
of_flow key expected = record {
  class = some (classify_flow key (some []) (some []));
  expected = expected;
}

abbrev pub of_icmp : ℕ → ℕ → ℕ → Bytes → ClassCheck
of_icmp proto type code expected = record {
  class = classify_icmp proto type code;
  expected = expected;
}

abbrev pub of_proto : ℕ → Bytes → ClassCheck
of_proto proto expected = record { class = classify_ip_proto proto; expected = expected }

abbrev pub flow_checks : List ClassCheck
flow_checks =
    of_flow key3 (codes "postgres")
    ∷ of_flow key4 (codes "multicast")
    ∷ of_flow key5 (codes "clickhouse")
    ∷ of_flow key6 (codes "quic")
    ∷ of_flow key7 (codes "wireguard")
    ∷ of_flow key8 (codes "zabbix")
    ∷ of_flow key9 (codes "bfdd")
    ∷ of_flow key10 (codes "ospfd")
    ∷ of_flow key11 (codes "nrpe")
    ∷ of_flow key12 (codes "salt")
    ∷ of_flow key13 (codes "mountd")
    ∷ []

abbrev pub icmp_checks : List ClassCheck
icmp_checks =
    of_icmp ipproto_icmp 8 0 (codes "icmp_echo")
    ∷ of_icmp ipproto_icmp 3 1 (codes "icmp_unreachable")
    ∷ of_icmp ipproto_icmpv6 135 0 (codes "icmpv6_nd")
    ∷ of_icmp ipproto_icmpv6 134 0 (codes "icmpv6_router_advert")
    ∷ of_icmp ipproto_icmpv6 129 0 (codes "icmpv6_echo")
    ∷ []

abbrev pub proto_checks : List ClassCheck
proto_checks =
    of_proto 47 (codes "gre")
    ∷ of_proto 50 (codes "esp")
    ∷ of_proto 51 (codes "ah")
    ∷ of_proto 89 (codes "ospf")
    ∷ of_proto 112 (codes "vrrp")
    ∷ of_proto 2 (codes "igmp")
    ∷ of_proto 103 (codes "pim")
    ∷ of_proto ipproto_sctp (codes "sctp")
    ∷ []

abbrev pub passes : ClassCheck → Bool
passes c = elim c.class [ none ↦ false | some class ↦ str_eq class c.expected ]

unfoldable pub all_pass : List ClassCheck → Bool
all_pass [] = true
all_pass (c ∷ cs) = passes c && all_pass cs
