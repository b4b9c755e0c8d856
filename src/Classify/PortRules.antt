-- ===== src/Classify/PortRules.antt =====
-- src/main.c: the port rules of the classifier, in the order of the table.
use if_flow.Base.{ℕ, List, [], ◌∷◌, Bytes, codes}

-- `port_class_rule_t`
pub record PortClassRule : Type 0 where
  pub port : ℕ
  pub class_name : Bytes

abbrev rule : ℕ → Bytes → PortClassRule
rule port class_name = record { port = port; class_name = class_name }

unfoldable pub g_port_class_rules : List PortClassRule
g_port_class_rules =
    rule 5353 (codes "mdns")
    ∷ rule 5355 (codes "llmnr")
    ∷ rule 53 (codes "dns")
    ∷ rule 853 (codes "dot")
    ∷ rule 123 (codes "ntp")
    ∷ rule 111 (codes "rpcbind")
    ∷ rule 135 (codes "msrpc")
    ∷ rule 593 (codes "msrpc")
    ∷ rule 22 (codes "ssh")
    ∷ rule 21 (codes "ftp")
    ∷ rule 20 (codes "ftp_data")
    ∷ rule 23 (codes "telnet")
    ∷ rule 873 (codes "rsync")
    ∷ rule 9418 (codes "git")
    ∷ rule 3690 (codes "svn")
    ∷ rule 25 (codes "smtp")
    ∷ rule 465 (codes "smtp")
    ∷ rule 587 (codes "smtp")
    ∷ rule 110 (codes "pop3")
    ∷ rule 995 (codes "pop3")
    ∷ rule 143 (codes "imap")
    ∷ rule 993 (codes "imap")
    ∷ rule 389 (codes "ldap")
    ∷ rule 636 (codes "ldap")
    ∷ rule 88 (codes "kerberos")
    ∷ rule 1812 (codes "radius")
    ∷ rule 1813 (codes "radius")
    ∷ rule 67 (codes "dhcp")
    ∷ rule 68 (codes "dhcp")
    ∷ rule 69 (codes "tftp")
    ∷ rule 137 (codes "netbios")
    ∷ rule 138 (codes "netbios")
    ∷ rule 139 (codes "netbios")
    ∷ rule 445 (codes "smb")
    ∷ rule 2049 (codes "nfs")
    ∷ rule 3260 (codes "iscsi")
    ∷ rule 3306 (codes "mysql")
    ∷ rule 5432 (codes "postgres")
    ∷ rule 1433 (codes "mssql")
    ∷ rule 1434 (codes "mssql")
    ∷ rule 1521 (codes "oracle")
    ∷ rule 9042 (codes "cassandra")
    ∷ rule 26257 (codes "cockroachdb")
    ∷ rule 8123 (codes "clickhouse")
    ∷ rule 9000 (codes "clickhouse")
    ∷ rule 9004 (codes "clickhouse")
    ∷ rule 9005 (codes "clickhouse")
    ∷ rule 9440 (codes "clickhouse")
    ∷ rule 6379 (codes "redis")
    ∷ rule 27017 (codes "mongodb")
    ∷ rule 27018 (codes "mongodb")
    ∷ rule 27019 (codes "mongodb")
    ∷ rule 11211 (codes "memcached")
    ∷ rule 5672 (codes "amqp")
    ∷ rule 5671 (codes "amqp")
    ∷ rule 15672 (codes "rabbitmq_mgmt")
    ∷ rule 15671 (codes "rabbitmq_mgmt")
    ∷ rule 1883 (codes "mqtt")
    ∷ rule 8883 (codes "mqtt")
    ∷ rule 9092 (codes "kafka")
    ∷ rule 2181 (codes "zookeeper")
    ∷ rule 2379 (codes "etcd")
    ∷ rule 2380 (codes "etcd")
    ∷ rule 2381 (codes "etcd")
    ∷ rule 2382 (codes "etcd")
    ∷ rule 2375 (codes "docker_api")
    ∷ rule 2376 (codes "docker_api")
    ∷ rule 2601 (codes "zebra")
    ∷ rule 2602 (codes "ripd")
    ∷ rule 2603 (codes "ripngd")
    ∷ rule 2604 (codes "ospfd")
    ∷ rule 2605 (codes "bgpd")
    ∷ rule 2606 (codes "ospf6d")
    ∷ rule 2607 (codes "isisd")
    ∷ rule 2608 (codes "babeld")
    ∷ rule 2609 (codes "pimd")
    ∷ rule 2610 (codes "ldpd")
    ∷ rule 2611 (codes "nhrpd")
    ∷ rule 2612 (codes "eigrpd")
    ∷ rule 2613 (codes "bfdd")
    ∷ rule 2614 (codes "fabricd")
    ∷ rule 2615 (codes "pathd")
    ∷ rule 2616 (codes "staticd")
    ∷ rule 2617 (codes "bfdd")
    ∷ rule 3784 (codes "bfdd")
    ∷ rule 3785 (codes "bfdd")
    ∷ rule 4784 (codes "bfdd")
    ∷ rule 6443 (codes "k8s_api")
    ∷ rule 10250 (codes "kubelet")
    ∷ rule 10050 (codes "zabbix")
    ∷ rule 10051 (codes "zabbix")
    ∷ rule 8500 (codes "consul")
    ∷ rule 8502 (codes "consul")
    ∷ rule 8600 (codes "consul")
    ∷ rule 8200 (codes "vault")
    ∷ rule 8201 (codes "vault")
    ∷ rule 4646 (codes "nomad")
    ∷ rule 4647 (codes "nomad")
    ∷ rule 4648 (codes "nomad")
    ∷ rule 9200 (codes "elasticsearch")
    ∷ rule 9300 (codes "elasticsearch")
    ∷ rule 5601 (codes "kibana")
    ∷ rule 9090 (codes "prometheus")
    ∷ rule 9093 (codes "alertmanager")
    ∷ rule 9100 (codes "node_exporter")
    ∷ rule 9411 (codes "zipkin")
    ∷ rule 19999 (codes "netdata")
    ∷ rule 3000 (codes "grafana")
    ∷ rule 3100 (codes "loki")
    ∷ rule 5044 (codes "logstash")
    ∷ rule 5666 (codes "nrpe")
    ∷ rule 24224 (codes "fluentd")
    ∷ rule 4317 (codes "otlp")
    ∷ rule 4318 (codes "otlp")
    ∷ rule 6831 (codes "tracing")
    ∷ rule 6832 (codes "tracing")
    ∷ rule 14250 (codes "tracing")
    ∷ rule 14268 (codes "tracing")
    ∷ rule 16686 (codes "tracing")
    ∷ rule 8086 (codes "influxdb")
    ∷ rule 8125 (codes "statsd")
    ∷ rule 8126 (codes "datadog_apm")
    ∷ rule 161 (codes "snmp")
    ∷ rule 162 (codes "snmp")
    ∷ rule 514 (codes "syslog")
    ∷ rule 6514 (codes "syslog")
    ∷ rule 631 (codes "ipp")
    ∷ rule 49 (codes "tacacs")
    ∷ rule 464 (codes "kerberos_kpasswd")
    ∷ rule 554 (codes "rtsp")
    ∷ rule 655 (codes "tinc")
    ∷ rule 749 (codes "kerberos_admin")
    ∷ rule 20048 (codes "mountd")
    ∷ rule 3389 (codes "rdp")
    ∷ rule 5900 (codes "vnc")
    ∷ rule 5060 (codes "sip")
    ∷ rule 5061 (codes "sip")
    ∷ rule 500 (codes "ipsec")
    ∷ rule 4500 (codes "ipsec")
    ∷ rule 4505 (codes "salt")
    ∷ rule 4506 (codes "salt")
    ∷ rule 1194 (codes "openvpn")
    ∷ rule 1701 (codes "l2tp")
    ∷ rule 1723 (codes "pptp")
    ∷ rule 51820 (codes "wireguard")
    ∷ rule 51821 (codes "wireguard")
    ∷ rule 32223 (codes "wireguard")
    ∷ rule 35053 (codes "wireguard")
    ∷ rule 10251 (codes "wireguard")
    ∷ rule 10000 (codes "wireguard")
    ∷ rule 65100 (codes "wireguard")
    ∷ rule 4789 (codes "vxlan")
    ∷ rule 6081 (codes "geneve")
    ∷ rule 179 (codes "bgp")
    ∷ []
