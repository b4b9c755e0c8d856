-- ===== src/Tests/Hints.antt =====
-- The attribution cache of src/ebpf_tracker.c on a few events.
use if_flow.Base.{
  ℕ, ◌*◌, ◌/◌, str_eq, sweep, ◌≡◌, refl, arith, true, false, Option, none, some, List, [], ◌∷◌,
  ◌++◌, Bytes, codes, ℤ, pos, safe_copy, last, kept,
}
use if_flow.Flow.{
  flow_key_equal, flow_key_equal_rev, FlowKey, reversed, second, if_flow_max_proc_name,
}
use if_flow.Json.{decimal}
use if_flow.EbpfTracker.{
  EbpfTracker, EbpfCacheEntry, Delivery, ebpf_identity_usable, ebpf_cache_prune, ebpf_cache_put,
  ebpf_tracker_poll, ebpf_tracker_lookup, matches_key,
}
use if_flow.EbpfTracker.Lookup.{answers, identity_of, lookup_lem}
use if_flow.EbpfTracker.Invariant.{Inv}
use if_flow.EbpfTracker.Polled.{poll-Inv}
use if_flow.EbpfTracker.Recent.{lookup-put}

abbrev key : FlowKey
key = record {
  proto = 6;
  src_ip = codes "10.0.0.2";
  src_port = 40000;
  dst_ip = codes "10.0.0.9";
  dst_port = 443;
}

abbrev other_key : FlowKey
other_key = record {
  proto = 17;
  src_ip = codes "10.0.0.2";
  src_port = 5353;
  dst_ip = codes "10.0.0.8";
  dst_port = 53;
}

abbrev hint : FlowKey → ℕ → Bytes → ℕ → ℕ → EbpfCacheEntry
hint k p process source ts = record {
  key = k;
  pid = pos p;
  process = process;
  source = source;
  ts = ts;
}

abbrev tracker : List EbpfCacheEntry → EbpfTracker
tracker es = record {
  has_obj = true;
  has_rb = true;
  entries = es;
  cap = 4096;
  connect_ttl_sec = 120 * second;
  datapath_ttl_sec = 30 * second;
  enable_datapath = true;
  object_path = codes "bpf/if_flow.bpf.o";
}

abbrev two_hints : EbpfTracker
two_hints = tracker (
    hint other_key 11 (codes "dnsmasq") 2 (100 * second)
    ∷ hint key 12 (codes "curl") 1 (100 * second)
    ∷ [])

abbrev clock : ℕ → ℕ
clock i = 150 * second

pruned :
    (ebpf_cache_prune clock two_hints).entries ≡ hint key 12 (codes "curl") 1 (100 * second) ∷ []
unfolding ebpf_cache_prune sweep
pruned = refl

lookup_lem_example :
    ebpf_tracker_lookup clock (reversed key) 64 two_hints
    ≡ identity_of 64 (last (kept (answers clock two_hints (reversed key)) 0 two_hints.entries))
lookup_lem_example = lookup_lem clock two_hints (reversed key) 64

looked_up : ebpf_tracker_lookup clock (reversed key) 64 two_hints ≡ some (pos 12, codes "curl")
unfolding ebpf_tracker_lookup str_eq safe_copy flow_key_equal flow_key_equal_rev
looked_up = refl

abbrev address : ℕ → Bytes
address n = codes "10.0.0." ++ decimal (n / 16_777_216)

abbrev deliveries : List Delivery
deliveries =
    record {
      event = some (record {
        pid = 77;
        comm = codes "nginx";
        proto = 6;
        saddr = 33_554_442;
        daddr = 150_994_954;
        sport = 40000;
        dport = 443;
        source = 1;
      });
      realloc = λ n. true;
      clock = clock;
    }
    ∷ record { event = none; realloc = λ n. false; clock = clock }
    ∷ []

empty-Inv : Inv (tracker [])
empty-Inv = record { within_cap = omega arith; distinct = tt; hints = tt }

poll-Inv_example : Inv (ebpf_tracker_poll address deliveries clock (pos 1) (tracker [])).0
poll-Inv_example = poll-Inv address deliveries clock (pos 1) (tracker []) (omega arith) empty-Inv

curl-usable : ebpf_identity_usable (pos 12) (some (codes "curl")) ≡ true
unfolding ebpf_identity_usable str_eq
curl-usable = refl

abbrev one_hint : EbpfTracker
one_hint = tracker (hint other_key 11 (codes "dnsmasq") 2 (140 * second) ∷ [])

other : matches_key key (hint other_key 11 (codes "dnsmasq") 2 (140 * second)) ≡ false
unfolding matches_key flow_key_equal flow_key_equal_rev
other = refl

abbrev after : EbpfTracker
after = ebpf_cache_put (λ n. true) clock key (pos 12) (codes "curl") 1 one_hint

abbrev identity : Option (ℤ × Bytes)
identity =
    some (pos 12, safe_copy [] 16 (some (safe_copy [] if_flow_max_proc_name (some (codes "curl")))))

lookup-put_example :
    (ebpf_tracker_lookup (λ i. 200 * second) key 16 after ≡ identity)
    × (ebpf_tracker_lookup (λ i. 200 * second) (reversed key) 16 after ≡ identity)
lookup-put_example =
    lookup-put key (pos 12) (codes "curl") 1 (λ n. true) clock (λ i. 200 * second) 16 one_hint
      curl-usable (other, tt) (λ n. refl) (λ i. omega arith) (λ i. omega arith)

-- A hint that is refreshed in place keeps its position, so that an older one behind it of the other
-- source answers first.
refreshed :
    ebpf_tracker_lookup clock key 64 (
      ebpf_cache_put
        (λ n. true)
        clock
        key
        (pos 99)
        (codes "wget")
        1
        (tracker (
          hint key 12 (codes "curl") 1 (130 * second)
          ∷ hint key 13 (codes "sshd") 2 (140 * second)
          ∷ [])))
    ≡ some (pos 13, codes "sshd")
unfolding ebpf_tracker_lookup ebpf_cache_put str_eq safe_copy flow_key_equal flow_key_equal_rev
refreshed = refl
