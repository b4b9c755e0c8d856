-- ===== src/Classify/Derived.antt =====
-- The derived connection fields of src/main.c and src/writer_jsonl.c.
use if_flow.Base.{◌+◌, ◌≤◌, Bool, ◌&&◌, ◌≡◌, arith, if◌then◌else◌}
use if_flow.Flow.{FlowEntry}
use if_flow.Classify.{
  is_attributed, flow_connection_inferred, flow_tcp_seen_without_syn, flow_connections_effective,
}
use if_flow.FlowTable.Invariant.{CountersFit}

-- An entry of the table is flagged just where it is final, its connection is inferred and a process
-- was found for it. A record reports the connections that were counted, and one more where it is
-- flagged; that is never more than one.
pub connections_effective_lem :
    (e : FlowEntry) (is_final : Bool)
    → CountersFit e
    → (flow_tcp_seen_without_syn e is_final
        ≡ (is_final && flow_connection_inferred e && is_attributed e.attr_source))
      × (flow_connections_effective e is_final
          ≡ e.connections + (if flow_tcp_seen_without_syn e is_final then 1 else 0))
      × (flow_connections_effective e is_final ≤ 1)
unfolding flow_tcp_seen_without_syn flow_connections_effective flow_connection_inferred
connections_effective_lem e is_final f = ground arith
