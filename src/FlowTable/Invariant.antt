-- ===== src/FlowTable/Invariant.antt =====
-- What every table reachable in src/flow_table.c satisfies: the bounds of its array, one entry for
-- each identity, and entries whose texts fit their buffers.
use if_flow.Base.{
  ℕ, ◌^◌, ◌%◌, ◌≤◌, ◌<◌, ◌≡◌, Option, none, List, [], ◌∷◌, arith, length, All, safe_copy_fits,
  Bytes,
}
use if_flow.Flow.{
  FlowEntry, minute_bucket_for, u64_mod, ipproto_udp, if_flow_max_proc_name, if_flow_max_cmdline,
  if_flow_max_workload, if_flow_max_name, if_flow_max_class,
}
use if_flow.FlowTable.{
  FlowTable, Touch, count_connection, learn_identity, learn_names, fill_text, merge, fresh_entry,
}
use if_flow.FlowTable.Lookup.{entry_id, lookup}

-- The texts, each with its terminator, fit their buffers.
pub record TextsFit (e : FlowEntry) : Type 0 where
  pub process_fits : length e.process < if_flow_max_proc_name
  pub cmdline_fits : length e.cmdline < if_flow_max_cmdline
  pub workload_fits : length e.workload < if_flow_max_workload
  pub sni_fits : length e.sni < if_flow_max_name
  pub host_fits : length e.host < if_flow_max_name
  pub class_fits : length e.class_tag < if_flow_max_class

-- The counters are in range; a flow counts one connection at most, and a UDP flow just one.
pub record CountersFit (e : FlowEntry) : Type 0 where
  pub packets_fit : e.packets < u64_mod
  pub bytes_fit : e.bytes < u64_mod
  pub one_connection : e.connections ≤ 1
  pub udp_connection : e.key.proto ≡ ipproto_udp → e.connections ≡ 1
  pub whole_minute : e.minute_bucket % 60 ≡ 0

abbrev pub EntryInv : FlowEntry → Type 0
EntryInv e = TextsFit e × CountersFit e

abbrev pub IsDistinct : List FlowEntry → Type 0
IsDistinct [] = Unit {0}
IsDistinct (e ∷ es) = (lookup (entry_id e) es ≡ none) × IsDistinct es

pub record Inv (ft : FlowTable) : Type 0 where
  pub within_cap : length ft.entries ≤ ft.cap
  pub within_max : ft.cap ≤ ft.max_flows
  pub int_max : ft.max_flows < 2 ^ 31
  pub distinct : IsDistinct ft.entries
  pub entries_inv : All EntryInv ft.entries

fill_text_fits :
    (dst : Bytes) (sz : ℕ) (src : Option Bytes)
    → length dst < sz
    → length (fill_text dst sz src) < sz
unfolding fill_text
fill_text_fits dst sz src h = ground (arith, safe_copy_fits dst sz src)

merge-TextsFit : (t : Touch) (e : FlowEntry) → TextsFit e → TextsFit (merge t e)
unfolding merge learn_identity learn_names
merge-TextsFit t e f = record {
  process_fits = ground (arith, safe_copy_fits e.process if_flow_max_proc_name t.process);
  cmdline_fits = ground (arith, safe_copy_fits e.cmdline if_flow_max_cmdline t.cmdline);
  workload_fits = ground (arith, safe_copy_fits e.workload if_flow_max_workload t.workload);
  sni_fits = ground (arith, fill_text_fits e.sni if_flow_max_name t.sni);
  host_fits = ground (arith, fill_text_fits e.host if_flow_max_name t.host);
  class_fits = ground (arith, fill_text_fits e.class_tag if_flow_max_class t.class_tag);
}

merge-CountersFit : (t : Touch) (e : FlowEntry) → CountersFit e → CountersFit (merge t e)
unfolding merge learn_identity learn_names count_connection
merge-CountersFit t e f = record {
  packets_fit = ground arith;
  bytes_fit = ground arith;
  one_connection = ground arith;
  udp_connection = ground arith;
  whole_minute = ground arith;
}

pub merge-EntryInv : (t : Touch) (e : FlowEntry) → EntryInv e → EntryInv (merge t e)
merge-EntryInv t e f = (merge-TextsFit t e f.0, merge-CountersFit t e f.1)

minute_bucket_for-mod : (now : ℕ) → minute_bucket_for now % 60 ≡ 0
unfolding minute_bucket_for
minute_bucket_for-mod now = omega arith

pub fresh_entry-EntryInv : (t : Touch) → t.bytes < u64_mod → EntryInv (fresh_entry t)
unfolding fresh_entry
fresh_entry-EntryInv t h = (
  record {
    process_fits = safe_copy_fits [] _ t.process (omega arith);
    cmdline_fits = safe_copy_fits [] _ t.cmdline (omega arith);
    workload_fits = safe_copy_fits [] _ t.workload (omega arith);
    sni_fits = safe_copy_fits [] _ t.sni (omega arith);
    host_fits = safe_copy_fits [] _ t.host (omega arith);
    class_fits = safe_copy_fits [] _ t.class_tag (omega arith);
  },
  record {
    packets_fit = omega arith;
    bytes_fit = h;
    one_connection = ground arith;
    udp_connection = ground arith;
    whole_minute = minute_bucket_for-mod t.now_sec;
  },
)
