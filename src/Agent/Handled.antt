-- ===== src/Agent/Handled.antt =====
-- `packet_handler` of src/main.c on any captured bytes at all, with its caches and the table.
use if_flow.Base.{◌+◌, ◌^◌, ◌≤◌, ◌<◌, ◌≡◌, refl, Bytes, arith, length}
use if_flow.Flow.{FlowKey}
use if_flow.FlowTable.Invariant as TableLaws
use if_flow.FlowTable.Touching.Keeps.{touch-Inv}
use if_flow.EbpfTracker.Invariant as HintLaws
use if_flow.Resolver.Invariant as AnswerLaws
use if_flow.Parser.Reads.{Gives, Gives-bind}
use if_flow.Packet.{packet_touch}
use if_flow.Packet.Safe.{IsTouch, packet_touch-Gives}
use if_flow.Agent.{App, Library, Outside, attribute, packet_handler}
use if_flow.Agent.Attribution.{attribute_lem}

-- The table and both caches meet their invariants.
pub record AppInv (app : App) : Type 0 where
  pub table : TableLaws.Inv app.flows
  pub hints : HintLaws.Inv app.ebpf
  pub answers : AnswerLaws.Inv app.resolver

-- What handling a packet leaves: the invariants, one answer more at most, and the rest as it was.
pub record Handled (before after : App) : Type 0 where
  pub inv : AppInv after
  pub grows : length after.resolver.entries ≤ length before.resolver.entries + 1
  pub same_hints : after.ebpf ≡ before.ebpf
  pub same_cfg : after.cfg ≡ before.cfg

module _ (lib : Library) (out : Outside) where
  -- In a state in its invariants, with fewer than 2 ^ 62 answers: whatever bytes are captured, fewer
  -- than 2 ^ 64 of them, and whatever /proc, the clock and the allocator answer, a packet is handled
  -- without a read outside its bytes and without a loop that does not end. The table stays within its
  -- bounds with no identity twice, its texts and counters in range; the resolver's cache keeps its
  -- invariant and gets one entry more at most; the hints and the configuration stay as they are.
  pub packet_handler-Gives :
      (packet : Bytes) (app : App)
      → length packet < 2 ^ 64
      → length app.resolver.entries < 2 ^ 62
      → AppInv app
      → Gives (Handled app) (packet_handler lib out packet app)
  unfolding packet_handler
  packet_handler-Gives packet app h b v =
      let answer = λ (key : FlowKey). (attribute lib out app key).2 in
      Gives-bind (IsTouch packet out.now_sec) (Handled app)
        (packet_touch lib.address_text app.local_ips answer app.linktype out.now_sec packet) _
        (packet_touch-Gives lib.address_text app.local_ips answer app.linktype out.now_sec packet)
        λ t p.
          let attributed = attribute_lem lib out app t.key b v.answers v.hints in
          record {
            inv = record {
              table = touch-Inv out.table_realloc t app.flows (omega (arith, p.counts)) v.table;
              hints = v.hints;
              answers = attributed.kept;
            };
            grows = attributed.grows;
            same_hints = refl;
            same_cfg = refl;
          }
