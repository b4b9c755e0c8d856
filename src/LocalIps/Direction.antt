-- ===== src/LocalIps/Direction.antt =====
-- `detect_direction` of src/main.c: what it says of both directions of one conversation.
use if_flow.Base.{◌≡◌, ◌≢◌, Bool, true, false, Bytes, arith}
use if_flow.Flow.{FlowDirection, dir_unknown, dir_in, dir_out, dir_internal}
use if_flow.LocalIps.{LocalIpList, local_ip_list_contains, detect_direction}

-- The same conversation seen from its other end.
abbrev pub turned : FlowDirection → FlowDirection
turned dir_in = dir_out
turned dir_out = dir_in
turned d = d

-- Which ends a direction says are local.
abbrev pub src_end : FlowDirection → Bool
src_end dir_out = true
src_end dir_internal = true
src_end _ = false

abbrev pub dst_end : FlowDirection → Bool
dst_end dir_in = true
dst_end dir_internal = true
dst_end _ = false

-- The direction is known, says of each end whether it is in the list, and turns round with the
-- addresses.
pub detect_direction_lem :
    (list : LocalIpList) (src dst : Bytes)
    → (detect_direction list src dst ≢ dir_unknown)
      × (src_end (detect_direction list src dst) ≡ local_ip_list_contains src list)
      × (dst_end (detect_direction list src dst) ≡ local_ip_list_contains dst list)
      × (detect_direction list dst src ≡ turned (detect_direction list src dst))
unfolding detect_direction
detect_direction_lem list src dst = ground arith
