-- ===== src/Widgets/Packets.antt =====
-- components/replication/PacketFlow.tsx: the packets from the primary to the replicas. Progress is in
-- thousandths, in which the steps are exact.
pub mod Flight
use lsmkv_enterprise.Common.{
  ℕ, zero, suc, ◌+◌, ◌%◌, min, Bool, true, false, ◌||◌, Option, none, some, List, [], ◌∷◌, ◌++◌,
  map, ◌==◌, nat_eq, leb, ltb, if◌then◌else◌, filter, find, slice_last,
}
use lsmkv_enterprise.Failure.{NodeState, unreachable, suspect, NodeRuntimeState}
use lsmkv_enterprise.Context.{Cluster, is_partitioned}

pub record Packet : Type 0 where
  pub id : ℕ
  pub from : ℕ
  pub to : ℕ
  pub progress : ℕ
  pub blocked : Bool

pub record PacketView : Type 0 where
  pub packets : List Packet
  pub next_id : ℕ

abbrev is_unavailable : Option NodeRuntimeState → Bool
is_unavailable none = false
is_unavailable (some n) = elim n.state [ unreachable ↦ true | suspect ↦ true | _ ↦ false ]

abbrev pub cycled : ℕ → ℕ → ℕ
cycled id zero = 0
cycled id (suc replicas) = id % suc replicas

-- The replica that the packet with an id goes to.
unfoldable pub packet_target : ℕ → ℕ → ℕ
packet_target id zero = 1
packet_target id (suc replicas) = 1 + cycled id replicas

unfoldable pub is_blocked : ℕ → Cluster → Bool
is_blocked to c = is_partitioned 0 to c || is_unavailable (find (λ n. n.id == to) c.world.nodes)

unfoldable pub spawn_packet : ℕ → Cluster → PacketView → PacketView
spawn_packet total c v = if leb total 1 then v else record {
  packets =
      slice_last 20 v.packets
      ++ record {
        id = v.next_id;
        from = 0;
        to = packet_target v.next_id total;
        progress = 0;
        blocked = is_blocked (packet_target v.next_id total) c;
      }
        ∷ [];
  next_id = suc v.next_id;
}

unfoldable pub fly : Packet → Packet
fly p = record p { progress = if p.blocked then min (p.progress + 25) 460 else p.progress + 40 }

unfoldable pub animate : PacketView → PacketView
animate v = record v { packets = filter (λ p. ltb p.progress 1010) (map fly v.packets) }
