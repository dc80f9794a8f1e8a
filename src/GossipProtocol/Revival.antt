-- ===== src/GossipProtocol/Revival.antt =====
-- Failed peers and the gossip of src/gossip_protocol.ts: nothing records that a peer was taken out.
use libeam.Shared.{ℕ, ◌≡◌, true, false, some, arith, str_eq, eq_refl}
use libeam.Shared.Dict.{Unique}
use libeam.GossipProtocol.{
  PeerState, GossipProtocol, GossipOptions, find_peer, merge_peer, failure_detection_loop,
  says_leaving,
}
use libeam.GossipProtocol.Merging.{stamped, find-merge_peer}
use libeam.GossipProtocol.Failures.{silent, find-failure_detection}

-- A node takes the silent peer out, and then hears of it from a node that still lists it.
detected_then_told :
    (options : GossipOptions) (now later : ℕ) (s : GossipProtocol) (told p : PeerState)
    → Unique s.peers
    → str_eq told.id s.self.id ≡ false
    → says_leaving told.status ≡ false
    → find_peer told.id s ≡ some p
    → silent options now p ≡ true
    → find_peer told.id (merge_peer later told (failure_detection_loop options now s).0).0
      ≡ some (stamped later told)
detected_then_told options now later s told p u other stays h over = ground (
  arith,
  find-failure_detection options now s told.id u,
  find-merge_peer later told (failure_detection_loop options now s).0 told.id,
  eq_refl told.id,
)

-- A peer that is dead can stay listed for ever. Node a takes it out as failed and is then told of
-- it by b, which still lists it; b takes it out as failed and is then told of it by a. Now both
-- list it as freshly heard of, though it sent nothing: the round can begin again.
pub failed_peer_returns :
    (options : GossipOptions) (t1 t2 t3 t4 : ℕ) (a b : GossipProtocol) (p q : PeerState)
    → Unique a.peers
    → Unique b.peers
    → str_eq q.id a.self.id ≡ false
    → str_eq q.id b.self.id ≡ false
    → says_leaving q.status ≡ false
    → find_peer q.id a ≡ some p
    → find_peer q.id b ≡ some q
    → silent options t1 p ≡ true
    → silent options t3 q ≡ true
    → let a' = (merge_peer t2 q (failure_detection_loop options t1 a).0).0 in
      let b' = (merge_peer t4 (stamped t2 q) (failure_detection_loop options t3 b).0).0 in
      (find_peer q.id a' ≡ some (stamped t2 q)) × (find_peer q.id b' ≡ some (stamped t4 q))
failed_peer_returns options t1 t2 t3 t4 a b p q ua ub ia ib l ha hb pa pb = (
  detected_then_told options t1 t2 a q p ua ia l ha pa,
  detected_then_told options t3 t4 b (stamped t2 q) q ub ib l hb pb,
)
