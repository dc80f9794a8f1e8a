-- ===== src/GossipProtocol/Failures.antt =====
-- Failure detection in src/gossip_protocol.ts.
use libeam.Shared.{
  ℕ, ◌+◌, String, ◌≡◌, refl, Bool, not, ◌&&◌, [], ◌∷◌, Option, none, some, arith, ltb, str_eq,
  if◌then◌else◌, length,
}
use libeam.Shared.Dict.{Dict, delete_where, Unique, lookup-delete_where}
use libeam.GossipProtocol.{
  PeerState, GossipProtocol, GossipOptions, Entry, find_peer, is_overdue, failure_detection_loop,
  overdue_events,
}

-- Whether a peer was last heard of longer ago than the timeout.
abbrev pub silent : GossipOptions → ℕ → PeerState → Bool
silent options now p = ltb (p.last_updated + options.failure_timeout_ms) now

-- What is left of an entry by failure detection.
abbrev pub surviving : GossipOptions → ℕ → Bool → Option PeerState → Option PeerState
surviving options now is_self none = none
surviving options now is_self (some p) =
    if not is_self && silent options now p then none else some p

-- Failure detection takes out exactly the other nodes that were silent for longer than the
-- timeout; the entry of the node itself and the other entries stay.
pub find-failure_detection :
    (options : GossipOptions) (now : ℕ) (s : GossipProtocol) (id : String)
    → Unique s.peers
    → find_peer id (failure_detection_loop options now s).0
      ≡ surviving options now (str_eq id s.self.id) (find_peer id s)
unfolding find_peer failure_detection_loop
find-failure_detection options now s id u =
    ground (arith, lookup-delete_where (is_overdue options now s) id s.peers u)

overdue-length :
    (options : GossipOptions) (now : ℕ) (s : GossipProtocol) (m : Dict Entry)
    → length (overdue_events options now s m) + length (delete_where (is_overdue options now s) m)
      ≡ length m
unfolding overdue_events delete_where
overdue-length options now s [] = refl
overdue-length options now s ((id, e) ∷ m) = ground (arith, overdue-length options now s m)

-- Failure detection emits one event for each entry that it takes out.
pub failure_events :
    (options : GossipOptions) (now : ℕ) (s : GossipProtocol)
    → length (failure_detection_loop options now s).1
        + length (failure_detection_loop options now s).0.peers
      ≡ length s.peers
unfolding failure_detection_loop
failure_events options now s = overdue-length options now s s.peers
