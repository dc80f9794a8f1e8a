-- ===== src/Examples/Members.antt =====
-- Membership tables of two nodes that both list a third one.
use libeam.Shared.{ℕ, String, refl, true, false, List, [], ◌∷◌, some, none}
use libeam.Shared.Dict.{lookup}
use libeam.GossipProtocol.{
  PeerState, PeerStatus, alive, GossipProtocol, GossipMessage, GossipOptions, own, peer, find_peer,
  init, handle_gossip_message,
}
use libeam.GossipProtocol.Versions.{HoldsAtLeast, message_keeps_versions}
use libeam.GossipProtocol.Table.{IsTable, Call, gossips, receives, detects, run, run-init-IsTable}

abbrev report : String → ℕ → ℕ → PeerStatus → PeerState
report id generation heartbeat status = record {
  id = id;
  address = "tcp://127.0.0.1:5555";
  heartbeat = heartbeat;
  generation = generation;
  gossip_address = "127.0.0.1:6000";
  last_updated = 10;
  status = some status;
  roles = none;
  metadata = none;
}

abbrev table_of : String → GossipProtocol
table_of id = record {
  self = report id 1 1 alive;
  peers = (id, own) ∷ ("n3", peer (report "n3" 5 2 alive)) ∷ [];
  is_leaving = false;
  has_warned_open_mode = false;
}

abbrev lonely : GossipProtocol
lonely = record {
  self = report "n1" 1 1 alive;
  peers = ("n1", own) ∷ [];
  is_leaving = false;
  has_warned_open_mode = false;
}

abbrev options : GossipOptions
options = record { failure_timeout_ms = 5; gossip_fanout = 3; seed_nodes = [] }

abbrev message : GossipMessage
message = record {
  version = some 1;
  sender_id = "n3";
  peers = report "n1" 1 1 alive ∷ report "n3" 5 7 alive ∷ report "n4" 2 0 alive ∷ [];
}

message_keeps_versions_example :
    HoldsAtLeast
      (report "n3" 5 2 alive)
      (find_peer "n3" (handle_gossip_message true 20 message (table_of "n1")).0)
unfolding find_peer lookup
message_keeps_versions_example =
    message_keeps_versions true 20 message (table_of "n1") "n3" (report "n3" 5 2 alive) refl

abbrev calls : List Call
calls = gossips 11 ∷ receives true 12 message ∷ detects options 30 ∷ receives false 31 message ∷ []

run-init-IsTable_example : IsTable (run (init "n1" "tcp://h:1" "h:2" none 9) calls)
run-init-IsTable_example = run-init-IsTable "n1" "tcp://h:1" "h:2" none 9 calls
