-- ===== src/GossipProtocol/Table.antt =====
-- The invariant of the membership table of src/gossip_protocol.ts, kept by each handler.
use libeam.Shared.{
  ℕ, String, ◌≡◌, refl, subst, inl, inr, Bool, true, false, List, [], ◌∷◌, Option, none, some,
  arith, str_eq, eq_iff, if◌then◌else◌, Bool-cases, Option-cases,
}
use libeam.Shared.Dict.{
  Dict, lookup, insert, Unique, unless, lookup-delete_where, lookup-insert, Unique-insert,
  Unique-delete_where,
}
use libeam.GossipProtocol.{
  PeerState, GossipProtocol, GossipOptions, GossipMessage, Entry, own, peer, find_peer, init,
  set_metadata, beat, adopt, merge_new, merge_known, merge_peer, merge_peers, handle_gossip_message,
  is_overdue, failure_detection_loop, stop, leave, Datagram, says_leaving, compatible,
}

-- Each entry stands under its peer's id, and the shared object only under the node's own.
abbrev pub StandsAt : String → String → Option Entry → Type 0
StandsAt self_id id none = Unit
StandsAt self_id id (some own) = self_id ≡ id
StandsAt self_id id (some (peer p)) = p.id ≡ id

pub record IsTable (s : GossipProtocol) : Type 0 where
  pub unique : Unique s.peers
  pub keyed : (id : String) → StandsAt s.self.id id (lookup id s.peers)

pub init-IsTable :
    (node_id rpc_address gossip_address : String) (roles : Option (List String)) (now : ℕ)
    → IsTable (init node_id rpc_address gossip_address roles now)
unfolding init lookup insert
init-IsTable node_id rpc_address gossip_address roles now = record {
  unique = (refl, tt);
  keyed = λ id. ground (arith, eq_iff node_id id);
}

keyed-insert :
    (self_id key id : String) (e : Entry) (m : Dict Entry)
    → StandsAt self_id key (some e)
    → StandsAt self_id id (lookup id m)
    → StandsAt self_id id (lookup id (insert key e m))
keyed-insert self_id key id e m h k = elim (Bool-cases (str_eq key id)) [
  | inl same ↦
      rw (lookup-insert key id e m, same)
        (subst (λ i. StandsAt self_id i (some e)) ((eq_iff key id).0 same) h)
  | inr other ↦ rw (lookup-insert key id e m, other) k
]

keyed-unless :
    (self_id id : String) (p : String → Entry → Bool) (o : Option Entry)
    → StandsAt self_id id o
    → StandsAt self_id id (unless p id o)
keyed-unless self_id id p none h = tt
keyed-unless self_id id p (some e) h = elim (Bool-cases (p id e)) [
  | inl gone ↦ rw gone tt
  | inr stays ↦ rw stays h
]

beat-IsTable : (now : ℕ) (s : GossipProtocol) → IsTable s → IsTable (beat now s)
unfolding beat
beat-IsTable now s t = record {
  unique = Unique-insert s.self.id own s.peers t.unique;
  keyed = λ id. keyed-insert s.self.id s.self.id id own s.peers refl (t.keyed id);
}

adopt-IsTable : (now : ℕ) (a : PeerState) (s : GossipProtocol) → IsTable s → IsTable (adopt now a s)
unfolding adopt
adopt-IsTable now a s t = record {
  unique = Unique-insert a.id _ s.peers t.unique;
  keyed = λ id. keyed-insert s.self.id a.id id _ s.peers refl (t.keyed id);
}

merge_new-IsTable :
    (now : ℕ) (a : PeerState) (s : GossipProtocol) → IsTable s → IsTable (merge_new now a s).0
unfolding merge_new
merge_new-IsTable now a s t = elim (Bool-cases (says_leaving a.status)) [
  | inl l ↦ rw l t
  | inr l ↦ rw l (adopt-IsTable now a s t)
]

merge_known-IsTable :
    (now : ℕ) (a p : PeerState) (s : GossipProtocol) → IsTable s → IsTable (merge_known now a p s).0
unfolding merge_known
merge_known-IsTable now a p s t = ground (arith, adopt-IsTable now a s t)

merge_peer-IsTable :
    (now : ℕ) (a : PeerState) (s : GossipProtocol) → IsTable s → IsTable (merge_peer now a s).0
unfolding merge_peer
merge_peer-IsTable now a s t = elim (Option-cases (find_peer a.id s)) [
  | inl h ↦ rw (h, merge_peer) (merge_new-IsTable now a s t)
  | inr (p, h) ↦ rw (h, merge_peer) (merge_known-IsTable now a p s t)
]

merge_peers-IsTable :
    (now : ℕ) (ps : List PeerState) (s : GossipProtocol)
    → IsTable s
    → IsTable (merge_peers now ps s).0
unfolding merge_peers
merge_peers-IsTable now [] s t = t
merge_peers-IsTable now (a ∷ ps) s t =
    merge_peers-IsTable now ps (merge_peer now a s).0 (merge_peer-IsTable now a s t)

same-IsTable :
    (s s' : GossipProtocol) → s'.peers ≡ s.peers → s'.self.id ≡ s.self.id → IsTable s → IsTable s'
same-IsTable s s' p i t = record { unique = rw p t.unique; keyed = λ id. rw (p, i) (t.keyed id) }

handle-IsTable :
    (authenticated : Bool) (now : ℕ) (m : GossipMessage) (s : GossipProtocol)
    → IsTable s
    → IsTable (handle_gossip_message authenticated now m s).0
unfolding handle_gossip_message
handle-IsTable authenticated now m s t = elim (Bool-cases (compatible m.version)) [
  | inl c ↦ rw c (merge_peers-IsTable now m.peers _ (same-IsTable s _ refl refl t))
  | inr c ↦ rw c t
]

failure-IsTable :
    (options : GossipOptions) (now : ℕ) (s : GossipProtocol)
    → IsTable s
    → IsTable (failure_detection_loop options now s).0
unfolding failure_detection_loop
failure-IsTable options now s t = record {
  unique = Unique-delete_where (is_overdue options now s) s.peers t.unique;
  keyed = λ id.
      rw (lookup-delete_where (is_overdue options now s) id s.peers t.unique)
        (keyed-unless s.self.id id (is_overdue options now s) (lookup id s.peers) (t.keyed id));
}

stop-IsTable : (s : GossipProtocol) → IsTable (stop s)
unfolding stop lookup
stop-IsTable s = record { unique = tt; keyed = λ id. tt }

either-IsTable :
    (b : Bool) (x y : GossipProtocol × List Datagram)
    → IsTable x.0
    → IsTable y.0
    → IsTable (if b then x else y).0
either-IsTable true x y h k = h
either-IsTable false x y h k = k

leave-IsTable : (n now : ℕ) (s : GossipProtocol) → IsTable s → IsTable (leave n now s).0
unfolding leave lookup
leave-IsTable n now s t =
    either-IsTable s.is_leaving (s, []) _ t (record { unique = tt; keyed = λ id. tt })

-- The handlers that change a node's table. What a gossip round sends does not matter to it.
pub data Call : Type 0 where
  gossips : ℕ → Call
  receives : Bool → ℕ → GossipMessage → Call
  detects : GossipOptions → ℕ → Call
  sets_metadata : String → String → Call
  leaves : ℕ → ℕ → Call
  stops : Call

pub step : GossipProtocol → Call → GossipProtocol
step s (gossips now) = beat now s
step s (receives authenticated now m) = (handle_gossip_message authenticated now m s).0
step s (detects options now) = (failure_detection_loop options now s).0
step s (sets_metadata key value) = set_metadata key value s
step s (leaves broadcast_count now) = (leave broadcast_count now s).0
step s stops = stop s

pub run : GossipProtocol → List Call → GossipProtocol
run s [] = s
run s (c ∷ cs) = run (step s c) cs

step-IsTable : (s : GossipProtocol) (c : Call) → IsTable s → IsTable (step s c)
unfolding step set_metadata
step-IsTable s (gossips now) t = beat-IsTable now s t
step-IsTable s (receives authenticated now m) t = handle-IsTable authenticated now m s t
step-IsTable s (detects options now) t = failure-IsTable options now s t
step-IsTable s (sets_metadata key value) t = same-IsTable s _ refl refl t
step-IsTable s (leaves broadcast_count now) t = leave-IsTable broadcast_count now s t
step-IsTable s stops t = stop-IsTable s

run-IsTable : (s : GossipProtocol) (cs : List Call) → IsTable s → IsTable (run s cs)
unfolding run
run-IsTable s [] t = t
run-IsTable s (c ∷ cs) t = run-IsTable (step s c) cs (step-IsTable s c t)

-- After any handlers in any order, every entry of the table stands under its peer's id, no id
-- stands twice, and the node's own object stands under its own id only.
pub run-init-IsTable :
    (node_id rpc_address gossip_address : String) (roles : Option (List String)) (now : ℕ)
    (cs : List Call)
    → IsTable (run (init node_id rpc_address gossip_address roles now) cs)
run-init-IsTable node_id rpc_address gossip_address roles now cs =
    run-IsTable _ cs (init-IsTable node_id rpc_address gossip_address roles now)
