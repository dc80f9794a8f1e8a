-- ===== src/GossipProtocol.antt =====
-- src/gossip_protocol.ts with the messages of src/gossip.ts: the membership table that each node
-- keeps and gossips. `now` stands for `Date.now()`; a random choice is an argument. The entry for
-- the node itself is the object `self`, shared between the field and the table, until a message
-- puts a copy in its place: `own` is that reference.
pub mod Merging
pub mod Versions
pub mod Failures
pub mod Revival
pub mod Table
use libeam.Shared.{
  ℕ, zero, suc, ◌+◌, ◌<◌, String, Bool, true, false, not, ◌&&◌, ◌||◌, List, [], ◌∷◌, ◌++◌, map,
  Option, none, some, ltb, ◌==◌, str_eq, if◌then◌else◌, keep, take, length, get_elem?,
}
use libeam.Shared.Dict.{Dict, lookup, insert, delete, delete_where, values}

pub data PeerStatus : Type 0 where
  alive leaving dead : PeerStatus

pub record PeerState : Type 0 where
  pub id : String
  pub address : String
  pub heartbeat : ℕ
  pub generation : ℕ
  pub gossip_address : String
  pub last_updated : ℕ
  pub status : Option PeerStatus
  pub roles : Option (List String)
  pub metadata : Option (Dict String)

pub record GossipMessage : Type 0 where
  pub version : Option ℕ
  pub sender_id : String
  pub peers : List PeerState

abbrev pub gossip_protocol_version : ℕ
gossip_protocol_version = 1

pub record GossipOptions : Type 0 where
  pub failure_timeout_ms : ℕ
  pub gossip_fanout : ℕ
  pub seed_nodes : List String

pub data Entry : Type 0 where
  own : Entry
  peer : PeerState → Entry

pub record GossipProtocol : Type 0 where
  pub self : PeerState
  pub peers : Dict Entry
  pub is_leaving : Bool
  pub has_warned_open_mode : Bool

pub data Event : Type 0 where
  member_join member_update member_leave : PeerState → Event

-- A datagram: the gossip address that it goes to and the message.
pub record Datagram : Type 0 where
  pub to : String
  pub message : GossipMessage

-- What an entry of the table stands for.
abbrev pub resolve : PeerState → Entry → PeerState
resolve self own = self
resolve self (peer p) = p

abbrev resolve? : PeerState → Option Entry → Option PeerState
resolve? self none = none
resolve? self (some e) = some (resolve self e)

-- `this.peers.get(id)`.
unfoldable pub find_peer : String → GossipProtocol → Option PeerState
find_peer id s = resolve? s.self (lookup id s.peers)

abbrev pub says_leaving : Option PeerStatus → Bool
says_leaving (some leaving) = true
says_leaving _ = false

abbrev nonempty_roles : List String → Option (List String)
nonempty_roles [] = none
nonempty_roles (r ∷ rs) = some (r ∷ rs)

abbrev roles_of : Option (List String) → Option (List String)
roles_of none = none
roles_of (some rs) = nonempty_roles rs

pub init : String → String → String → Option (List String) → ℕ → GossipProtocol
init node_id rpc_address gossip_address roles now =
    let self : PeerState = record {
      id = node_id;
      address = rpc_address;
      heartbeat = 0;
      generation = now;
      gossip_address = gossip_address;
      last_updated = now;
      status = some alive;
      roles = roles_of roles;
      metadata = none;
    } in
    record {
      self = self;
      peers = insert node_id own [];
      is_leaving = false;
      has_warned_open_mode = false;
    }

abbrev dict_of : Option (Dict String) → Dict String
dict_of none = []
dict_of (some m) = m

pub set_metadata : String → String → GossipProtocol → GossipProtocol
set_metadata key value s = record s {
  self = record (s.self) { metadata = some (insert key value (dict_of s.self.metadata)) };
}

pub get_metadata : String → GossipProtocol → Option String
get_metadata key s = lookup key (dict_of s.self.metadata)

abbrev metadata_of : Option PeerState → Dict String
metadata_of none = []
metadata_of (some p) = dict_of p.metadata

pub get_peer_metadata : String → String → GossipProtocol → Option String
unfolding find_peer
get_peer_metadata node_id key s = lookup key (metadata_of (find_peer node_id s))

pub get_all_known_peers : GossipProtocol → List PeerState
get_all_known_peers s = map (resolve s.self) (values s.peers)

-- A peer is live if it is the node itself, or is not leaving and was heard of in time.
pub is_live : GossipOptions → ℕ → GossipProtocol → PeerState → Bool
is_live options now s p =
    if says_leaving p.status && not (str_eq p.id s.self.id)
    then false
    else (str_eq p.id s.self.id || ltb now (p.last_updated + options.failure_timeout_ms))

pub get_live_peers : GossipOptions → ℕ → GossipProtocol → List PeerState
unfolding is_live get_all_known_peers
get_live_peers options now s = keep (is_live options now s) (get_all_known_peers s)

message_of : GossipProtocol → GossipMessage
unfolding get_all_known_peers
message_of s = record {
  version = some gossip_protocol_version;
  sender_id = s.self.id;
  peers = get_all_known_peers s;
}

abbrev others : GossipProtocol → List PeerState → List PeerState
others s = keep (λ p. not (str_eq p.id s.self.id))

send_to : GossipProtocol → PeerState → Datagram
unfolding message_of
send_to s p = record { to = p.gossip_address; message = message_of s }

-- The first lines of `gossipLoop`: one more heartbeat, and the table's entry made `self` again.
pub beat : ℕ → GossipProtocol → GossipProtocol
beat now s =
    let self : PeerState = record (s.self) {
      heartbeat = s.self.heartbeat + 1;
      last_updated = now;
    } in
    record s { self = self; peers = insert self.id own s.peers }

-- `shuffle` is what the shuffle with this run's random numbers makes of a list, and `pick` the
-- random index of a seed node.
gossip_targets :
    (List PeerState → List PeerState) → ℕ → GossipOptions → GossipProtocol → List Datagram
unfolding send_to get_all_known_peers
gossip_targets shuffle pick options s = elim (others s (get_all_known_peers s)) [
  | [] ↦ elim (get_elem? options.seed_nodes pick) [
    | none ↦ []
    | some seed ↦ record { to = seed; message = message_of s } ∷ []
  ]
  | p ∷ ps ↦ map (send_to s) (take options.gossip_fanout (shuffle (p ∷ ps)))
]

pub gossip_loop :
    (List PeerState → List PeerState)
    → ℕ
    → GossipOptions
    → ℕ
    → GossipProtocol
    → GossipProtocol × List Datagram
unfolding beat gossip_targets
gossip_loop shuffle pick options now s =
    let s' = beat now s in (s', gossip_targets shuffle pick options s')

-- Puts what a message says of a peer into the table, with the time of arrival.
pub adopt : ℕ → PeerState → GossipProtocol → GossipProtocol
adopt now incoming s = record s {
  peers = insert incoming.id (peer (record incoming { last_updated = now })) s.peers;
}

-- The branch for a peer that the table does not hold.
merge_new : ℕ → PeerState → GossipProtocol → GossipProtocol × List Event
unfolding adopt
merge_new now incoming s =
    if says_leaving incoming.status
    then (s, [])
    else (adopt now incoming s, member_join incoming ∷ [])

-- The branch for a peer that the table holds.
merge_known : ℕ → PeerState → PeerState → GossipProtocol → GossipProtocol × List Event
unfolding adopt
merge_known now incoming local s =
    if ltb local.generation incoming.generation
    then (adopt now incoming s, member_update incoming ∷ [])
    else (if incoming.generation == local.generation && ltb local.heartbeat incoming.heartbeat
        then (
          adopt now incoming s,
          (if not (says_leaving local.status) && says_leaving incoming.status
              then member_leave incoming ∷ []
              else member_update incoming ∷ []),
        )
        else (s, []))

pub merge_peer : ℕ → PeerState → GossipProtocol → GossipProtocol × List Event
unfolding merge_new merge_known find_peer
merge_peer now incoming s = elim (find_peer incoming.id s) [
  | none ↦ merge_new now incoming s
  | some local ↦ merge_known now incoming local s
]

pub merge_peers : ℕ → List PeerState → GossipProtocol → GossipProtocol × List Event
unfolding merge_peer
merge_peers now [] s = (s, [])
merge_peers now (p ∷ ps) s =
    let (s', events) = merge_peer now p s in
    let (s'', events') = merge_peers now ps s' in (s'', events ++ events')

abbrev pub compatible : Option ℕ → Bool
compatible none = true
compatible (some v) = v == gossip_protocol_version

-- `authenticated` says whether an authenticator is configured; the warning is given once.
pub handle_gossip_message : Bool → ℕ → GossipMessage → GossipProtocol → GossipProtocol × List Event
unfolding merge_peers
handle_gossip_message authenticated now message s =
    if compatible message.version
    then merge_peers now message.peers
        (record s { has_warned_open_mode = s.has_warned_open_mode || not authenticated })
    else (s, [])

pub is_overdue : GossipOptions → ℕ → GossipProtocol → String → Entry → Bool
is_overdue options now s id e =
    not (str_eq id s.self.id)
    && ltb ((resolve s.self e).last_updated + options.failure_timeout_ms) now

overdue_events : GossipOptions → ℕ → GossipProtocol → Dict Entry → List Event
unfolding is_overdue
overdue_events options now s [] = []
overdue_events options now s ((id, e) ∷ m) =
    if is_overdue options now s id e
    then member_leave (resolve s.self e) ∷ overdue_events options now s m
    else overdue_events options now s m

pub failure_detection_loop : GossipOptions → ℕ → GossipProtocol → GossipProtocol × List Event
unfolding is_overdue overdue_events
failure_detection_loop options now s = (
  record s { peers = delete_where (is_overdue options now s) s.peers },
  overdue_events options now s s.peers,
)

pub stop : GossipProtocol → GossipProtocol
stop s = record s { peers = [] }

abbrev repeat {ℓ} : {A : Type ℓ} → ℕ → List A → List A
repeat zero xs = []
repeat (suc n) xs = xs ++ repeat n xs

broadcast_to_all_peers : GossipProtocol → List Datagram
unfolding send_to get_all_known_peers
broadcast_to_all_peers s = map (send_to s) (others s (get_all_known_peers s))

-- `leave` without what other handlers do while it waits between two broadcasts.
pub leave : ℕ → ℕ → GossipProtocol → GossipProtocol × List Datagram
unfolding broadcast_to_all_peers stop
leave broadcast_count now s =
    let self : PeerState = record (s.self) {
      status = some leaving;
      heartbeat = s.self.heartbeat + 1;
      last_updated = now;
    } in
    let s' = record s { self = self; peers = insert self.id own s.peers; is_leaving = true } in
    if s.is_leaving then (s, []) else (stop s', repeat broadcast_count (broadcast_to_all_peers s'))
