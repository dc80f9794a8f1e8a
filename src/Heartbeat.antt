-- ===== src/Heartbeat.antt =====
-- src/heartbeat.ts: the class HeartbeatManager. The peer states are objects that timers and pings
-- in flight keep hold of after they have left the map, so they stand in a store, `objects`, and the
-- map and the timers hold references into it. `now` stands for `Date.now()`. `pingPeer` is two
-- steps: what it does up to its `await`, and what it does with the pong.
pub mod Store
pub mod Detection
pub mod Timers
use libeam.Shared.{
  ℕ, zero, suc, ◌+◌, String, Bool, true, false, not, ◌&&◌, ◌||◌, List, [], ◌∷◌, ◌++◌, Option, none,
  some, ltb, leb, ◌==◌, str_eq, if◌then◌else◌, length, get_elem?, keep,
}
use libeam.Shared.Dict.{Dict, lookup, insert, delete, has, keys, values}

pub record HeartbeatConfig : Type 0 where
  pub enabled : Bool
  pub interval_ms : ℕ
  pub timeout_ms : ℕ
  pub max_missed_heartbeats : ℕ
  pub stagger_pings : Bool

abbrev pub default_heartbeat_config : HeartbeatConfig
default_heartbeat_config = record {
  enabled = true;
  interval_ms = 1000;
  timeout_ms = 2000;
  max_missed_heartbeats = 3;
  stagger_pings = true;
}

pub record HeartbeatPing : Type 0 where
  pub timestamp : ℕ
  pub sender_id : String

pub record HeartbeatPong : Type 0 where
  pub timestamp : ℕ
  pub responder_id : String

pub record PeerHeartbeatState : Type 0 where
  pub node_id : String
  pub missed_count : ℕ
  pub last_pong_time : ℕ
  pub pending_ping : Bool
  pub is_leaving : Bool

-- A stagger timer that has not fired: its handle and the peer state that it will ping.
pub record Timer : Type 0 where
  pub handle : ℕ
  pub ref : ℕ

pub record Heartbeat : Type 0 where
  pub node_id : String
  pub config : HeartbeatConfig
  pub is_running : Bool
  pub objects : List PeerHeartbeatState
  pub peer_states : Dict ℕ
  pub scheduled : List Timer
  pub stagger_timers : List ℕ
  pub next_handle : ℕ

pub data Effect : Type 0 where
  request : String → HeartbeatPing → Effect
  node_failed : String → Effect

unfoldable pub init : String → HeartbeatConfig → Heartbeat
init node_id config = record {
  node_id = node_id;
  config = config;
  is_running = false;
  objects = [];
  peer_states = [];
  scheduled = [];
  stagger_timers = [];
  next_handle = 0;
}

-- A write through a reference.
unfoldable pub set_object :
    List PeerHeartbeatState → ℕ → PeerHeartbeatState → List PeerHeartbeatState
set_object [] ref o = []
set_object (x ∷ xs) zero o = o ∷ xs
set_object (x ∷ xs) (suc ref) o = x ∷ set_object xs ref o

unfoldable pub add_peer : ℕ → String → Heartbeat → Heartbeat
add_peer now node_id s =
    let fresh : PeerHeartbeatState = record {
      node_id = node_id;
      missed_count = 0;
      last_pong_time = now;
      pending_ping = false;
      is_leaving = false;
    } in
    if has node_id s.peer_states then s else record s {
      objects = s.objects ++ fresh ∷ [];
      peer_states = insert node_id (length s.objects) s.peer_states;
    }

unfoldable pub remove_peer : String → Heartbeat → Heartbeat
remove_peer node_id s = record s { peer_states = delete node_id s.peer_states }

-- Starts to track the members of the cluster, the node itself excepted.
unfoldable pub initialize_peer_states : ℕ → List String → Heartbeat → Heartbeat
unfolding add_peer
initialize_peer_states now [] s = s
initialize_peer_states now (id ∷ ids) s =
    initialize_peer_states now ids (if str_eq id s.node_id then s else add_peer now id s)

unfoldable pub handle_member_join : ℕ → String → Heartbeat → Heartbeat
unfolding add_peer
handle_member_join now node_id s = if str_eq node_id s.node_id then s else add_peer now node_id s

abbrev mark_leaving :
    Option PeerHeartbeatState → ℕ → List PeerHeartbeatState → List PeerHeartbeatState
mark_leaving none ref objects = objects
mark_leaving (some o) ref objects = set_object objects ref (record o { is_leaving = true })

-- `gracefully` says that the event carries the status "leaving".
unfoldable pub handle_member_leave : Bool → String → Heartbeat → Heartbeat
unfolding remove_peer set_object
handle_member_leave gracefully node_id s = elim (lookup node_id s.peer_states) [
  | none ↦ s
  | some ref ↦
      if gracefully
      then remove_peer node_id
          (record s { objects = mark_leaving (get_elem? s.objects ref) ref s.objects })
      else remove_peer node_id s
]

pub handle_ping : HeartbeatPing → Heartbeat → HeartbeatPong
handle_ping ping s = record { timestamp = ping.timestamp; responder_id = s.node_id }

-- The end of `pingPeer` up to its `await`: the ping goes out.
unfoldable pub send_ping : ℕ → ℕ → PeerHeartbeatState → Heartbeat → Heartbeat × List Effect
unfolding set_object
send_ping now ref o s = (
  record s { objects = set_object s.objects ref (record o { pending_ping = true }) },
  request o.node_id (record { timestamp = now; sender_id = s.node_id }) ∷ [],
)

-- The ping before was not answered.
unfoldable pub missed_ping : ℕ → ℕ → PeerHeartbeatState → Heartbeat → Heartbeat × List Effect
unfolding send_ping set_object remove_peer
missed_ping now ref o s =
    let missed = record o { missed_count = o.missed_count + 1 } in
    let s' = record s { objects = set_object s.objects ref missed } in
    if leb s.config.max_missed_heartbeats missed.missed_count
    then (remove_peer o.node_id s', node_failed o.node_id ∷ [])
    else send_ping now ref missed s'

unfoldable pub ping_object : ℕ → ℕ → PeerHeartbeatState → Heartbeat → Heartbeat × List Effect
unfolding missed_ping send_ping
ping_object now ref o s =
    if not s.is_running || o.is_leaving
    then (s, [])
    else (if o.pending_ping then missed_ping now ref o s else send_ping now ref o s)

unfoldable pub ping_peer : ℕ → ℕ → Heartbeat → Heartbeat × List Effect
unfolding ping_object
ping_peer now ref s = elim (get_elem? s.objects ref) [
  | none ↦ (s, [])
  | some o ↦ ping_object now ref o s
]

abbrev answered : ℕ → PeerHeartbeatState → PeerHeartbeatState
answered now o = record o { pending_ping = false; missed_count = 0; last_pong_time = now }

abbrev answer_at :
    ℕ → Option PeerHeartbeatState → ℕ → List PeerHeartbeatState → List PeerHeartbeatState
answer_at now none ref objects = objects
answer_at now (some o) ref objects = set_object objects ref (answered now o)

-- What `pingPeer` does with the pong that comes for a node; it looks the state up anew.
pub receive_pong : ℕ → String → Heartbeat → Heartbeat
unfolding set_object
receive_pong now node_id s = elim (lookup node_id s.peer_states) [
  | none ↦ s
  | some ref ↦ record s { objects = answer_at now (get_elem? s.objects ref) ref s.objects }
]

-- The references of the peers to ping.
abbrev staying : Option PeerHeartbeatState → Bool
staying none = false
staying (some o) = not o.is_leaving

unfoldable pub to_ping : Heartbeat → List ℕ
to_ping s = keep (λ ref. staying (get_elem? s.objects ref)) (values s.peer_states)

unfoldable pub ping_all : ℕ → List ℕ → Heartbeat → Heartbeat × List Effect
unfolding ping_peer
ping_all now [] s = (s, [])
ping_all now (ref ∷ refs) s =
    let (s', effects) = ping_peer now ref s in
    let (s'', effects') = ping_all now refs s' in (s'', effects ++ effects')

unfoldable pub schedule_all : List ℕ → Heartbeat → Heartbeat
schedule_all [] s = s
schedule_all (ref ∷ refs) s = schedule_all refs (record s {
  scheduled = s.scheduled ++ record { handle = s.next_handle; ref = ref } ∷ [];
  stagger_timers = s.stagger_timers ++ s.next_handle ∷ [];
  next_handle = s.next_handle + 1;
})

unfoldable pub heartbeat_loop : ℕ → Heartbeat → Heartbeat × List Effect
unfolding to_ping ping_all schedule_all
heartbeat_loop now s =
    let peers = to_ping s in
    if not s.is_running
    then (s, [])
    else (if s.config.stagger_pings && ltb 1 (length peers)
        then (schedule_all peers s, [])
        else ping_all now peers s)

abbrev pub take_timer : ℕ → List Timer → Option ℕ
take_timer handle [] = none
take_timer handle (t ∷ ts) = if t.handle == handle then some t.ref else take_timer handle ts

abbrev pub clear_timer : ℕ → List Timer → List Timer
clear_timer handle = keep (λ t. not (t.handle == handle))

-- A stagger timer fires.
unfoldable pub fire : ℕ → ℕ → Heartbeat → Heartbeat × List Effect
unfolding ping_peer
fire now handle s = elim (take_timer handle s.scheduled) [
  | none ↦ (s, [])
  | some ref ↦ ping_peer now ref (record s { scheduled = clear_timer handle s.scheduled })
]

-- The timer at the interval's end drops the handles, whether their timers have fired or not.
pub forget_handles : Heartbeat → Heartbeat
forget_handles s = record s { stagger_timers = [] }

unfoldable pub start : ℕ → List String → Heartbeat → Heartbeat × List Effect
unfolding initialize_peer_states heartbeat_loop
start now members s =
    if not s.config.enabled || s.is_running
    then (s, [])
    else heartbeat_loop now (initialize_peer_states now members (record s { is_running = true }))

clear_timers : List ℕ → List Timer → List Timer
clear_timers [] ts = ts
clear_timers (h ∷ hs) ts = clear_timers hs (clear_timer h ts)

pub stop : Heartbeat → Heartbeat
unfolding clear_timers
stop s =
    if s.is_running
    then record s {
      is_running = false;
      scheduled = clear_timers s.stagger_timers s.scheduled;
      stagger_timers = [];
      peer_states = [];
    }
    else s
