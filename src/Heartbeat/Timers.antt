-- ===== src/Heartbeat/Timers.antt =====
-- The stagger timers of src/heartbeat.ts: what they do after `stop`, and to a peer that has come
-- back since they were set.
use libeam.Shared.{
  ℕ, ◌+◌, ◌≤◌, String, ◌≡◌, refl, true, false, [], ◌∷◌, ◌++◌, Option, none, some, arith, eq_refl,
  get_elem?, length, str_eq,
}
use libeam.Shared.Dict.{lookup, insert, delete, lookup-delete, lookup-insert_self}
use libeam.Heartbeat.{
  PeerHeartbeatState, Heartbeat, node_failed, ping_peer, ping_object, missed_ping, add_peer,
  remove_peer, handle_member_join, handle_member_leave, heartbeat_loop, fire, stop, take_timer,
  clear_timer,
}
use libeam.Heartbeat.Detection.{ping_held}
use libeam.Heartbeat.Store.{get_elem?-append_last, get_elem?-append_old}

-- How a peer is tracked at first.
abbrev pub new_state : String → ℕ → PeerHeartbeatState
new_state name now = record {
  node_id = name;
  missed_count = 0;
  last_pong_time = now;
  pending_ping = false;
  is_leaving = false;
}

ping_peer-stopped :
    (now ref : ℕ) (s : Heartbeat) → s.is_running ≡ false → (ping_peer now ref s).1 ≡ []
unfolding ping_peer ping_object
ping_peer-stopped now ref s h = rw (h) (ground arith)

fire-stopped : (now handle : ℕ) (s : Heartbeat) → s.is_running ≡ false → (fire now handle s).1 ≡ []
unfolding fire
fire-stopped now handle s h = go (take_timer handle s.scheduled) refl
  where
    go : (t : Option ℕ) → take_timer handle s.scheduled ≡ t → (fire now handle s).1 ≡ []
    go none e = rw (fire, e) refl
    go (some ref) e =
        rw (fire, e)
          (ping_peer-stopped now ref (record s { scheduled = clear_timer handle s.scheduled }) h)

stop-is_running : (s : Heartbeat) → (stop s).is_running ≡ false
unfolding stop
stop-is_running s = ground arith

-- After `stop` a timer that is left, the interval's loop and a ping that was about to start send
-- nothing and declare nobody failed.
pub stop_is_silent :
    (now handle ref : ℕ) (s : Heartbeat)
    → ((fire now handle (stop s)).1 ≡ [])
      × ((heartbeat_loop now (stop s)).1 ≡ [])
      × ((ping_peer now ref (stop s)).1 ≡ [])
unfolding heartbeat_loop
stop_is_silent now handle ref s =
    let h = stop-is_running s in
    (fire-stopped now handle (stop s) h, rw (h) refl, ping_peer-stopped now ref (stop s) h)

-- A timer whose peer state has a ping unanswered and reaches the bound.
fire-fails :
    (now handle ref : ℕ) (s : Heartbeat) (old : PeerHeartbeatState)
    → take_timer handle s.scheduled ≡ some ref
    → get_elem? s.objects ref ≡ some old
    → s.is_running ≡ true
    → old.is_leaving ≡ false
    → old.pending_ping ≡ true
    → s.config.max_missed_heartbeats ≤ old.missed_count + 1
    → ((fire now handle s).1 ≡ node_failed old.node_id ∷ [])
      × (lookup old.node_id (fire now handle s).0.peer_states ≡ none)
unfolding fire missed_ping remove_peer
fire-fails now handle ref s old t h r l p bound =
    rw
      (
        fire,
        t,
        ping_held now ref (record s { scheduled = clear_timer handle s.scheduled }) old h r l,
        p,
      )
      (ground (arith, lookup-delete old.node_id old.node_id s.peer_states, eq_refl old.node_id))

-- A peer that was found dead and has joined again is tracked by a new state.
rejoin :
    (later ref : ℕ) (name : String) (s : Heartbeat)
    → lookup name s.peer_states ≡ some ref
    → str_eq name s.node_id ≡ false
    → handle_member_join later name (handle_member_leave false name s) ≡ record s {
      objects = s.objects ++ new_state name later ∷ [];
      peer_states = insert name (length s.objects) (delete name s.peer_states);
    }
unfolding handle_member_join handle_member_leave add_peer remove_peer
rejoin later ref name s tracked other =
    let gone : lookup name (delete name s.peer_states) ≡ none =
      ground (arith, lookup-delete name name s.peer_states, eq_refl name) in
    rw (handle_member_leave, tracked, other, gone) refl

-- A timer outlives the peer's return. A tracked peer has left a ping unanswered, one more miss
-- reaches the bound, and a stagger timer is set for it; then it is found dead, and joins again.
-- It is tracked by a new state without a miss and without a ping; but when the timer fires, the
-- manager, which is running, declares the peer failed and stops tracking it, though the new
-- state has not been pinged once.
pub stale_timer_fails :
    (now later handle ref : ℕ) (s : Heartbeat) (old : PeerHeartbeatState)
    → take_timer handle s.scheduled ≡ some ref
    → lookup old.node_id s.peer_states ≡ some ref
    → get_elem? s.objects ref ≡ some old
    → str_eq old.node_id s.node_id ≡ false
    → s.is_running ≡ true
    → old.is_leaving ≡ false
    → old.pending_ping ≡ true
    → s.config.max_missed_heartbeats ≤ old.missed_count + 1
    → let back = handle_member_join later old.node_id (handle_member_leave false old.node_id s) in
      (lookup old.node_id back.peer_states ≡ some (length s.objects))
      × (get_elem? back.objects (length s.objects) ≡ some (new_state old.node_id later))
      × ((fire now handle back).1 ≡ node_failed old.node_id ∷ [])
      × (lookup old.node_id (fire now handle back).0.peer_states ≡ none)
stale_timer_fails now later handle ref s old t tracked h other r l p bound =
    let fresh : PeerHeartbeatState = new_state old.node_id later in
    let back : Heartbeat = record s {
      objects = s.objects ++ fresh ∷ [];
      peer_states = insert old.node_id (length s.objects) (delete old.node_id s.peer_states);
    } in
    let (failed, dropped) =
      fire-fails now handle ref back old t (get_elem?-append_old s.objects fresh old ref h) r l p
        bound in
    rw (rejoin later ref old.node_id s tracked other) (
      lookup-insert_self old.node_id (length s.objects) (delete old.node_id s.peer_states),
      get_elem?-append_last s.objects fresh,
      failed,
      dropped,
    )
