-- ===== src/Examples/Heartbeats.antt =====
-- Runs of the failure detection of src/heartbeat.ts.
use libeam.Shared.{◌≡◌, refl, true, false, [], ◌∷◌, none, some, get_elem?, arith}
use libeam.Shared.Dict.{lookup, insert, delete}
use libeam.Heartbeat.{
  PeerHeartbeatState, HeartbeatConfig, Heartbeat, node_failed, init, start, ping_peer, fire,
  to_ping, send_ping, missed_ping, ping_object, add_peer, remove_peer, initialize_peer_states,
  set_object, ping_all, schedule_all, heartbeat_loop, handle_member_join, handle_member_leave,
}
use libeam.Heartbeat.Detection.{pings, fails_at_bound}
use libeam.Heartbeat.Timers.{new_state, stale_timer_fails}

abbrev fresh_n2 : PeerHeartbeatState
fresh_n2 = record {
  node_id = "n2";
  missed_count = 0;
  last_pong_time = 5;
  pending_ping = false;
  is_leaving = false;
}

abbrev config : HeartbeatConfig
config = record {
  enabled = true;
  interval_ms = 1000;
  timeout_ms = 2000;
  max_missed_heartbeats = 3;
  stagger_pings = true;
}

abbrev tracking : Heartbeat
tracking = record {
  node_id = "n1";
  config = config;
  is_running = true;
  objects = fresh_n2 ∷ [];
  peer_states = ("n2", 0) ∷ [];
  scheduled = [];
  stagger_timers = [];
  next_handle = 0;
}

fails_at_bound_example :
    ((ping_peer 9 0 (pings 9 0 3 tracking)).1 ≡ node_failed "n2" ∷ [])
    × (lookup "n2" (ping_peer 9 0 (pings 9 0 3 tracking)).0.peer_states ≡ none)
fails_at_bound_example = fails_at_bound 9 0 tracking fresh_n2 refl refl refl refl refl (omega arith)

-- Two peers with a bound of one miss: both are pinged, and the next round's timers are set. Then "n3"
-- is found dead and joins again.
abbrev pinged : Heartbeat
pinged =
    let s =
      (start 1 ("n2" ∷ "n3" ∷ []) (init "n1" (record config { max_missed_heartbeats = 1 }))).0 in
    let s = (fire 2 0 s).0 in let s = (fire 3 1 s).0 in (heartbeat_loop 4 s).0

stale_timer_fails_example :
    let back = handle_member_join 6 "n3" (handle_member_leave false "n3" pinged) in
    (lookup "n3" back.peer_states ≡ some 2)
    × (get_elem? back.objects 2 ≡ some (new_state "n3" 6))
    × ((fire 7 3 back).1 ≡ node_failed "n3" ∷ [])
    × (lookup "n3" (fire 7 3 back).0.peer_states ≡ none)
unfolding fire start heartbeat_loop handle_member_join handle_member_leave init lookup insert delete
    ping_peer to_ping send_ping missed_ping ping_object add_peer remove_peer initialize_peer_states
    set_object ping_all schedule_all
stale_timer_fails_example =
    stale_timer_fails 7 6 3 1 pinged
      (record {
        node_id = "n3";
        missed_count = 0;
        last_pong_time = 1;
        pending_ping = true;
        is_leaving = false;
      })
      refl refl refl refl refl refl refl (omega arith)
