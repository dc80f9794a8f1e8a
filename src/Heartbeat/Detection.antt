-- ===== src/Heartbeat/Detection.antt =====
-- When src/heartbeat.ts takes a peer for failed.
use libeam.Shared.{
  ℕ, zero, suc, ◌+◌, ◌-◌, ◌≤◌, ◌<◌, String, ◌≡◌, refl, sym, ◌∙◌, ap, subst, true, false, List, [],
  ◌∷◌, none, some, arith, eq_refl, if◌then◌else◌, get_elem?,
}
use libeam.Shared.Dict.{lookup, lookup-delete}
use libeam.Heartbeat.{
  PeerHeartbeatState, Heartbeat, request, node_failed, set_object, ping_peer, send_ping,
  missed_ping, remove_peer, receive_pong,
}
use libeam.Heartbeat.Store.{get_elem?-set_object}

-- Pings of one peer, one after the other, with no pong in between.
pub pings : ℕ → ℕ → ℕ → Heartbeat → Heartbeat
pings now ref zero s = s
pings now ref (suc n) s = (ping_peer now ref (pings now ref n s)).0

-- The peer has been pinged and has left this many pings unanswered.
record Waiting (s s' : Heartbeat) (ref missed : ℕ) (o : PeerHeartbeatState) : Type 0 where
  held : get_elem? s'.objects ref ≡ some (record o { pending_ping = true; missed_count = missed })
  same_peers : s'.peer_states ≡ s.peer_states
  same_config : s'.config ≡ s.config
  same_node : s'.node_id ≡ s.node_id
  running : s'.is_running ≡ true

pub ping_held :
    (now ref : ℕ) (s : Heartbeat) (o : PeerHeartbeatState)
    → get_elem? s.objects ref ≡ some o
    → s.is_running ≡ true
    → o.is_leaving ≡ false
    → ping_peer now ref s
      ≡ (if o.pending_ping then missed_ping now ref o s else send_ping now ref o s)
unfolding ping_peer
ping_held now ref s o h r l = rw (h, ping_peer) (ground arith)

pinged_first :
    (now ref : ℕ) (s : Heartbeat) (o : PeerHeartbeatState)
    → get_elem? s.objects ref ≡ some o
    → s.is_running ≡ true
    → o.is_leaving ≡ false
    → o.pending_ping ≡ false
    → ping_peer now ref s ≡ send_ping now ref o s
pinged_first now ref s o h r l p = rw (ping_held now ref s o h r l, p) refl

first_ping :
    (now ref : ℕ) (s : Heartbeat) (o : PeerHeartbeatState)
    → get_elem? s.objects ref ≡ some o
    → s.is_running ≡ true
    → Waiting s (send_ping now ref o s).0 ref o.missed_count o
unfolding send_ping
first_ping now ref s o h r = record {
  held = ground (arith, get_elem?-set_object s.objects ref ref (record o { pending_ping = true }));
  same_peers = refl;
  same_config = refl;
  same_node = refl;
  running = r;
}

held_twice :
    (objects : List PeerHeartbeatState) (ref : ℕ) (o p q : PeerHeartbeatState)
    → get_elem? objects ref ≡ some o
    → get_elem? (set_object (set_object objects ref p) ref q) ref ≡ some q
held_twice objects ref o p q h = ground (
  arith,
  get_elem?-set_object (set_object objects ref p) ref ref q,
  get_elem?-set_object objects ref ref p,
)

missed_below :
    (now ref missed : ℕ) (s s' : Heartbeat) (o : PeerHeartbeatState)
    → missed + 1 < s.config.max_missed_heartbeats
    → Waiting s s' ref missed o
    → missed_ping now ref (record o { pending_ping = true; missed_count = missed }) s'
      ≡ send_ping now ref
          (record o { pending_ping = true; missed_count = missed + 1 })
          (record s' {
            objects =
                set_object s'.objects ref
                  (record o { pending_ping = true; missed_count = missed + 1 });
          })
unfolding missed_ping
missed_below now ref missed s s' o h w = rw (w.same_config) (ground arith)

next_ping :
    (now ref missed : ℕ) (s s' : Heartbeat) (o : PeerHeartbeatState)
    → o.is_leaving ≡ false
    → missed + 1 < s.config.max_missed_heartbeats
    → Waiting s s' ref missed o
    → Waiting s (ping_peer now ref s').0 ref (missed + 1) o
unfolding send_ping
next_ping now ref missed s s' o l h w =
    rw
      (
        ping_held now ref s' (record o { pending_ping = true; missed_count = missed }) w.held
            w.running l,
        missed_below now ref missed s s' o h w,
      )
      (record {
        held = held_twice s'.objects ref _ _ _ w.held;
        same_peers = w.same_peers;
        same_config = w.same_config;
        same_node = w.same_node;
        running = w.running;
      })

-- After one ping more than it has left unanswered, the peer is still tracked and still waited for.
unanswered :
    (now ref n : ℕ) (s : Heartbeat) (o : PeerHeartbeatState)
    → get_elem? s.objects ref ≡ some o
    → s.is_running ≡ true
    → o.is_leaving ≡ false
    → o.pending_ping ≡ false
    → o.missed_count ≡ 0
    → n < s.config.max_missed_heartbeats
    → Waiting s (pings now ref (suc n) s) ref n o
unfolding pings
unanswered now ref zero s o h r l p m bound =
    subst (λ k. Waiting s (ping_peer now ref s).0 ref k o) m
      (subst (λ r. Waiting s r.0 ref o.missed_count o) (sym (pinged_first now ref s o h r l p))
        (first_ping now ref s o h r))
unanswered now ref (suc n) s o h r l p m bound =
    subst (λ k. Waiting s (pings now ref (suc (suc n)) s) ref k o) (omega arith)
      (next_ping now ref n s (pings now ref (suc n) s) o l (omega arith)
        (unanswered now ref n s o h r l p m (omega arith)))

missed_reached :
    (now ref missed : ℕ) (s s' : Heartbeat) (o : PeerHeartbeatState)
    → s.config.max_missed_heartbeats ≤ missed + 1
    → Waiting s s' ref missed o
    → ((missed_ping now ref (record o { pending_ping = true; missed_count = missed }) s').1
        ≡ node_failed o.node_id ∷ [])
      × (lookup o.node_id
            (missed_ping now ref
              (record o { pending_ping = true; missed_count = missed })
              s').0.peer_states
          ≡ none)
unfolding missed_ping remove_peer
missed_reached now ref missed s s' o h w =
    rw (w.same_config)
      (ground (arith, lookup-delete o.node_id o.node_id s'.peer_states, eq_refl o.node_id))

fails_after :
    (now ref k bound : ℕ) (s : Heartbeat) (o : PeerHeartbeatState)
    → bound ≡ suc k
    → s.config.max_missed_heartbeats ≡ bound
    → get_elem? s.objects ref ≡ some o
    → s.is_running ≡ true
    → o.is_leaving ≡ false
    → o.pending_ping ≡ false
    → o.missed_count ≡ 0
    → ((ping_peer now ref (pings now ref bound s)).1 ≡ node_failed o.node_id ∷ [])
      × (lookup o.node_id (ping_peer now ref (pings now ref bound s)).0.peer_states ≡ none)
fails_after now ref k bound s o e c h r l p m =
    let w = unanswered now ref k s o h r l p m (omega arith) in
    rw
      (
        e,
        ping_held now ref (pings now ref (suc k) s)
            (record o { pending_ping = true; missed_count = k }) w.held w.running l,
      )
      (missed_reached now ref k s (pings now ref (suc k) s) o (omega arith) w)

-- While the manager runs, a peer that is not leaving, that nothing is pending for and that has missed
-- no ping, answers no ping either: with a bound of `max_missed_heartbeats`, which
-- is not zero, the ping after that many emits `node_failed` for it, and nothing else, and the peer
-- is not tracked any more.
pub fails_at_bound :
    (now ref : ℕ) (s : Heartbeat) (o : PeerHeartbeatState)
    → get_elem? s.objects ref ≡ some o
    → s.is_running ≡ true
    → o.is_leaving ≡ false
    → o.pending_ping ≡ false
    → o.missed_count ≡ 0
    → 0 < s.config.max_missed_heartbeats
    → ((ping_peer now ref (pings now ref s.config.max_missed_heartbeats s)).1
        ≡ node_failed o.node_id ∷ [])
      × (lookup o.node_id
            (ping_peer now ref (pings now ref s.config.max_missed_heartbeats s)).0.peer_states
          ≡ none)
fails_at_bound now ref s o h r l p m bound =
    fails_after now ref (s.config.max_missed_heartbeats - 1) s.config.max_missed_heartbeats s o
      (omega arith) refl h r l p m

-- Until then each ping goes out as a request to the peer, with the time and the node's own name.
pub no_failure_before :
    (now ref n : ℕ) (s : Heartbeat) (o : PeerHeartbeatState)
    → get_elem? s.objects ref ≡ some o
    → s.is_running ≡ true
    → o.is_leaving ≡ false
    → o.pending_ping ≡ false
    → o.missed_count ≡ 0
    → n < s.config.max_missed_heartbeats
    → (ping_peer now ref (pings now ref n s)).1
      ≡ request o.node_id (record { timestamp = now; sender_id = s.node_id }) ∷ []
unfolding pings send_ping
no_failure_before now ref zero s o h r l p m bound =
    ap (λ r. r.1) (pinged_first now ref s o h r l p)
no_failure_before now ref (suc n) s o h r l p m bound =
    let w = unanswered now ref n s o h r l p m (omega arith) in
    rw
      (
        ping_held now ref (pings now ref (suc n) s)
            (record o { pending_ping = true; missed_count = n }) w.held w.running l,
        missed_below now ref n s (pings now ref (suc n) s) o (omega arith) w,
        w.same_node,
      )
      refl

-- One round of a peer that answers: the ping, and its pong.
unfoldable pub rounds : ℕ → ℕ → String → ℕ → Heartbeat → Heartbeat
rounds now ref id zero s = s
rounds now ref id (suc n) s = receive_pong now id (ping_peer now ref (rounds now ref id n s)).0

-- A tracked peer that has answered.
pub record Answering (s s' : Heartbeat) (ref : ℕ) (o : PeerHeartbeatState) : Type 0 where
  pub time : ℕ
  pub held :
      get_elem? s'.objects ref
      ≡ some (record o { pending_ping = false; missed_count = 0; last_pong_time = time })
  pub same_peers : s'.peer_states ≡ s.peer_states
  pub same_config : s'.config ≡ s.config
  pub same_node : s'.node_id ≡ s.node_id
  pub running : s'.is_running ≡ true

ponged :
    (now ref : ℕ) (id : String) (s : Heartbeat) (o : PeerHeartbeatState)
    → lookup id s.peer_states ≡ some ref
    → get_elem? s.objects ref ≡ some o
    → receive_pong now id s ≡ record s {
      objects =
          set_object s.objects ref
            (record o { pending_ping = false; missed_count = 0; last_pong_time = now });
    }
unfolding receive_pong
ponged now ref id s o k h = rw (receive_pong, k, h) refl

next_round :
    (now ref : ℕ) (s s' : Heartbeat) (o : PeerHeartbeatState)
    → lookup o.node_id s.peer_states ≡ some ref
    → o.is_leaving ≡ false
    → Answering s s' ref o
    → Answering s (receive_pong now o.node_id (ping_peer now ref s').0) ref o
unfolding send_ping
next_round now ref s s' o k l w =
    let q = record o { pending_ping = true; missed_count = 0; last_pong_time = w.time } in
    let pinged = send_ping now ref (record q { pending_ping = false }) s' in
    let sent : get_elem? (set_object s'.objects ref q) ref ≡ some q =
      ground (arith, get_elem?-set_object s'.objects ref ref q, w.held) in
    rw
      (
        pinged_first now ref s' _ w.held w.running l refl,
        ponged now ref o.node_id pinged.0 q (ap (lookup o.node_id) w.same_peers ∙ k) sent,
      )
      (record {
        time = now;
        held = held_twice s'.objects ref _ _ _ w.held;
        same_peers = w.same_peers;
        same_config = w.same_config;
        same_node = w.same_node;
        running = w.running;
      })

rounds_lem :
    (now ref n : ℕ) (s : Heartbeat) (o : PeerHeartbeatState)
    → get_elem? s.objects ref ≡ some o
    → lookup o.node_id s.peer_states ≡ some ref
    → s.is_running ≡ true
    → o.is_leaving ≡ false
    → o.pending_ping ≡ false
    → o.missed_count ≡ 0
    → Answering s (rounds now ref o.node_id n s) ref o
unfolding rounds
rounds_lem now ref zero s o h k r l p m = record {
  time = o.last_pong_time;
  held =
      subst
        (λ k. get_elem? s.objects ref ≡ some (record o { pending_ping = false; missed_count = k }))
        m (subst (λ b. get_elem? s.objects ref ≡ some (record o { pending_ping = b })) p h);
  same_peers = refl;
  same_config = refl;
  same_node = refl;
  running = r;
}
rounds_lem now ref (suc n) s o h k r l p m =
    next_round now ref s (rounds now ref o.node_id n s) o k l (rounds_lem now ref n s o h k r l p m)

-- While the manager runs, a tracked peer that is not leaving, that nothing is pending for, that has
-- missed no ping and that answers every ping in time, is never failed, however many rounds there
-- are: the next ping is again a request to it, and it is still tracked.
pub answering_peer_lives :
    (now ref n : ℕ) (s : Heartbeat) (o : PeerHeartbeatState)
    → get_elem? s.objects ref ≡ some o
    → lookup o.node_id s.peer_states ≡ some ref
    → s.is_running ≡ true
    → o.is_leaving ≡ false
    → o.pending_ping ≡ false
    → o.missed_count ≡ 0
    → ((ping_peer now ref (rounds now ref o.node_id n s)).1
        ≡ request o.node_id (record { timestamp = now; sender_id = s.node_id }) ∷ [])
      × (lookup o.node_id (ping_peer now ref (rounds now ref o.node_id n s)).0.peer_states
          ≡ some ref)
unfolding send_ping
answering_peer_lives now ref n s o h k r l p m =
    let w = rounds_lem now ref n s o h k r l p m in
    rw
      (
        pinged_first now ref (rounds now ref o.node_id n s) _ w.held w.running l refl,
        w.same_peers,
        w.same_node,
      )
      (refl, k)
