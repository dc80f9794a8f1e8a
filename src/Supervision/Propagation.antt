-- ===== src/Supervision/Propagation.antt =====
-- A crash that passes along links comes to an end: each step of the way uses up a link.
use libeam.Shared.{
  ℕ, zero, suc, Bool, true, false, List, [], ◌∷◌, Option, none, some, ◌==◌, if◌then◌else◌,
}
use libeam.Shared.Table.{remove}
use libeam.ActorSystem.{
  ActorRef, Actor, ActorMetadata, Cause, Reason, error, killed, Strategy, one_for_one, one_for_all,
  rest_for_one, RestartRecord, RestartKey, System, spawn_child,
}
use libeam.ActorSystem.Watching.{notify_watchers}
use libeam.ActorSystem.Linking.{notify_linked_actors}
use libeam.ActorSystem.Nesting.{landed}
use libeam.ActorSystem.Cuts.{
  Cuts, Cuts-refl, Cuts-trans, notify_watchers-Cuts, notify_linked_actors-Cuts, stop-Cuts,
  spawn_child-Cuts, restart-Cuts,
}
use libeam.Supervision.{
  SupervisionStrategy, restart_actor, stop_actor, SupervisionOptions, can_restart, get_restart_key,
  stop_now, give_up, stop_reverse, metadata_of, respawn_each, restart_each, from_id, apply_strategy,
  set_child_count, parent_of, supervise_child, handle_child_crash, root_strategy, handle_root_crash,
  supervise, handle_crash,
}

stop_reverse-Cuts : (refs : List ActorRef) (s : System) → Cuts s (stop_reverse refs s)
unfolding stop_reverse
stop_reverse-Cuts [] s = Cuts-refl s
stop_reverse-Cuts (r ∷ refs) s =
    Cuts-trans s (stop_reverse refs s) (stop_now r (stop_reverse refs s)) (stop_reverse-Cuts refs s)
      (stop-Cuts (stop_reverse refs s).next_id r (stop_reverse refs s))

respawn_each-Cuts :
    (parent : ActorRef) (ms : List (Option ActorMetadata)) (s : System)
    → Cuts s (respawn_each parent ms s)
unfolding respawn_each
respawn_each-Cuts parent [] s = Cuts-refl s
respawn_each-Cuts parent (none ∷ ms) s = respawn_each-Cuts parent ms s
respawn_each-Cuts parent (some m ∷ ms) s =
    go (spawn_child parent m.actor_class m.options s)
      (spawn_child-Cuts parent m.actor_class m.options s) (λ t. respawn_each-Cuts parent ms t)
  where
    go :
        (o : Option (System × ActorRef))
        → Cuts s (landed s o)
        → ((t : System) → Cuts t (respawn_each parent ms t))
        → Cuts s (elim o [ none ↦ s | some (spawned, ref) ↦ respawn_each parent ms spawned ])
    go none h ih = Cuts-refl s
    go (some (t, ref)) h ih = Cuts-trans s t (respawn_each parent ms t) h (ih t)

restart_each-Cuts :
    (parent : ActorRef) (refs : List ActorRef) (s : System) → Cuts s (restart_each parent refs s)
unfolding restart_each
restart_each-Cuts parent refs s =
    Cuts-trans s (stop_reverse refs s)
      (respawn_each parent (metadata_of s refs) (stop_reverse refs s)) (stop_reverse-Cuts refs s)
      (respawn_each-Cuts parent (metadata_of s refs) (stop_reverse refs s))

apply_strategy-Cuts :
    (strategy : Strategy) (ref : ActorRef) (parent : Actor) (s : System)
    → Cuts s (apply_strategy strategy ref parent s)
apply_strategy-Cuts one_for_one ref parent s = restart-Cuts ref s
apply_strategy-Cuts one_for_all ref parent s = restart_each-Cuts parent.self parent.child_order s
apply_strategy-Cuts rest_for_one ref parent s =
    restart_each-Cuts parent.self (from_id ref.id parent.child_order) s

module _ (now : ℕ) (crash : ActorRef → Cause → System → System)
    (cuts : (r : ActorRef) (c : Cause) (s : System) → Cuts s (crash r c s)) where
  supervise-Cuts :
      (options : SupervisionOptions) (ref : ActorRef) (cause : Cause) (p : Option ActorRef)
      (s : System)
      → Cuts s (supervise now crash options ref cause p s)
  unfolding handle_child_crash handle_root_crash
  supervise-Cuts options ref cause p s = go p
    where
      gave_up : (reason : Reason) (t : System) → Cuts t (give_up crash ref reason t)
      gave_up reason t =
          let told = notify_watchers ref reason t in
          let passed = notify_linked_actors crash ref reason told in
          Cuts-trans t told (stop_now ref passed) (notify_watchers-Cuts ref reason t) (
            Cuts-trans told passed (stop_now ref passed)
              (notify_linked_actors-Cuts crash cuts ref reason told)
              (stop-Cuts passed.next_id ref passed))

      decided :
          (a : Actor) (key : RestartKey) (answer : Option RestartRecord × Bool)
          → Cuts s (
              if answer.1
              then apply_strategy a.actor_class.child_supervision.strategy ref a
                  (set_child_count key answer.0 s)
              else give_up crash ref killed (set_child_count key answer.0 s))
      decided a key (r, true) =
          apply_strategy-Cuts a.actor_class.child_supervision.strategy ref a
            (set_child_count key r s)
      decided a key (r, false) = gave_up killed (set_child_count key r s)

      child :
          (parent : ActorRef) (o : Option Actor)
          → Cuts s (supervise_child now crash ref o (get_restart_key ref.id parent.id s) s)
      child parent none = Cuts-refl s
      child parent (some a) =
          let options = a.actor_class.child_supervision in
          let key = get_restart_key ref.id parent.id s in
          decided a key
            (can_restart now options.max_restarts options.period_ms (s.child_restart_counts key))

      strategy : (t : SupervisionStrategy) (u : System) → Cuts u (root_strategy crash t ref cause u)
      strategy restart_actor u = restart-Cuts ref u
      strategy stop_actor u = gave_up (error cause) u

      root :
          (answer : Option RestartRecord × Bool)
          → Cuts s (
              if answer.1
              then root_strategy crash options.strategy ref cause (record s {
                restart_counts =
                    λ asked. if ref.id == asked then answer.0 else s.restart_counts asked;
              })
              else (let stopped = give_up crash ref killed s in
                  record stopped { restart_counts = remove ref.id stopped.restart_counts }))
      root (r, true) = strategy options.strategy (record s {
        restart_counts = λ asked. if ref.id == asked then r else s.restart_counts asked;
      })
      root (r, false) = gave_up killed s

      go : (q : Option ActorRef) → Cuts s (supervise now crash options ref cause q s)
      go none =
          root (can_restart now options.max_restarts options.period_ms (s.restart_counts ref.id))
      go (some parent) = child parent (s.actors parent.id)

pub handle_crash-Cuts :
    (now : ℕ) (options : SupervisionOptions) (fuel : ℕ) (ref : ActorRef) (cause : Cause)
    (s : System)
    → Cuts s (handle_crash now options fuel ref cause s)
unfolding handle_crash
handle_crash-Cuts now options zero ref cause s = Cuts-refl s
handle_crash-Cuts now options (suc fuel) ref cause s =
    supervise-Cuts now (handle_crash now options fuel)
      (λ r c t. handle_crash-Cuts now options fuel r c t) options ref cause
      (parent_of (s.actor_metadata ref.id)) s
