-- ===== src/Supervision/Nesting.antt =====
-- Whatever is done with a crashed actor in src/supervisor.ts and src/child_supervisor.ts, children
-- stay younger than their parents.
use libeam.Shared.{
  ℕ, zero, suc, Bool, true, false, List, [], ◌∷◌, Option, none, some, arith, if◌then◌else◌, String,
  ◌==◌, str_eq,
}
use libeam.Shared.Table.{remove}
use libeam.ActorSystem.{
  ActorRef, LinkRef, Cause, linked_actor, exit_signal, Reason, error, killed, Strategy, one_for_one,
  one_for_all, rest_for_one, Actor, ActorMetadata, LinkEntry, System, RestartRecord, RestartKey,
  spawn_child,
}
use libeam.ActorSystem.Watching.{notify_watchers}
use libeam.ActorSystem.Linking.{
  unlink, send_exit_message, kind, abnormal, other_end, pass_exit, notify_link, notify_links,
  notify_link_set, notify_linked_actors, signal, send_exit,
}
use libeam.ActorSystem.Frame.{unlink-Quiet, send_exit_message-Quiet, notify_watchers-Quiet}
use libeam.ActorSystem.Tree.{Nested, Nested-Pruned}
use libeam.ActorSystem.Removal.{stop-Stops}
use libeam.ActorSystem.Nesting.{Nested-Quiet, landed, spawn_child-Nested, restart-Nested}
use libeam.Supervision.{
  SupervisionStrategy, restart_actor, stop_actor, SupervisionOptions, can_restart, get_restart_key,
  stop_now, give_up, stop_reverse, metadata_of, respawn_each, restart_each, from_id, apply_strategy,
  set_child_count, parent_of, supervise_child, handle_child_crash, root_strategy, handle_root_crash,
  supervise, handle_crash,
}

pub stop_now-Nested : (ref : ActorRef) (s : System) → Nested s → Nested (stop_now ref s)
stop_now-Nested ref s n =
    let (pruned, dead) = stop-Stops s.next_id ref s n (omega arith) in
    Nested-Pruned ref.id s (stop_now ref s) pruned n

stop_reverse-Nested : (refs : List ActorRef) (s : System) → Nested s → Nested (stop_reverse refs s)
unfolding stop_reverse
stop_reverse-Nested [] s n = n
stop_reverse-Nested (r ∷ refs) s n =
    stop_now-Nested r (stop_reverse refs s) (stop_reverse-Nested refs s n)

respawn_each-Nested :
    (parent : ActorRef) (ms : List (Option ActorMetadata)) (s : System)
    → Nested s
    → Nested (respawn_each parent ms s)
unfolding respawn_each
respawn_each-Nested parent [] s n = n
respawn_each-Nested parent (none ∷ ms) s n = respawn_each-Nested parent ms s n
respawn_each-Nested parent (some m ∷ ms) s n =
    go (spawn_child parent m.actor_class m.options s)
      (spawn_child-Nested parent m.actor_class m.options s n) (λ t. respawn_each-Nested parent ms t)
  where
    go :
        (o : Option (System × ActorRef))
        → Nested (landed s o)
        → ((t : System) → Nested t → Nested (respawn_each parent ms t))
        → Nested (elim o [ none ↦ s | some (spawned, ref) ↦ respawn_each parent ms spawned ])
    go none n ih = n
    go (some (spawned, ref)) n ih = ih spawned n

restart_each-Nested :
    (parent : ActorRef) (refs : List ActorRef) (s : System)
    → Nested s
    → Nested (restart_each parent refs s)
unfolding restart_each
restart_each-Nested parent refs s n =
    respawn_each-Nested parent (metadata_of s refs) (stop_reverse refs s)
      (stop_reverse-Nested refs s n)

apply_strategy-Nested :
    (strategy : Strategy) (ref : ActorRef) (parent : Actor) (s : System)
    → Nested s
    → Nested (apply_strategy strategy ref parent s)
apply_strategy-Nested one_for_one ref parent s n = restart-Nested ref s n
apply_strategy-Nested one_for_all ref parent s n =
    restart_each-Nested parent.self parent.child_order s n
apply_strategy-Nested rest_for_one ref parent s n =
    restart_each-Nested parent.self (from_id ref.id parent.child_order) s n

module _ (crash : ActorRef → Cause → System → System)
    (keeps : (r : ActorRef) (c : Cause) (s : System) → Nested s → Nested (crash r c s)) where
  pass_exit-Nested :
      (r : LinkRef) (ref other : ActorRef) (reason : Reason) (o : Option Actor) (s : System)
      → Nested s
      → Nested (pass_exit crash r ref other reason o s)
  pass_exit-Nested r ref other reason none s n = n
  pass_exit-Nested r ref other reason (some a) s n = go a.trap_exit (abnormal reason)
    where
      go :
          (x y : Bool)
          → Nested (
              if x
              then send_exit_message (some r) ref other.id reason s
              else (if y then crash other (linked_actor ref.id (kind reason)) s else s))
      go true y =
          Nested-Quiet s (send_exit_message (some r) ref other.id reason s)
            (send_exit_message-Quiet (some r) ref other.id reason s) n
      go false true = keeps other (linked_actor ref.id (kind reason)) s n
      go false false = n

  notify_link-Nested :
      (ref : ActorRef) (reason : Reason) (o : Option LinkEntry) (s : System)
      → Nested s
      → Nested (notify_link crash ref reason o s)
  notify_link-Nested ref reason none s n = n
  notify_link-Nested ref reason (some e) s n =
      let cut = unlink e.link_ref s in
      pass_exit-Nested e.link_ref ref (other_end ref e) reason (cut.actors (other_end ref e).id) cut
        (Nested-Quiet s cut (unlink-Quiet e.link_ref s) n)

  notify_links-Nested :
      (ref : ActorRef) (reason : Reason) (ids : List ℕ) (s : System)
      → Nested s
      → Nested (notify_links crash ref reason ids s)
  unfolding notify_links
  notify_links-Nested ref reason [] s n = n
  notify_links-Nested ref reason (i ∷ ids) s n =
      notify_links-Nested ref reason ids (notify_link crash ref reason (s.links i) s)
        (notify_link-Nested ref reason (s.links i) s n)

  pub notify_linked_actors-Nested :
      (ref : ActorRef) (reason : Reason) (s : System)
      → Nested s
      → Nested (notify_linked_actors crash ref reason s)
  unfolding notify_linked_actors
  notify_linked_actors-Nested ref reason s n = go (s.linked_with ref.id)
    where
      go : (o : Option (List ℕ)) → Nested (notify_link_set crash ref reason o s)
      go none = n
      go (some ids) = notify_links-Nested ref reason ids s n

  give_up-Nested :
      (ref : ActorRef) (reason : Reason) (s : System)
      → Nested s
      → Nested (give_up crash ref reason s)
  give_up-Nested ref reason s n =
      let told = notify_watchers ref reason s in
      stop_now-Nested ref (notify_linked_actors crash ref reason told) (
        notify_linked_actors-Nested ref reason told
          (Nested-Quiet s told (notify_watchers-Quiet ref reason s) n))

  handle_child_crash-Nested :
      (now : ℕ) (ref parent : ActorRef) (s : System)
      → Nested s
      → Nested (handle_child_crash now crash ref parent s)
  unfolding handle_child_crash
  handle_child_crash-Nested now ref parent s n = go (s.actors parent.id)
    where
      key : RestartKey
      key = get_restart_key ref.id parent.id s

      decided :
          (a : Actor) (r : Option RestartRecord) (allowed : Bool)
          → Nested (
              if allowed
              then apply_strategy a.actor_class.child_supervision.strategy ref a
                  (set_child_count key r s)
              else give_up crash ref killed (set_child_count key r s))
      decided a r true =
          apply_strategy-Nested a.actor_class.child_supervision.strategy ref a
            (set_child_count key r s) n
      decided a r false = give_up-Nested ref killed (set_child_count key r s) n

      go : (o : Option Actor) → Nested (supervise_child now crash ref o key s)
      go none = n
      go (some a) =
          let options = a.actor_class.child_supervision in
          let answer =
            can_restart now options.max_restarts options.period_ms (s.child_restart_counts key) in
          decided a answer.0 answer.1

  handle_root_crash-Nested :
      (now : ℕ) (options : SupervisionOptions) (ref : ActorRef) (cause : Cause) (s : System)
      → Nested s
      → Nested (handle_root_crash now crash options ref cause s)
  unfolding handle_root_crash
  handle_root_crash-Nested now options ref cause s n =
      let answer =
        can_restart now options.max_restarts options.period_ms (s.restart_counts ref.id) in
      go answer.0 answer.1
    where
      strategy :
          (t : SupervisionStrategy) (u : System)
          → Nested u
          → Nested (root_strategy crash t ref cause u)
      strategy restart_actor u n = restart-Nested ref u n
      strategy stop_actor u n = give_up-Nested ref (error cause) u n

      go :
          (r : Option RestartRecord) (allowed : Bool)
          → Nested (
              if allowed
              then root_strategy crash options.strategy ref cause (record s {
                restart_counts = λ asked. if ref.id == asked then r else s.restart_counts asked;
              })
              else (let stopped = give_up crash ref killed s in
                  record stopped { restart_counts = remove ref.id stopped.restart_counts }))
      go r true =
          strategy options.strategy
            (record s {
              restart_counts = λ asked. if ref.id == asked then r else s.restart_counts asked;
            })
            n
      go r false = give_up-Nested ref killed s n

  supervise-Nested :
      (now : ℕ) (options : SupervisionOptions) (ref : ActorRef) (cause : Cause)
      (p : Option ActorRef) (s : System)
      → Nested s
      → Nested (supervise now crash options ref cause p s)
  supervise-Nested now options ref cause (some p) s n = handle_child_crash-Nested now ref p s n
  supervise-Nested now options ref cause none s n =
      handle_root_crash-Nested now options ref cause s n

pub handle_crash-Nested :
    (now : ℕ) (options : SupervisionOptions) (fuel : ℕ) (ref : ActorRef) (cause : Cause)
    (s : System)
    → Nested s
    → Nested (handle_crash now options fuel ref cause s)
unfolding handle_crash
handle_crash-Nested now options zero ref cause s n = n
handle_crash-Nested now options (suc fuel) ref cause s n =
    supervise-Nested (handle_crash now options fuel)
      (λ r c t. handle_crash-Nested now options fuel r c t) now options ref cause
      (parent_of (s.actor_metadata ref.id)) s n

pub send_exit-Nested :
    (crash : ActorRef → Cause → System → System) (sender target : ActorRef) (reason : String)
    (s : System)
    → ((r : ActorRef) (c : Cause) (t : System) → Nested t → Nested (crash r c t))
    → Nested s
    → Nested (send_exit crash stop_now sender target reason s)
unfolding send_exit
send_exit-Nested crash sender target reason s keeps n = go (s.actors target.id)
  where
    chosen :
        (a : Actor) (x y : Bool)
        → Nested (
            if x
            then s
            else (if y
                then stop_now target s
                else (if a.trap_exit
                    then send_exit_message none sender target.id killed s
                    else crash target (exit_signal sender.id reason) s)))
    chosen a true y = n
    chosen a false true = stop_now-Nested target s n
    chosen a false false = trapped a.trap_exit
      where
        trapped :
            (z : Bool)
            → Nested (
                if z
                then send_exit_message none sender target.id killed s
                else crash target (exit_signal sender.id reason) s)
        trapped true =
            Nested-Quiet s (send_exit_message none sender target.id killed s)
              (send_exit_message-Quiet none sender target.id killed s) n
        trapped false = keeps target (exit_signal sender.id reason) s n

    go : (o : Option Actor) → Nested (signal crash stop_now sender target reason o s)
    go none = n
    go (some a) = chosen a (str_eq reason "normal") (str_eq reason "kill")
