-- ===== src/Supervision/Reachable.antt =====
-- The states that the operations of src/actor_system.ts can reach, crashes included.
use libeam.Shared.{ℕ, Bool, false, String, List, [], ◌∷◌, none, some, ◌≡◌}
use libeam.Shared.Table.{nothing}
use libeam.ActorSystem.{
  ActorRef, ActorClass, Actor, Cause, WatchRef, LinkRef, SpawnOptions, System, spawn, spawn_child,
  set_trap_exit,
}
use libeam.ActorSystem.Watching.{watch, unwatch}
use libeam.ActorSystem.Linking.{link, unlink, send_exit}
use libeam.ActorSystem.Frame.{unwatch-Quiet, unlink-Quiet}
use libeam.ActorSystem.Tree.{Nested}
use libeam.ActorSystem.Nesting.{
  landed, Nested-Quiet, spawn-Nested, spawn_child-Nested, watch-Nested, link-Nested,
  set_trap_exit-Nested,
}
use libeam.Supervision.{SupervisionOptions, stop_now, handle_crash}
use libeam.Supervision.Nesting.{stop_now-Nested, handle_crash-Nested, send_exit-Nested}

-- What an actor, its code or a user of the system can ask for. A crash is at a time.
pub data Operation : Type 0 where
  spawn_root : ActorClass → SpawnOptions → Operation
  spawn_under_parent : ActorRef → ActorClass → SpawnOptions → Operation
  watch_actor : ActorRef → ActorRef → Operation
  unwatch_actor : WatchRef → Operation
  link_two : ActorRef → ActorRef → Operation
  unlink_two : LinkRef → Operation
  trap_exits : ℕ → Bool → Operation
  stop_one : ActorRef → Operation
  signal_exit : ℕ → ActorRef → ActorRef → String → Operation
  crash_actor : ℕ → ActorRef → Cause → Operation

-- The fuel that crashes are given is an argument.
unfoldable pub perform : SupervisionOptions → ℕ → Operation → System → System
perform options fuel (spawn_root cls opts) s = landed s (spawn cls opts s)
perform options fuel (spawn_under_parent p cls opts) s = landed s (spawn_child p cls opts s)
perform options fuel (watch_actor r q) s = (watch r q s).0
perform options fuel (unwatch_actor r) s = unwatch r s
perform options fuel (link_two r q) s = landed s (link r q s)
perform options fuel (unlink_two r) s = unlink r s
perform options fuel (trap_exits id trap) s = set_trap_exit id trap s
perform options fuel (stop_one r) s = stop_now r s
perform options fuel (signal_exit now r q reason) s =
    send_exit (handle_crash now options fuel) stop_now r q reason s
perform options fuel (crash_actor now r cause) s = handle_crash now options fuel r cause s

unfoldable pub perform_all : SupervisionOptions → ℕ → List Operation → System → System
unfolding perform
perform_all options fuel [] s = s
perform_all options fuel (o ∷ os) s = perform_all options fuel os (perform options fuel o s)

-- The system as its constructor leaves it.
abbrev pub empty_system : System
empty_system = record {
  next_id = 0;
  closing = false;
  actors = nothing;
  actor_metadata = nothing;
  watches = nothing;
  watched_by = nothing;
  links = nothing;
  linked_with = nothing;
  restart_counts = nothing;
  child_restart_counts = λ key. none;
  log = [];
}

perform-Nested :
    (options : SupervisionOptions) (fuel : ℕ) (o : Operation) (s : System)
    → Nested s
    → Nested (perform options fuel o s)
unfolding perform
perform-Nested options fuel (spawn_root cls opts) s n = spawn-Nested cls opts s n
perform-Nested options fuel (spawn_under_parent p cls opts) s n = spawn_child-Nested p cls opts s n
perform-Nested options fuel (watch_actor r q) s n = watch-Nested r q s n
perform-Nested options fuel (unwatch_actor r) s n =
    Nested-Quiet s (unwatch r s) (unwatch-Quiet r s) n
perform-Nested options fuel (link_two r q) s n = link-Nested r q s n
perform-Nested options fuel (unlink_two r) s n = Nested-Quiet s (unlink r s) (unlink-Quiet r s) n
perform-Nested options fuel (trap_exits id trap) s n = set_trap_exit-Nested id trap s n
perform-Nested options fuel (stop_one r) s n = stop_now-Nested r s n
perform-Nested options fuel (signal_exit now r q reason) s n =
    send_exit-Nested (handle_crash now options fuel) r q reason s
      (λ x c t. handle_crash-Nested now options fuel x c t) n
perform-Nested options fuel (crash_actor now r cause) s n =
    handle_crash-Nested now options fuel r cause s n

perform_all-keeps :
    (options : SupervisionOptions) (fuel : ℕ) (os : List Operation) (s : System)
    → Nested s
    → Nested (perform_all options fuel os s)
unfolding perform_all
perform_all-keeps options fuel [] s n = n
perform_all-keeps options fuel (o ∷ os) s n =
    perform_all-keeps options fuel os (perform options fuel o s) (perform-Nested options fuel o s n)

-- Whatever operations have been performed since the system was made, whatever crashed, every
-- actor has an identifier that was given out, and every child in its set of children was spawned
-- after it: no actor is ever below itself.
pub perform_all-Nested :
    (options : SupervisionOptions) (fuel : ℕ) (os : List Operation)
    → Nested (perform_all options fuel os empty_system)
perform_all-Nested options fuel os =
    perform_all-keeps options fuel os empty_system (λ i a e. absurd (no e))
  where
    no : {a : Actor} → none ≡ some a → ⊥
    no e = cc
