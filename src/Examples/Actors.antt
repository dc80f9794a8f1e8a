-- ===== src/Examples/Actors.antt =====
-- Runs of the actors of one node, of src/actor_system.ts, src/supervisor.ts and
-- src/child_supervisor.ts.
use libeam.Shared.{
  inr, ◌<◌, ◌++◌, subst, ℕ, String, true, false, List, [], ◌∷◌, none, some, ◌≡◌, refl, inl, arith,
}
use libeam.Shared.Dict.{is_some}
use libeam.Supervision.Orphans.{restart-orphans}
use libeam.Shared.Table.{set_of}
use libeam.ActorSystem.{
  ActorRef, ActorClass, Actor, SpawnOptions, thrown, normal, killed, one_for_one, System, spawn,
  spawn_child,
}
use libeam.ActorSystem.Watching.{watch, unwatch, notify_watchers, unwatch_all}
use libeam.ActorSystem.Linking.{link, unlink_all}
use libeam.ActorSystem.Stopping.{leave_parent, remove_actor, stop, stop_single, restart}
use libeam.ActorSystem.Tree.{In, Nested}
use libeam.Supervision.Order.{HasOrder, restart_each-respawns}
use libeam.ActorSystem.Removal.{stop-removes-Descent, stop-terminates}
use libeam.ActorSystem.Watches.{tell_each}
use libeam.ActorSystem.WatchSets.{Agree}
use libeam.ActorSystem.Answers.{notify_watchers-once, watching-Agree, unwatch-watch}
use libeam.Supervision.{restart_each, stop_reverse}
use libeam.Supervision.{
  SupervisionOptions, restart_actor, stop_actor, can_restart, get_restart_key, handle_child_crash,
  handle_crash,
}
use libeam.Supervision.Reachable.{
  Operation, spawn_root, spawn_under_parent, watch_actor, link_two, crash_actor, perform,
  perform_all, empty_system, perform_all-Nested,
}
use libeam.Supervision.Windows.{restarts, can_restart-window, handle_crash-exceeded}
use libeam.Supervision.RootRestarts.{Untried, crash_loop, crash_loop-restarts}
use libeam.Supervision.Enough.{LinksBelow, link-LinksBelow, handle_crash-terminates}

abbrev sup : SupervisionOptions
sup = record { strategy = restart_actor; max_restarts = 3; period_ms = 5000 }

abbrev parent_class : ActorClass
parent_class = record {
  class_name = "Parent";
  child_supervision = record { strategy = one_for_one; max_restarts = 2; period_ms = 100 };
}

abbrev worker : ActorClass
worker = record {
  class_name = "Worker";
  child_supervision = record { strategy = one_for_one; max_restarts = 3; period_ms = 5000 };
}

abbrev named : String → SpawnOptions
named name = record { name = some name; args = none }

abbrev ref_to : ℕ → String → ActorRef
ref_to id name = record { handle = id; id = id; name = some name }

-- The root actor 0, its child 1, the child's child 2, another root actor 3 that watches 1.
abbrev family : List Operation
family =
    spawn_root parent_class (named "top")
    ∷ spawn_under_parent (ref_to 0 "top") worker (named "middle")
    ∷ spawn_under_parent (ref_to 1 "middle") worker (named "leaf")
    ∷ spawn_root worker (named "other")
    ∷ watch_actor (ref_to 3 "other") (ref_to 1 "middle")
    ∷ []

abbrev grown : System
grown = perform_all sup 5 family empty_system

grown-Nested : Nested grown
grown-Nested = perform_all-Nested sup 5 family

perform_all-Nested_example : Nested (perform_all sup 5 family empty_system)
perform_all-Nested_example = perform_all-Nested sup 5 family

abbrev top_actor : Actor
top_actor = record {
  self = ref_to 0 "top";
  actor_class = parent_class;
  parent = none;
  children = ref_to 1 "middle" ∷ [];
  child_order = ref_to 1 "middle" ∷ [];
  watches = [];
  links = [];
  trap_exit = false;
}

abbrev middle_actor : Actor
middle_actor = record {
  self = ref_to 1 "middle";
  actor_class = worker;
  parent = some (ref_to 0 "top");
  children = ref_to 2 "leaf" ∷ [];
  child_order = ref_to 2 "leaf" ∷ [];
  watches = [];
  links = [];
  trap_exit = false;
}

stop-removes-Descent_example :
    ((stop 6 (ref_to 1 "middle") grown).actors 2 ≡ none)
    × ((b : Actor) × ((stop 6 (ref_to 1 "middle") grown).actors 0 ≡ some b))
unfolding perform_all perform spawn spawn_child watch
stop-removes-Descent_example =
    stop-removes-Descent 6 (ref_to 1 "middle") grown (ref_to 2 "leaf" ∷ []) 0 top_actor grown-Nested
      (omega arith) ((middle_actor, refl, inl refl), tt) (omega arith) refl

stop-terminates_example : stop 4 (ref_to 1 "middle") grown ≡ stop 9 (ref_to 1 "middle") grown
unfolding perform_all perform spawn spawn_child watch
stop-terminates_example =
    stop-terminates 4 9 (ref_to 1 "middle") grown grown-Nested (omega arith) (omega arith)

can_restart-window_example :
    (restarts 3 100 (10 ∷ 20 ∷ 20 ∷ 30 ∷ 110 ∷ []) none ≡ 3)
    × ((can_restart 111 3 100 (some (record { count = 3; timestamp = 10 }))).1 ≡ true)
can_restart-window_example =
    can_restart-window 3 100 10 111 (20 ∷ 20 ∷ 30 ∷ 110 ∷ []) (record { count = 3; timestamp = 10 })
      (omega arith, (omega arith, (omega arith, (omega arith, tt)))) (omega arith) (omega arith)

-- The child has crashed twice, at 10 and 15, and is now under the identifier 3.
abbrev wear : List Operation
wear =
    spawn_root parent_class (named "top")
    ∷ spawn_under_parent (ref_to 0 "top") worker (named "middle")
    ∷ crash_actor 10 (ref_to 1 "middle") (thrown "a")
    ∷ crash_actor 15 (ref_to 2 "middle") (thrown "b")
    ∷ []

abbrev worn : System
worn = perform_all sup 5 wear empty_system

handle_crash-exceeded_example :
    let t = handle_crash 20 sup 5 (ref_to 3 "middle") (thrown "c") worn in
    (t.actors 3 ≡ none) × (t.next_id ≡ worn.next_id) × (t.actors 4 ≡ none)
unfolding perform_all perform spawn spawn_child watch handle_crash handle_child_crash can_restart
    get_restart_key restart stop_single leave_parent unwatch_all unlink_all remove_actor
handle_crash-exceeded_example =
    handle_crash-exceeded 20 4 sup (ref_to 3 "middle") (ref_to 0 "top") (thrown "c") worn
      (record { actor_class = worker; options = named "middle"; parent = some (ref_to 0 "top") })
      (record top_actor { children = ref_to 3 "middle" ∷ []; child_order = ref_to 3 "middle" ∷ [] })
      (record { count = 2; timestamp = 10 }) 4 (perform_all-Nested sup 5 wear) refl refl refl refl
      (omega arith) (omega arith) refl refl

abbrev lone : System
lone = perform_all sup 5 (spawn_root worker (named "lone") ∷ []) empty_system

-- Five crashes within five milliseconds, where three restarts in five seconds are allowed.
crash_loop-restarts_example :
    let after =
      crash_loop sup
        (named "lone")
        0
        ((1, thrown "a")
          ∷ (2, thrown "b")
          ∷ (3, thrown "c")
          ∷ (4, thrown "d")
          ∷ (5, thrown "e")
          ∷ [])
        (ref_to 0 "lone")
        lone in
    Untried worker (named "lone") after.1 after.0 × (after.0.next_id ≡ 6)
unfolding perform_all perform spawn
crash_loop-restarts_example =
    crash_loop-restarts sup worker (named "lone") 0
      ((1, thrown "a") ∷ (2, thrown "b") ∷ (3, thrown "c") ∷ (4, thrown "d") ∷ (5, thrown "e") ∷ [])
      (ref_to 0 "lone") lone refl (omega arith)
      (
        (
          record top_actor {
            self = ref_to 0 "lone";
            actor_class = worker;
            children = [];
            child_order = [];
          },
          refl,
          refl,
        ),
        refl,
        refl,
        omega arith,
        refl,
        λ i l. refl,
      )

-- Two actors and a link between them.
abbrev pair : System
pair =
    perform_all sup 5
      (spawn_root worker (named "one")
        ∷ spawn_root worker (named "two")
        ∷ link_two (ref_to 0 "one") (ref_to 1 "two")
        ∷ [])
      empty_system

pair-LinksBelow : LinksBelow 3 pair
unfolding perform_all perform spawn link
pair-LinksBelow =
    link-LinksBelow (ref_to 0 "one") (ref_to 1 "two")
      (perform_all sup 5 (spawn_root worker (named "one") ∷ spawn_root worker (named "two") ∷ [])
        empty_system)
      pair (record { id = 2; actor1_id = 0; actor2_id = 1 }) refl (λ i e q. absurd (cc))

handle_crash-terminates_example :
    handle_crash 7 (record sup { strategy = stop_actor }) 2 (ref_to 0 "one") (thrown "a") pair
    ≡ handle_crash 7 (record sup { strategy = stop_actor }) 9 (ref_to 0 "one") (thrown "a") pair
unfolding perform_all perform spawn link
handle_crash-terminates_example =
    handle_crash-terminates 7 (record sup { strategy = stop_actor }) 3 2 9 (ref_to 0 "one")
      (thrown "a") pair pair-LinksBelow (omega arith) (omega arith)

-- The actor 1 with a watch by the actor 0.
abbrev alone : System
alone =
    perform_all sup 5 (spawn_root worker (named "one") ∷ spawn_root worker (named "two") ∷ [])
      empty_system

alone-Agree : Agree alone
unfolding perform_all perform spawn
alone-Agree = (λ i e q. absurd (cc), λ k. tt, λ k i m. absurd (cc))

abbrev watched : System
watched = (watch (ref_to 0 "one") (ref_to 1 "two") alone).0

watching-Agree_example :
    Agree (watch (ref_to 0 "one") (ref_to 1 "two") alone).0
    × Agree (unwatch (record { id = 9; watcher_id = 0; watched_id = 1 }) alone)
    × Agree (notify_watchers (ref_to 1 "two") killed alone)
unfolding perform_all perform spawn
watching-Agree_example =
    watching-Agree (ref_to 0 "one") (ref_to 1 "two") (ref_to 1 "two")
      (record { id = 9; watcher_id = 0; watched_id = 1 }) killed alone alone-Agree
      (λ e q. absurd (cc))

unwatch-watch_example :
    ((unwatch (watch (ref_to 0 "one") (ref_to 1 "two") alone).1 watched).watches 2 ≡ none)
    × (set_of ((unwatch (watch (ref_to 0 "one") (ref_to 1 "two") alone).1 watched).watched_by 2)
        ≡ [])
unfolding perform_all perform spawn
unwatch-watch_example = unwatch-watch (ref_to 0 "one") (ref_to 1 "two") alone 2 alone-Agree

watched-Agree : Agree watched
unfolding perform_all perform spawn
watched-Agree =
    (watching-Agree (ref_to 0 "one") (ref_to 1 "two") (ref_to 1 "two")
      (record { id = 9; watcher_id = 0; watched_id = 1 }) killed alone alone-Agree
      (λ e q. absurd (cc))).0

notify_watchers-once_example :
    ((notify_watchers (ref_to 1 "two") killed watched).log
      ≡ tell_each (set_of (watched.watched_by 1)) (ref_to 1 "two") killed watched watched.log)
    × ((notify_watchers (ref_to 1 "two") killed watched).watches 2 ≡ none)
    × ((notify_watchers
          (ref_to 1 "two")
          normal
          (notify_watchers (ref_to 1 "two") killed watched)).log
        ≡ (notify_watchers (ref_to 1 "two") killed watched).log)
unfolding perform_all perform spawn watch
notify_watchers-once_example =
    notify_watchers-once (ref_to 1 "two") killed normal watched 2 watched-Agree

-- A parent with two children.
abbrev siblings : List Operation
siblings =
    spawn_root parent_class (named "top")
    ∷ spawn_under_parent (ref_to 0 "top") worker (named "middle")
    ∷ spawn_under_parent (ref_to 0 "top") worker (named "leaf")
    ∷ []

abbrev crowded : System
crowded = perform_all sup 5 siblings empty_system

abbrev both : List ActorRef
both = ref_to 1 "middle" ∷ ref_to 2 "leaf" ∷ []

both_younger : (c : ActorRef) → In c both → (0 < c.id) × (c.id < 3)
both_younger c (inl e) =
    subst (λ (x : ActorRef). (0 < x.id) × (x.id < 3)) e (omega arith, omega arith)
both_younger c (inr (inl e)) =
    subst (λ (x : ActorRef). (0 < x.id) × (x.id < 3)) e (omega arith, omega arith)
both_younger c (inr (inr m)) = absurd m

restart_each-respawns_example :
    ((c : ActorRef) → In c both → (restart_each (ref_to 0 "top") both crowded).actors c.id ≡ none)
    × ((left : List ActorRef) × HasOrder (stop_reverse both crowded) 0 left
        × HasOrder
            (restart_each (ref_to 0 "top") both crowded)
            0
            (left ++ (ref_to 3 "middle" ∷ ref_to 4 "leaf" ∷ [])))
unfolding perform_all perform spawn spawn_child
restart_each-respawns_example =
    restart_each-respawns (ref_to 0 "top") both crowded
      (record top_actor { children = both; child_order = both }) (perform_all-Nested sup 5 siblings)
      refl refl both_younger

-- The actor 1 is restarted, and its child 2 crashes after that.
restart-orphans_example :
    let t = (restart (ref_to 1 "middle") grown).0 in
    (is_some (t.actors 2) ≡ true)
    × (t.actors 1 ≡ none)
    × (handle_crash 50 sup 6 (ref_to 2 "leaf") (thrown "x") t ≡ t)
unfolding perform_all perform spawn spawn_child watch
restart-orphans_example =
    restart-orphans (ref_to 1 "middle") (ref_to 2 "leaf") grown middle_actor
      (record { actor_class = worker; options = named "middle"; parent = some (ref_to 0 "top") })
      (record { actor_class = worker; options = named "leaf"; parent = some (ref_to 1 "middle") })
      50 5 sup (thrown "x") refl refl refl refl refl refl (omega arith) (omega arith)
