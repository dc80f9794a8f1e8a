-- ===== src/Examples/Supervisors.antt =====
-- Runs of the dynamic supervisor of src/dynamic_supervisor.ts.
use libeam.Shared.{
  ℕ, ◌+◌, ◌≤◌, ◌≢◌, ◌⊎◌, true, false, List, [], ◌∷◌, ◌++◌, none, some, ◌≡◌, refl, arith, length,
}
use libeam.ActorSystem.{
  ActorRef, ActorClass, Actor, SpawnOptions, one_for_one, System, spawn, spawn_child,
}
use libeam.ActorSystem.Tree.{In}
use libeam.Supervision.{SupervisionOptions, restart_actor}
use libeam.Supervision.Reachable.{
  Operation, spawn_root, spawn_under_parent, perform, perform_all, empty_system, perform_all-Nested,
}
use libeam.DynamicSupervisor.{
  supervisor_class, max_children_error, started, children, handle_start_child,
  handle_terminate_child, handle_count_children,
}
use libeam.DynamicSupervisor.Limits.{handle_start_child-limit, handle_terminate_child-stops}

abbrev sup : SupervisionOptions
sup = record { strategy = restart_actor; max_restarts = 3; period_ms = 5000 }

abbrev pool_class : ActorClass
pool_class =
    supervisor_class (record { max_children = some 2; max_restarts = none; period_ms = none })

abbrev job_class : ActorClass
job_class = record {
  class_name = "Job";
  child_supervision = record { strategy = one_for_one; max_restarts = 3; period_ms = 5000 };
}

abbrev job : SpawnOptions
job = record { name = none; args = some "[1]" }

abbrev ref_to : ℕ → ActorRef
ref_to id = record { handle = id; id = id; name = none }

abbrev operations : List Operation
operations =
    spawn_root pool_class (record { name = none; args = none })
    ∷ spawn_under_parent (ref_to 0) job_class job
    ∷ []

-- The supervisor 0 with a child.
abbrev pool : System
pool = perform_all sup 5 operations empty_system

abbrev pool_actor : Actor
pool_actor = record {
  self = ref_to 0;
  actor_class = pool_class;
  parent = none;
  children = ref_to 1 ∷ [];
  child_order = ref_to 1 ∷ [];
  watches = [];
  links = [];
  trap_exit = false;
}

handle_start_child-limit_example :
    let r = handle_start_child (some 2) (ref_to 0) job_class job pool in
    ((2 ≤ length (children (ref_to 0) pool)) × (r ≡ (pool, max_children_error 2)))
    ⊎ ((r.1 ≡ started (ref_to 2))
        × (children (ref_to 0) r.0 ≡ children (ref_to 0) pool ++ (ref_to 2 ∷ []))
        × ((handle_count_children (ref_to 0) r.0).active
            ≡ (handle_count_children (ref_to 0) pool).active + 1)
        × ((handle_count_children (ref_to 0) r.0).active ≤ 2))
unfolding perform_all perform spawn spawn_child
handle_start_child-limit_example =
    handle_start_child-limit 2 (ref_to 0) job_class job pool pool_actor refl (omega arith) refl

handle_terminate_child-stops_example :
    let r = handle_terminate_child (ref_to 0) (record { handle = 7; id = 1; name = none }) pool in
    ((r ≡ (pool, false)) × ((c : ActorRef) → In c (children (ref_to 0) pool) → c.id ≢ 1))
    ⊎ ((r.1 ≡ true)
        × ((c : ActorRef) × In c (children (ref_to 0) pool) × (c.id ≡ 1))
        × (r.0.actors 1 ≡ none)
        × ((b : Actor) × (r.0.actors 0 ≡ some b)))
unfolding perform_all perform spawn spawn_child
handle_terminate_child-stops_example =
    handle_terminate_child-stops (ref_to 0) (record { handle = 7; id = 1; name = none }) pool
      pool_actor (perform_all-Nested sup 5 operations) refl
