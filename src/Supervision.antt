-- ===== src/Supervision.antt =====
-- src/supervisor.ts and src/child_supervisor.ts: what is done with an actor that crashed. The
-- counters of restarts are fields of the system, and `now` stands for `Date.now()`.
pub mod Nesting
pub mod Reachable
pub mod Windows
pub mod RootRestarts
pub mod Propagation
pub mod Enough
pub mod Order
pub mod Orphans
use libeam.Shared.{
  ℕ, zero, suc, ◌+◌, String, Bool, true, false, List, [], ◌∷◌, ◌++◌, Option, none, some, ltb, leb,
  ◌==◌, str_eq, if◌then◌else◌, or_else,
}
use libeam.Shared.Dict.{is_some}
use libeam.Shared.Table.{Table, put, remove}
use libeam.ActorSystem.{
  ActorRef, Cause, Reason, error, killed, Strategy, one_for_one, one_for_all, rest_for_one,
  ChildSupervisionOptions, Actor, ActorMetadata, RestartRecord, ChildKey, words, instance_id,
  RestartKey, System, given, spawn_child,
}
use libeam.ActorSystem.Watching.{notify_watchers}
use libeam.ActorSystem.Linking.{notify_linked_actors}
use libeam.ActorSystem.Stopping.{stop, restart}

pub data SupervisionStrategy : Type 0 where
  restart_actor : SupervisionStrategy
  stop_actor : SupervisionStrategy

pub record SupervisionOptions : Type 0 where
  pub strategy : SupervisionStrategy
  pub max_restarts : ℕ
  pub period_ms : ℕ

abbrev pub child_key_eq : ChildKey → ChildKey → Bool
child_key_eq (words s) (words t) = str_eq s t
child_key_eq (words s) (instance_id j) = false
child_key_eq (instance_id i) (words t) = false
child_key_eq (instance_id i) (instance_id j) = i == j

abbrev pub key_eq : RestartKey → RestartKey → Bool
key_eq k l = if k.parent_id == l.parent_id then child_key_eq k.child_key l.child_key else false

-- A record is made new when the period since its time has passed.
abbrev pub reset_record : ℕ → ℕ → RestartRecord → RestartRecord
reset_record now period_ms r =
    if ltb (r.timestamp + period_ms) now then record { count = 0; timestamp = now } else r

abbrev pub record_now : ℕ → ℕ → Option RestartRecord → RestartRecord
record_now now period_ms found =
    reset_record now period_ms (or_else found (record { count = 0; timestamp = now }))

abbrev pub counted : RestartRecord → RestartRecord
counted r = record r { count = suc r.count }

-- What a key holds after `canRestart`, and its answer. A record that is there is changed in place,
-- also where the answer is no.
unfoldable pub can_restart : ℕ → ℕ → ℕ → Option RestartRecord → Option RestartRecord × Bool
can_restart now max_restarts period_ms found =
    let r = record_now now period_ms found in
    if leb max_restarts r.count
    then ((if is_some found then some r else none), false)
    else (some (counted r), true)

-- The name, the arguments as text, or else the identifier.
abbrev pub options_key : ℕ → Option String → Option String → ChildKey
options_key id (some name) args = words name
options_key id none (some args) = words args
options_key id none none = instance_id id

abbrev pub child_key : ℕ → Option ActorMetadata → ChildKey
child_key id none = instance_id id
child_key id (some m) = options_key id (given m.options.name) m.options.args

unfoldable pub get_restart_key : ℕ → ℕ → System → RestartKey
get_restart_key id parent_id s = record {
  parent_id = parent_id;
  child_key = child_key id (s.actor_metadata id);
}

abbrev pub stop_now : ActorRef → System → System
stop_now ref s = stop s.next_id ref s

-- Notifies, and stops the actor.
abbrev pub give_up : (ActorRef → Cause → System → System) → ActorRef → Reason → System → System
give_up crash ref reason s =
    stop_now ref (notify_linked_actors crash ref reason (notify_watchers ref reason s))

-- From the last to the first.
unfoldable pub stop_reverse : List ActorRef → System → System
stop_reverse [] s = s
stop_reverse (r ∷ refs) s = stop_now r (stop_reverse refs s)

abbrev pub metadata_of : System → List ActorRef → List (Option ActorMetadata)
metadata_of s [] = []
metadata_of s (r ∷ refs) = s.actor_metadata r.id ∷ metadata_of s refs

-- In the original order, until one throws.
unfoldable pub respawn_each : ActorRef → List (Option ActorMetadata) → System → System
unfolding spawn_child
respawn_each parent [] s = s
respawn_each parent (none ∷ ms) s = respawn_each parent ms s
respawn_each parent (some m ∷ ms) s = elim (spawn_child parent m.actor_class m.options s) [
  | none ↦ s
  | some (spawned, ref) ↦ respawn_each parent ms spawned
]

unfoldable pub restart_each : ActorRef → List ActorRef → System → System
unfolding stop_reverse respawn_each
restart_each parent refs s = respawn_each parent (metadata_of s refs) (stop_reverse refs s)

-- The references from the first with the identifier on, none where it is not there.
abbrev pub from_id : ℕ → List ActorRef → List ActorRef
from_id id [] = []
from_id id (r ∷ refs) = if r.id == id then (r ∷ refs) else from_id id refs

abbrev pub apply_strategy : Strategy → ActorRef → Actor → System → System
apply_strategy one_for_one ref parent s = (restart ref s).0
apply_strategy one_for_all ref parent s = restart_each parent.self parent.child_order s
apply_strategy rest_for_one ref parent s =
    restart_each parent.self (from_id ref.id parent.child_order) s

-- The `restartCounts` of the child supervisor, with what a key holds now.
abbrev pub set_child_count : RestartKey → Option RestartRecord → System → System
set_child_count key r s = record s {
  child_restart_counts = λ asked. if key_eq key asked then r else s.child_restart_counts asked;
}

abbrev pub parent_of : Option ActorMetadata → Option ActorRef
parent_of none = none
parent_of (some m) = m.parent

abbrev pub root_strategy :
    (ActorRef → Cause → System → System) → SupervisionStrategy → ActorRef → Cause → System → System
root_strategy crash restart_actor ref cause s = (restart ref s).0
root_strategy crash stop_actor ref cause s = give_up crash ref (error cause) s

-- How a linked actor's crash is handled is the argument `crash`.
module _ (now : ℕ) (crash : ActorRef → Cause → System → System) where
  abbrev pub supervise_child : ActorRef → Option Actor → RestartKey → System → System
  supervise_child ref none key s = s
  supervise_child ref (some parent) key s =
      let options = parent.actor_class.child_supervision in
      let (r, allowed) =
        can_restart now options.max_restarts options.period_ms (s.child_restart_counts key) in
      let tallied = set_child_count key r s in
      if allowed
      then apply_strategy options.strategy ref parent tallied
      else give_up crash ref killed tallied

  unfoldable pub handle_child_crash : ActorRef → ActorRef → System → System
  unfolding can_restart get_restart_key restart_each
  handle_child_crash ref parent s =
      supervise_child ref (s.actors parent.id) (get_restart_key ref.id parent.id s) s

  unfoldable pub handle_root_crash : SupervisionOptions → ActorRef → Cause → System → System
  unfolding can_restart
  handle_root_crash options ref cause s =
      let (r, allowed) =
        can_restart now options.max_restarts options.period_ms (s.restart_counts ref.id) in
      if allowed
      then root_strategy crash options.strategy ref cause (record s {
        restart_counts = (λ asked. if ref.id == asked then r else s.restart_counts asked);
      })
      else (let stopped = give_up crash ref killed s in
          record stopped { restart_counts = remove ref.id stopped.restart_counts })

  abbrev pub supervise : SupervisionOptions → ActorRef → Cause → Option ActorRef → System → System
  supervise options ref cause (some parent) s = handle_child_crash ref parent s
  supervise options ref cause none s = handle_root_crash options ref cause s

-- The fuel bounds how far a crash passes along links.
unfoldable pub handle_crash : ℕ → SupervisionOptions → ℕ → ActorRef → Cause → System → System
unfolding handle_child_crash handle_root_crash
handle_crash now options zero ref cause s = s
handle_crash now options (suc fuel) ref cause s =
    supervise now (handle_crash now options fuel) options ref cause
      (parent_of (s.actor_metadata ref.id)) s
