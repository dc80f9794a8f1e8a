-- ===== src/RegistrySync.antt =====
-- src/registry_sync.ts: the class RegistrySync, the replicated actor registry. `now` stands for
-- `Date.now()`. What a method publishes on "registry:updates" and what it emits are part of its
-- result. A registration goes over the wire with its clock as a JSON object, which holds the same
-- entries as the clock.
pub mod Invariant
pub mod Delivery
pub mod Conflicts
pub mod Removal
use libeam.Shared.{
  ℕ, String, Bool, true, false, not, ◌&&◌, List, [], ◌∷◌, map, Option, none, some, ltb, ◌==◌,
  str_eq, if◌then◌else◌,
}
use libeam.Shared.Dict.{Dict, lookup, insert, delete, delete_where, keys, values}
use libeam.Shared.Text.{str_gt}
use libeam.VectorClock.{
  VectorClock, Causality, before, after, concurrent, increment, merge, compare,
}

pub record ActorRegistration : Type 0 where
  pub name : String
  pub node_id : String
  pub actor_id : String
  pub generation : ℕ
  pub vector_clock : VectorClock

pub record ActorLocation : Type 0 where
  pub node_id : String
  pub actor_id : String

pub data UpdateType : Type 0 where
  register unregister : UpdateType

pub record RegistryUpdate : Type 0 where
  pub type : UpdateType
  pub registration : ActorRegistration

pub data Event : Type 0 where
  actor_registered : ActorRegistration → Event
  actor_unregistered : String → Event
  actor_updated : ActorRegistration → Event

pub record RegistrySync : Type 0 where
  pub node_id : String
  pub local_clock : VectorClock
  pub registrations : Dict ActorRegistration

-- A method's new state, what it publishes, and what it emits.
pub record Outcome : Type 0 where
  pub state : RegistrySync
  pub published : List RegistryUpdate
  pub emitted : List Event

abbrev pub unchanged : RegistrySync → Outcome
unchanged s = record { state = s; published = []; emitted = [] }

unfoldable pub init : String → RegistrySync
init node_id = record { node_id = node_id; local_clock = []; registrations = [] }

pub disconnect : RegistrySync → RegistrySync
disconnect s = record s { registrations = [] }

pub register_actor : String → String → String → ℕ → RegistrySync → Outcome
register_actor name node_id actor_id now s =
    let clock = increment s.local_clock s.node_id in
    let registration : ActorRegistration = record {
      name = name;
      node_id = node_id;
      actor_id = actor_id;
      generation = now;
      vector_clock = clock;
    } in
    record {
      state = record s {
        local_clock = clock;
        registrations = insert name registration s.registrations;
      };
      published = record { type = register; registration = registration } ∷ [];
      emitted = actor_registered registration ∷ [];
    }

pub republish_all : RegistrySync → List RegistryUpdate
republish_all s = map (λ r. record { type = register; registration = r }) (values s.registrations)

-- The rest of `unregister`, when there is an entry.
unregister_existing : String → ActorRegistration → RegistrySync → Outcome
unregister_existing name existing s =
    let clock = increment s.local_clock s.node_id in
    record {
      state = record s { local_clock = clock; registrations = delete name s.registrations };
      published =
          record { type = unregister; registration = record existing { vector_clock = clock } }
          ∷ [];
      emitted = actor_unregistered name ∷ [];
    }

pub unregister_actor : String → RegistrySync → Outcome
unfolding unregister_existing
unregister_actor name s = elim (lookup name s.registrations) [
  | none ↦ unchanged s
  | some existing ↦ unregister_existing name existing s
]

pub lookup_actor : String → RegistrySync → Option ActorLocation
lookup_actor name s = elim (lookup name s.registrations) [
  | none ↦ none
  | some reg ↦ some (record { node_id = reg.node_id; actor_id = reg.actor_id })
]

-- The names of the entries that a node owns.
names_of : String → Dict ActorRegistration → List String
names_of node_id [] = []
names_of node_id ((name, reg) ∷ regs) =
    if str_eq reg.node_id node_id then name ∷ names_of node_id regs else names_of node_id regs

pub get_node_actors : String → RegistrySync → List String
unfolding names_of
get_node_actors node_id s = names_of node_id s.registrations

-- Whether a registration that comes in takes the place of the one that is there.
unfoldable pub supersedes : ActorRegistration → ActorRegistration → Bool
supersedes incoming existing = elim (compare incoming.vector_clock existing.vector_clock) [
  | after ↦ true
  | before ↦ false
  | concurrent ↦
      if ltb existing.generation incoming.generation
      then true
      else (incoming.generation == existing.generation && str_gt incoming.node_id existing.node_id)
]

-- The three lines that store a registration and learn its clock.
store : ActorRegistration → Event → RegistrySync → Outcome
store registration event s = record {
  state = record s {
    registrations = insert registration.name registration s.registrations;
    local_clock = merge s.local_clock registration.vector_clock;
  };
  published = [];
  emitted = event ∷ [];
}

-- Whether an unregistration that comes in removes the entry: unless it is older.
abbrev removes : Causality → Bool
removes after = true
removes concurrent = true
removes before = false

handle_unregister : ActorRegistration → RegistrySync → Outcome
handle_unregister registration s = elim (lookup registration.name s.registrations) [
  | none ↦ unchanged s
  | some existing ↦
      if removes (compare registration.vector_clock existing.vector_clock)
      then record {
        state = record s {
          registrations = delete registration.name s.registrations;
          local_clock = merge s.local_clock registration.vector_clock;
        };
        published = [];
        emitted = actor_unregistered registration.name ∷ [];
      }
      else unchanged s
]

handle_register : ActorRegistration → RegistrySync → Outcome
unfolding supersedes store
handle_register registration s = elim (lookup registration.name s.registrations) [
  | none ↦ store registration (actor_registered registration) s
  | some existing ↦
      if supersedes registration existing
      then store registration (actor_updated registration) s
      else unchanged s
]

pub handle_registry_update : RegistryUpdate → RegistrySync → Outcome
unfolding handle_unregister handle_register
handle_registry_update update s = elim update.type [
  | unregister ↦ handle_unregister update.registration s
  | register ↦ handle_register update.registration s
]

-- Deletes the listed names, one by one, and emits for each.
remove_names : List String → Dict ActorRegistration → Dict ActorRegistration
remove_names [] regs = regs
remove_names (name ∷ names) regs = remove_names names (delete name regs)

pub handle_peer_leave : String → RegistrySync → Outcome
unfolding names_of remove_names
handle_peer_leave node_id s =
    let actors_to_remove = names_of node_id s.registrations in
    record {
      state = record s { registrations = remove_names actors_to_remove s.registrations };
      published = [];
      emitted = map actor_unregistered actors_to_remove;
    }

-- What is published at once, and again after 500 and 2000 ms, when a peer joins.
pub handle_peer_join : RegistrySync → List RegistryUpdate
unfolding republish_all
handle_peer_join s = republish_all s
