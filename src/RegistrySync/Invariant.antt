-- ===== src/RegistrySync/Invariant.antt =====
-- The invariant of the registry of src/registry_sync.ts, kept by each of its operations.
use libeam.Shared.{
  ℕ, ◌+◌, ◌<◌, String, ◌≡◌, inl, inr, List, [], ◌∷◌, some, arith, str_eq, eq_iff, eq_refl,
  Bool-cases, Option-cases,
}
use libeam.Shared.Dict.{
  lookup, insert, delete, Unique, lookup-insert, lookup-delete, Unique-insert, Unique-delete,
}
use libeam.VectorClock.{VectorClock, get, increment, merge, compare, after}
use libeam.VectorClock.Order.{Le, compare_iff}
use libeam.VectorClock.Merging.{merge_least, Unique-merge, increment_lem}
use libeam.RegistrySync.{
  ActorRegistration, UpdateType, RegistrySync, register, unregister, init, Event, actor_registered,
  actor_updated, disconnect, register_actor, unregister_actor, handle_registry_update,
  handle_register, handle_unregister, supersedes, removes, store, remove_names, names_of,
  handle_peer_leave,
}

-- Each entry stands under its own name, and the local clock knows all that it knows.
pub record IsSound (s : RegistrySync) : Type 0 where
  pub unique : Unique s.registrations
  pub clock_unique : Unique s.local_clock
  pub known :
      (name : String) (reg : ActorRegistration)
      → lookup name s.registrations ≡ some reg
      → (reg.name ≡ name) × Le reg.vector_clock s.local_clock

Le_increment : (c : VectorClock) (k : String) → Le c (increment c k)
Le_increment c k = ((compare_iff c (increment c k)).0.0 (increment_lem c k k).1).0

Le_trans : (c d e : VectorClock) → Le c d → Le d e → Le c e
Le_trans c d e h g k = omega (arith, h k, g k)

-- An entry of the dictionary after a write is the new one or an old one.
known-insert :
    (s : RegistrySync) (clock : VectorClock) (reg : ActorRegistration)
    → IsSound s
    → Le s.local_clock clock
    → Le reg.vector_clock clock
    → (name : String) (r : ActorRegistration)
    → lookup name (insert reg.name reg s.registrations) ≡ some r
    → (r.name ≡ name) × Le r.vector_clock clock
known-insert s clock reg sound grows fits name r h = elim (Bool-cases (str_eq reg.name name)) [
  | inl e ↦
      let same : reg ≡ r = ground (arith, lookup-insert reg.name name reg s.registrations) in
      rw (← same) ((eq_iff reg.name name).0 e, fits)
  | inr e ↦
      let old : lookup name s.registrations ≡ some r =
        ground (arith, lookup-insert reg.name name reg s.registrations) in
      let (own, le) = sound.known name r old in
      (own, Le_trans r.vector_clock s.local_clock clock le grows)
]

known-delete :
    (s : RegistrySync) (clock : VectorClock) (gone : String)
    → IsSound s
    → Le s.local_clock clock
    → (name : String) (r : ActorRegistration) → lookup name (delete gone s.registrations) ≡ some r
    → (r.name ≡ name) × Le r.vector_clock clock
known-delete s clock gone sound grows name r h =
    let old : lookup name s.registrations ≡ some r =
      ground (arith, lookup-delete gone name s.registrations) in
    let (own, le) = sound.known name r old in
    (own, Le_trans r.vector_clock s.local_clock clock le grows)

init-IsSound : (node_id : String) → IsSound (init node_id)
unfolding init lookup
init-IsSound node_id = record { unique = tt; clock_unique = tt; known = λ name reg h. cc h }

Unique-increment : (c : VectorClock) (k : String) → Unique c → Unique (increment c k)
unfolding increment
Unique-increment c k u = Unique-insert k (get c k + 1) c u

pub register_actor-IsSound :
    (name node_id actor_id : String) (now : ℕ) (s : RegistrySync)
    → IsSound s
    → IsSound (register_actor name node_id actor_id now s).state
unfolding register_actor
register_actor-IsSound name node_id actor_id now s sound = record {
  unique = Unique-insert name _ s.registrations sound.unique;
  clock_unique = Unique-increment s.local_clock s.node_id sound.clock_unique;
  known =
      known-insert s (increment s.local_clock s.node_id) _ sound
        (Le_increment s.local_clock s.node_id) (λ k. omega arith);
}

unregister_actor-IsSound :
    (name : String) (s : RegistrySync) → IsSound s → IsSound (unregister_actor name s).state
unfolding unregister_actor
unregister_actor-IsSound name s sound = elim (Option-cases (lookup name s.registrations)) [
  | inl e ↦ rw (e, unregister_actor) sound
  | inr (reg, e) ↦
      rw (e, unregister_actor)
        (record {
          unique = Unique-delete name s.registrations sound.unique;
          clock_unique = Unique-increment s.local_clock s.node_id sound.clock_unique;
          known =
              known-delete s (increment s.local_clock s.node_id) name sound
                (Le_increment s.local_clock s.node_id);
        })
]

store-IsSound :
    (reg : ActorRegistration) (event : Event) (s : RegistrySync)
    → Unique reg.vector_clock
    → IsSound s
    → IsSound (store reg event s).state
unfolding store
store-IsSound reg event s u sound = record {
  unique = Unique-insert reg.name reg s.registrations sound.unique;
  clock_unique = Unique-merge s.local_clock reg.vector_clock sound.clock_unique;
  known =
      known-insert s (merge s.local_clock reg.vector_clock) reg sound
        (merge_least s.local_clock reg.vector_clock s.local_clock u).0
        (merge_least s.local_clock reg.vector_clock s.local_clock u).1;
}

removed-IsSound :
    (reg : ActorRegistration) (s : RegistrySync)
    → Unique reg.vector_clock
    → IsSound s
    → IsSound (record s {
      registrations = delete reg.name s.registrations;
      local_clock = merge s.local_clock reg.vector_clock;
    })
removed-IsSound reg s u sound = record {
  unique = Unique-delete reg.name s.registrations sound.unique;
  clock_unique = Unique-merge s.local_clock reg.vector_clock sound.clock_unique;
  known =
      known-delete s (merge s.local_clock reg.vector_clock) reg.name sound
        (merge_least s.local_clock reg.vector_clock s.local_clock u).0;
}

handle_register-IsSound :
    (reg : ActorRegistration) (s : RegistrySync)
    → Unique reg.vector_clock
    → IsSound s
    → IsSound (handle_register reg s).state
unfolding handle_register
handle_register-IsSound reg s u sound = elim (Option-cases (lookup reg.name s.registrations)) [
  | inl e ↦ rw (e, handle_register) (store-IsSound reg (actor_registered reg) s u sound)
  | inr (existing, e) ↦ elim (Bool-cases (supersedes reg existing)) [
    | inl newer ↦
        rw (e, handle_register) (rw newer (store-IsSound reg (actor_updated reg) s u sound))
    | inr older ↦ rw (e, handle_register) (rw older sound)
  ]
]

handle_unregister-IsSound :
    (reg : ActorRegistration) (s : RegistrySync)
    → Unique reg.vector_clock
    → IsSound s
    → IsSound (handle_unregister reg s).state
unfolding handle_unregister
handle_unregister-IsSound reg s u sound = elim (Option-cases (lookup reg.name s.registrations)) [
  | inl e ↦ rw (e, handle_unregister) sound
  | inr (existing, e) ↦
      elim (Bool-cases (removes (compare reg.vector_clock existing.vector_clock))) [
        | inl newer ↦ rw (e, handle_unregister) (rw newer (removed-IsSound reg s u sound))
        | inr older ↦ rw (e, handle_unregister) (rw older sound)
      ]
]

update-IsSound :
    (type : UpdateType) (reg : ActorRegistration) (s : RegistrySync)
    → Unique reg.vector_clock
    → IsSound s
    → IsSound (handle_registry_update (record { type = type; registration = reg }) s).state
unfolding handle_registry_update
update-IsSound register reg s u sound = handle_register-IsSound reg s u sound
update-IsSound unregister reg s u sound = handle_unregister-IsSound reg s u sound

remove_names-IsSound :
    (names : List String) (s : RegistrySync)
    → IsSound s
    → IsSound (record s { registrations = remove_names names s.registrations })
unfolding remove_names
remove_names-IsSound [] s sound = sound
remove_names-IsSound (name ∷ names) s sound =
    remove_names-IsSound names (record s { registrations = delete name s.registrations })
      (record {
        unique = Unique-delete name s.registrations sound.unique;
        clock_unique = sound.clock_unique;
        known = known-delete s s.local_clock name sound (λ k. omega arith);
      })

-- The calls that change a registry, from its own node and from the network.
pub data Call : Type 0 where
  registers : String → String → String → ℕ → Call
  unregisters : String → Call
  receives : UpdateType → ActorRegistration → Call
  peer_leaves : String → Call
  disconnects : Call

pub step : RegistrySync → Call → RegistrySync
step s (registers name node_id actor_id now) = (register_actor name node_id actor_id now s).state
step s (unregisters name) = (unregister_actor name s).state
step s (receives type reg) =
    (handle_registry_update (record { type = type; registration = reg }) s).state
step s (peer_leaves node_id) = (handle_peer_leave node_id s).state
step s disconnects = disconnect s

pub run : RegistrySync → List Call → RegistrySync
run s [] = s
run s (c ∷ cs) = run (step s c) cs

-- A JSON object holds a key once.
abbrev pub IsWire : Call → Type 0
IsWire (receives type reg) = Unique reg.vector_clock
IsWire _ = Unit

abbrev pub AllWire : List Call → Type 0
AllWire [] = Unit
AllWire (c ∷ cs) = IsWire c × AllWire cs

step-IsSound : (s : RegistrySync) (c : Call) → IsWire c → IsSound s → IsSound (step s c)
unfolding step handle_peer_leave disconnect lookup
step-IsSound s (registers name node_id actor_id now) w sound =
    register_actor-IsSound name node_id actor_id now s sound
step-IsSound s (unregisters name) w sound = unregister_actor-IsSound name s sound
step-IsSound s (receives type reg) w sound = update-IsSound type reg s w sound
step-IsSound s (peer_leaves node_id) w sound =
    remove_names-IsSound (names_of node_id s.registrations) s sound
step-IsSound s disconnects w sound = record {
  unique = tt;
  clock_unique = sound.clock_unique;
  known = λ name reg h. cc h;
}

run-IsSound : (s : RegistrySync) (cs : List Call) → AllWire cs → IsSound s → IsSound (run s cs)
unfolding run
run-IsSound s [] w sound = sound
run-IsSound s (c ∷ cs) (w, ws) sound = run-IsSound (step s c) cs ws (step-IsSound s c w sound)

-- After any calls, local and remote, in any order, an entry stands under its own name and the
-- local clock counts at least what each entry's clock counts; the updates received hold each node
-- of their clock once.
pub run-init-IsSound :
    (node_id : String) (cs : List Call) → AllWire cs → IsSound (run (init node_id) cs)
run-init-IsSound node_id cs w = run-IsSound (init node_id) cs w (init-IsSound node_id)

-- A clock that the local clock covers is before the local clock with one more event.
increment_newer : (c d : VectorClock) (k : String) → Le d c → compare (increment c k) d ≡ after
increment_newer c d k le = (compare_iff (increment c k) d).1.1 (all, (k, own))
  where
    own : get d k < get (increment c k) k
    own = ground (arith, le k, (increment_lem c k k).0, eq_refl k)

    all : Le d (increment c k)
    all j = omega (arith, le j, Le_increment c k j)

-- A local change is newer than the entry that it replaces or takes away.
pub change_newer :
    (name : String) (s : RegistrySync) (existing : ActorRegistration)
    → IsSound s
    → lookup name s.registrations ≡ some existing
    → compare (increment s.local_clock s.node_id) existing.vector_clock ≡ after
change_newer name s existing sound e =
    increment_newer s.local_clock existing.vector_clock s.node_id (sound.known name existing e).1
