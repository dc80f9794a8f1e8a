-- ===== src/LocalRegistry.antt =====
-- src/local_registry.ts: the class LocalRegistry. `now` stands for `Date.now()`, and the identifier
-- that `uuidv4` gives a reservation is an argument.
pub mod Reservations
use libeam.Shared.{
  ℕ, ◌+◌, String, Bool, true, false, not, ◌&&◌, ◌||◌, List, [], ◌∷◌, Option, none, some, ltb,
  str_eq, if◌then◌else◌,
}
use libeam.Shared.Dict.{Dict, lookup, insert, delete, delete_where}

pub record ActorLocation : Type 0 where
  pub node_id : String
  pub actor_id : String

pub record NameReservation : Type 0 where
  pub reservation_id : String
  pub name : String
  pub node_id : String
  pub expires_at : ℕ

pub record LocalRegistry : Type 0 where
  pub registry : Dict ActorLocation
  pub reservations : Dict NameReservation

abbrev pub default_reservation_ttl_ms : ℕ
default_reservation_ttl_ms = 30000

pub disconnect : LocalRegistry → LocalRegistry
disconnect s = record { registry = []; reservations = [] }

pub register : String → String → String → LocalRegistry → LocalRegistry
register name node_id actor_id s = record s {
  registry = insert name (record { node_id = node_id; actor_id = actor_id }) s.registry;
}

pub unregister : String → LocalRegistry → LocalRegistry
unregister name s = record s { registry = delete name s.registry }

pub lookup_name : String → LocalRegistry → Option ActorLocation
lookup_name name s = lookup name s.registry

actors_on : String → Dict ActorLocation → List String
actors_on node_id [] = []
actors_on node_id ((name, location) ∷ registry) =
    if str_eq location.node_id node_id
    then name ∷ actors_on node_id registry
    else actors_on node_id registry

pub get_node_actors : String → LocalRegistry → List String
unfolding actors_on
get_node_actors node_id s = actors_on node_id s.registry

unfoldable pub cleanup_expired_reservations : ℕ → LocalRegistry → LocalRegistry
cleanup_expired_reservations now s = record s {
  reservations = delete_where (λ id r. ltb r.expires_at now) s.reservations;
}

-- Whether another node has the name reserved.
unfoldable pub reserved_by_other : String → String → Dict NameReservation → Bool
reserved_by_other name node_id [] = false
reserved_by_other name node_id ((id, r) ∷ reservations) =
    (str_eq r.name name && not (str_eq r.node_id node_id))
    || reserved_by_other name node_id reservations

abbrev pub held_by_other : String → Option ActorLocation → Bool
held_by_other node_id none = false
held_by_other node_id (some location) = not (str_eq location.node_id node_id)

-- The answer is the identifier of the reservation, or `none` where the name is another node's.
unfoldable pub reserve_name :
    ℕ → String → String → String → ℕ → LocalRegistry → LocalRegistry × Option String
unfolding cleanup_expired_reservations reserved_by_other
reserve_name now reservation_id name node_id ttl_ms s =
    let s' = cleanup_expired_reservations now s in
    let fresh : NameReservation = record {
      reservation_id = reservation_id;
      name = name;
      node_id = node_id;
      expires_at = now + ttl_ms;
    } in
    if held_by_other node_id (lookup name s'.registry)
      || reserved_by_other name node_id s'.reservations
    then (s', none)
    else (
      record s' { reservations = insert reservation_id fresh s'.reservations },
      some reservation_id,
    )

unfoldable pub confirm_reservation : ℕ → String → String → LocalRegistry → LocalRegistry × Bool
confirm_reservation now reservation_id actor_id s = elim (lookup reservation_id s.reservations) [
  | none ↦ (s, false)
  | some r ↦
      let released = delete reservation_id s.reservations in
      if ltb r.expires_at now then (record s { reservations = released }, false) else (
        record {
          registry = insert r.name (record { node_id = r.node_id; actor_id = actor_id }) s.registry;
          reservations = released;
        },
        true,
      )
]

pub release_reservation : String → LocalRegistry → LocalRegistry
release_reservation reservation_id s = record s {
  reservations = delete reservation_id s.reservations;
}
