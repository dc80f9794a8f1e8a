-- ===== src/RegistrySync/Removal.antt =====
-- What src/registry_sync.ts forgets when a node leaves, and what it lists of a node.
use libeam.Shared.{
  String, ◌≡◌, refl, Bool, false, List, [], ◌∷◌, ◌||◌, Option, none, some, arith, str_eq, eq_iff,
  if◌then◌else◌,
}
use libeam.Shared.Dict.{Dict, lookup, delete, Unique, lookup-delete}
use libeam.RegistrySync.{
  ActorRegistration, RegistrySync, names_of, remove_names, handle_peer_leave, get_node_actors,
}

pub member : String → List String → Bool
member k [] = false
member k (j ∷ js) = str_eq j k || member k js

-- Whether the entry under a name is one of the node's.
abbrev pub owned : String → Option ActorRegistration → Bool
owned node_id none = false
owned node_id (some reg) = str_eq reg.node_id node_id

absent_names :
    (node_id name : String) (regs : Dict ActorRegistration)
    → lookup name regs ≡ none
    → member name (names_of node_id regs) ≡ false
unfolding member names_of lookup
absent_names node_id name [] h = refl
absent_names node_id name ((k, reg) ∷ regs) h = ground (arith, absent_names node_id name regs)

member-names_of :
    (node_id name : String) (regs : Dict ActorRegistration)
    → Unique regs
    → member name (names_of node_id regs) ≡ owned node_id (lookup name regs)
unfolding member names_of lookup
member-names_of node_id name [] u = refl
member-names_of node_id name ((k, reg) ∷ regs) (fresh, u) =
    ground
      (arith, eq_iff k name, member-names_of node_id name regs u, absent_names node_id k regs fresh)

-- `getNodeActors` lists exactly the names whose entry the node owns.
pub get_node_actors_iff :
    (node_id name : String) (s : RegistrySync)
    → Unique s.registrations
    → member name (get_node_actors node_id s) ≡ owned node_id (lookup name s.registrations)
unfolding get_node_actors
get_node_actors_iff node_id name s u = member-names_of node_id name s.registrations u

lookup-remove_names :
    (names : List String) (name : String) (regs : Dict ActorRegistration)
    → lookup name (remove_names names regs) ≡ (if member name names then none else lookup name regs)
unfolding remove_names member
lookup-remove_names [] name regs = refl
lookup-remove_names (k ∷ names) name regs =
    ground (arith, lookup-remove_names names name (delete k regs), lookup-delete k name regs)

-- When a node leaves, exactly its entries go and every other entry stays as it was.
pub lookup-handle_peer_leave :
    (node_id name : String) (s : RegistrySync)
    → Unique s.registrations
    → lookup name (handle_peer_leave node_id s).state.registrations
      ≡ (if owned node_id (lookup name s.registrations) then none else lookup name s.registrations)
unfolding handle_peer_leave
lookup-handle_peer_leave node_id name s u = ground (
  arith,
  lookup-remove_names (names_of node_id s.registrations) name s.registrations,
  member-names_of node_id name s.registrations u,
)
