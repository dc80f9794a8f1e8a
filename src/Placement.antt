-- ===== src/Placement.antt =====
-- src/placement.ts: the class PlacementEngine. What it asks of the cluster, the node's own
-- identifier, the members and, where the cluster knows roles, the members with a role, is an
-- argument.
pub mod RoundRobin
use libeam.Shared.{
  ℕ, zero, suc, ◌+◌, ◌%◌, String, Bool, true, false, ◌||◌, List, [], ◌∷◌, Option, none, some,
  length, get_elem?, str_eq, if◌then◌else◌, or_else,
}
use libeam.Shared.Dict.{Dict, lookup, insert}

pub data PlacementStrategy : Type 0 where
  local : PlacementStrategy
  round_robin : PlacementStrategy

-- `none` for the members by role is a cluster without the method.
pub record Cluster : Type 0 where
  pub node_id : String
  pub members : List String
  pub members_by_role : Option (String → List String)

-- A node, the exception for a role that no node has, or what an array has past its end.
pub data Placed : Type 0 where
  node : String → Placed
  no_role_match : Placed
  undefined : Placed

abbrev pub includes : String → List String → Bool
includes x [] = false
includes x (y ∷ ys) = str_eq y x || includes x ys

-- `role && cluster.getMembersByRole`: the members with the role, where the role is not empty.
abbrev pub with_role : Option String → Option (String → List String) → Option (List String)
with_role none by_role = none
with_role (some role) none = none
with_role (some role) (some f) = if str_eq role "" then none else some (f role)

abbrev pub select_local : Cluster → Option (List String) → Placed
select_local cluster none = node cluster.node_id
select_local cluster (some matching) =
    if includes cluster.node_id matching then node cluster.node_id else no_role_match

-- `role ? … : …`, for a role that is not empty.
abbrev pub no_members : Cluster → Option String → Placed
no_members cluster none = node cluster.node_id
no_members cluster (some role) = if str_eq role "" then node cluster.node_id else no_role_match

-- `(counters.get(key) ?? -1) + 1`.
abbrev pub next_count : Option ℕ → ℕ
next_count none = 0
next_count (some n) = n + 1

-- `members[i]`.
abbrev pub member_at : Option String → Placed
member_at none = undefined
member_at (some name) = node name

abbrev pub select_member : Cluster → Option String → List String → Dict ℕ → Dict ℕ × Placed
select_member cluster role [] counters = (counters, no_members cluster role)
select_member cluster role (m ∷ ms) counters =
    let key = or_else role "__all__" in
    let counter = next_count (lookup key counters) in
    (insert key counter counters, member_at (get_elem? (m ∷ ms) (counter % length (m ∷ ms))))

-- The counters are all that the engine keeps.
unfoldable pub select_node : Cluster → PlacementStrategy → Option String → Dict ℕ → Dict ℕ × Placed
select_node cluster local role counters =
    (counters, select_local cluster (with_role role cluster.members_by_role))
select_node cluster round_robin role counters =
    select_member cluster role (or_else (with_role role cluster.members_by_role) cluster.members)
      counters
