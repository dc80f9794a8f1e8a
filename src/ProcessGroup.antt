-- ===== src/ProcessGroup.antt =====
-- src/process_group.ts: the class ProcessGroupManager. What it publishes to the other nodes is part
-- of the result.
pub mod Groups
pub mod Sweeps
pub mod Replication
use libeam.Shared.{
  ℕ, String, Bool, true, false, not, List, [], ◌∷◌, ◌++◌, Option, none, some, ◌==◌, str_eq,
  if◌then◌else◌, or_else,
}
use libeam.Shared.Dict.{Dict, lookup, insert, delete, delete_where, keys, values, size}

pub record GroupMember : Type 0 where
  pub node_id : String
  pub actor_id : String
  pub name : Option String

pub data ProcessGroupUpdate : Type 0 where
  join_update : String → GroupMember → ProcessGroupUpdate
  leave_update : String → GroupMember → ProcessGroupUpdate

abbrev pub Members : Type 0
Members = Dict GroupMember

pub record ProcessGroup : Type 0 where
  pub node_id : String
  pub groups : Dict Members

unfoldable pub init : String → ProcessGroup
init node_id = record { node_id = node_id; groups = [] }

pub disconnect : ProcessGroup → ProcessGroup
disconnect s = record s { groups = [] }

-- A member enters a group, which is made if it is not there.
unfoldable pub add_member : String → GroupMember → Dict Members → Dict Members
add_member group member groups =
    insert group (insert member.actor_id member (or_else (lookup group groups) [])) groups

-- A group is put back without some of its members, and goes if none is left.
unfoldable pub put_back : String → Members → Dict Members → Dict Members
put_back group members groups =
    if size members == 0 then delete group groups else insert group members groups

unfoldable pub join : String → GroupMember → ProcessGroup → ProcessGroup × List ProcessGroupUpdate
join group member s =
    (record s { groups = add_member group member s.groups }, join_update group member ∷ [])

abbrev pub leave_as :
    String
    → String
    → Members
    → Option GroupMember
    → ProcessGroup
    → ProcessGroup × List ProcessGroupUpdate
unfolding put_back
leave_as group actor_id members none s = (s, [])
leave_as group actor_id members (some member) s = (
  record s { groups = put_back group (delete actor_id members) s.groups },
  leave_update group member ∷ [],
)

unfoldable pub leave : String → String → ProcessGroup → ProcessGroup × List ProcessGroupUpdate
unfolding leave_as
leave group actor_id s = elim (lookup group s.groups) [
  | none ↦ (s, [])
  | some members ↦ leave_as group actor_id members (lookup actor_id members) s
]

-- The loop of `leaveAll` over the groups: what is left of them, and what is published.
unfoldable pub leave_groups : String → Dict Members → Dict Members × List ProcessGroupUpdate
leave_groups actor_id [] = ([], [])
leave_groups actor_id ((group, members) ∷ rest) =
    let (left, updates) = leave_groups actor_id rest in
    let fewer = delete actor_id members in
    elim (lookup actor_id members) [
      | none ↦ ((group, members) ∷ left, updates)
      | some member ↦ (
        (if size fewer == 0 then left else ((group, fewer) ∷ left)),
        leave_update group member ∷ updates,
      )
    ]

pub leave_all : String → ProcessGroup → ProcessGroup × List ProcessGroupUpdate
unfolding leave_groups
leave_all actor_id s =
    let (groups, updates) = leave_groups actor_id s.groups in
    (record s { groups = groups }, updates)

pub get_members : String → ProcessGroup → List GroupMember
get_members group s = values (or_else (lookup group s.groups) [])

pub get_groups : ProcessGroup → List String
get_groups s = keys s.groups

abbrev pub remove_member : String → String → Option Members → Dict Members → Dict Members
unfolding put_back
remove_member group actor_id none groups = groups
remove_member group actor_id (some members) groups = put_back group (delete actor_id members) groups

unfoldable pub handle_update : ProcessGroupUpdate → ProcessGroup → ProcessGroup
unfolding add_member remove_member
handle_update (join_update group member) s =
    if str_eq member.node_id s.node_id
    then s
    else record s { groups = add_member group member s.groups }
handle_update (leave_update group member) s =
    if str_eq member.node_id s.node_id
    then s
    else record s { groups = remove_member group member.actor_id (lookup group s.groups) s.groups }

-- The loop of `handlePeerLeave`: the members of a node go, and the groups that are empty then.
unfoldable pub drop_node : String → Dict Members → Dict Members
drop_node node_id [] = []
drop_node node_id ((group, members) ∷ rest) =
    let fewer = delete_where (λ actor_id member. str_eq member.node_id node_id) members in
    if size fewer == 0 then drop_node node_id rest else ((group, fewer) ∷ drop_node node_id rest)

pub handle_peer_leave : String → ProcessGroup → ProcessGroup
unfolding drop_node
handle_peer_leave node_id s = record s { groups = drop_node node_id s.groups }

own_joins : String → String → Members → List ProcessGroupUpdate
own_joins node_id group [] = []
own_joins node_id group ((actor_id, member) ∷ members) =
    if str_eq member.node_id node_id
    then join_update group member ∷ own_joins node_id group members
    else own_joins node_id group members

all_joins : String → Dict Members → List ProcessGroupUpdate
unfolding own_joins
all_joins node_id [] = []
all_joins node_id ((group, members) ∷ rest) =
    own_joins node_id group members ++ all_joins node_id rest

-- A node that has joined is told of the own members.
pub handle_peer_join : ProcessGroup → List ProcessGroupUpdate
unfolding all_joins
handle_peer_join s = all_joins s.node_id s.groups
