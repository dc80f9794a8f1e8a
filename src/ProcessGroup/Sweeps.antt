-- ===== src/ProcessGroup/Sweeps.antt =====
-- The calls of src/process_group.ts that go through all groups, and runs of all calls.
use libeam.Shared.{
  String, ◌≡◌, refl, inl, inr, List, [], ◌∷◌, none, arith, ◌==◌, str_eq, if◌then◌else◌, Bool-cases,
  Option-cases,
}
use libeam.Shared.Dict.{Dict, lookup, delete, size, Unique, Unique-delete, Unique-delete_where}
use libeam.ProcessGroup.{
  GroupMember, ProcessGroupUpdate, join_update, leave_update, Members, ProcessGroup, init,
  disconnect, join, leave, leave_groups, leave_all, handle_update, drop_node, handle_peer_leave,
}
use libeam.ProcessGroup.Groups.{
  IsProcessGroup, add_member-IsProcessGroup, remove_member-IsProcessGroup, leave-IsProcessGroup,
}

-- A sweep keeps or drops each group: what it makes of one group, in front of the rest.
abbrev put_front : String → Members → Dict Members → Dict Members
put_front group members rest = if size members == 0 then rest else ((group, members) ∷ rest)

put_front-IsProcessGroup :
    (group : String) (members : Members) (rest : Dict Members)
    → Unique members
    → lookup group rest ≡ none
    → IsProcessGroup rest
    → IsProcessGroup (put_front group members rest)
put_front-IsProcessGroup group members rest u fresh i = elim (Bool-cases (size members == 0)) [
  | inl empty ↦ rw (empty) i
  | inr left ↦ rw (left) (record { unique = (fresh, i.unique); sound = ((u, left), i.sound) })
]

lookup-drop_node-none :
    (group node_id : String) (groups : Dict Members)
    → lookup group groups ≡ none
    → lookup group (drop_node node_id groups) ≡ none
unfolding drop_node lookup
lookup-drop_node-none group node_id [] h = refl
lookup-drop_node-none group node_id ((g, members) ∷ groups) h =
    ground (arith, lookup-drop_node-none group node_id groups, h)

drop_node-IsProcessGroup :
    (node_id : String) (groups : Dict Members)
    → IsProcessGroup groups
    → IsProcessGroup (drop_node node_id groups)
unfolding drop_node
drop_node-IsProcessGroup node_id [] i = i
drop_node-IsProcessGroup node_id ((g, members) ∷ groups) i =
    let (fresh, u) = i.unique in
    let ((um, n), hs) = i.sound in
    put_front-IsProcessGroup g _ (drop_node node_id groups)
      (Unique-delete_where (λ actor_id member. str_eq member.node_id node_id) members um)
      (lookup-drop_node-none g node_id groups fresh)
      (drop_node-IsProcessGroup node_id groups (record { unique = u; sound = hs }))

lookup-leave_groups-none :
    (group actor_id : String) (groups : Dict Members)
    → lookup group groups ≡ none
    → lookup group (leave_groups actor_id groups).0 ≡ none
unfolding leave_groups lookup
lookup-leave_groups-none group actor_id [] h = refl
lookup-leave_groups-none group actor_id ((g, members) ∷ groups) h =
    ground (arith, lookup-leave_groups-none group actor_id groups, h)

leave_groups-IsProcessGroup :
    (actor_id : String) (groups : Dict Members)
    → IsProcessGroup groups
    → IsProcessGroup (leave_groups actor_id groups).0
unfolding leave_groups
leave_groups-IsProcessGroup actor_id [] i = i
leave_groups-IsProcessGroup actor_id ((g, members) ∷ groups) i =
    let (fresh, u) = i.unique in
    let ((um, n), hs) = i.sound in
    let rest = leave_groups-IsProcessGroup actor_id groups (record { unique = u; sound = hs }) in
    let fresh' = lookup-leave_groups-none g actor_id groups fresh in
    elim (Option-cases (lookup actor_id members)) [
      | inl e ↦
          rw (leave_groups, e)
            (record { unique = (fresh', rest.unique); sound = ((um, n), rest.sound) })
      | inr (member, e) ↦
          rw (leave_groups, e)
            (put_front-IsProcessGroup g (delete actor_id members) _
              (Unique-delete actor_id members um) fresh' rest)
    ]

-- One call of the manager, from the program or from another node.
pub data Call : Type 0 where
  joins : String → GroupMember → Call
  leaves : String → String → Call
  leaves_all : String → Call
  hears : ProcessGroupUpdate → Call
  loses_peer : String → Call
  disconnects : Call

unfoldable pub step : Call → ProcessGroup → ProcessGroup
step (joins group member) s = (join group member s).0
step (leaves group actor_id) s = (leave group actor_id s).0
step (leaves_all actor_id) s = (leave_all actor_id s).0
step (hears update) s = handle_update update s
step (loses_peer node_id) s = handle_peer_leave node_id s
step disconnects s = disconnect s

unfoldable pub run : List Call → ProcessGroup → ProcessGroup
run [] s = s
run (call ∷ calls) s = run calls (step call s)

handle_update-IsProcessGroup :
    (update : ProcessGroupUpdate) (s : ProcessGroup)
    → IsProcessGroup s.groups
    → IsProcessGroup (handle_update update s).groups
unfolding handle_update
handle_update-IsProcessGroup (join_update group member) s i =
    elim (Bool-cases (str_eq member.node_id s.node_id)) [
      | inl own ↦ rw (handle_update, own) i
      | inr remote ↦ rw (handle_update, remote) (add_member-IsProcessGroup group member s.groups i)
    ]
handle_update-IsProcessGroup (leave_update group member) s i =
    elim (Bool-cases (str_eq member.node_id s.node_id)) [
      | inl own ↦ rw (handle_update, own) i
      | inr remote ↦
          rw (handle_update, remote) (remove_member-IsProcessGroup group member.actor_id s.groups i)
    ]

step-IsProcessGroup :
    (call : Call) (s : ProcessGroup) → IsProcessGroup s.groups → IsProcessGroup (step call s).groups
unfolding step join leave_all handle_peer_leave disconnect
step-IsProcessGroup (joins group member) s i = add_member-IsProcessGroup group member s.groups i
step-IsProcessGroup (leaves group actor_id) s i = leave-IsProcessGroup group actor_id s i
step-IsProcessGroup (leaves_all actor_id) s i = leave_groups-IsProcessGroup actor_id s.groups i
step-IsProcessGroup (hears update) s i = handle_update-IsProcessGroup update s i
step-IsProcessGroup (loses_peer node_id) s i = drop_node-IsProcessGroup node_id s.groups i
step-IsProcessGroup disconnects s i = record { unique = tt; sound = tt }

run-IsProcessGroup :
    (calls : List Call) (s : ProcessGroup)
    → IsProcessGroup s.groups
    → IsProcessGroup (run calls s).groups
unfolding run
run-IsProcessGroup [] s i = i
run-IsProcessGroup (call ∷ calls) s i =
    run-IsProcessGroup calls (step call s) (step-IsProcessGroup call s i)

-- After any calls from the start, whatever the program and the other nodes do, the groups and the
-- members of each have different names, and no group is empty.
pub run-init-IsProcessGroup :
    (node_id : String) (calls : List Call) → IsProcessGroup (run calls (init node_id)).groups
unfolding init
run-init-IsProcessGroup node_id calls =
    run-IsProcessGroup calls (init node_id) (record { unique = tt; sound = tt })
