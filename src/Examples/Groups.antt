-- ===== src/Examples/Groups.antt =====
-- Runs of the process groups of src/process_group.ts.
use libeam.Shared.{String, List, [], ◌∷◌, none}
use libeam.ProcessGroup.{GroupMember, ProcessGroup, join_update, init}
use libeam.ProcessGroup.Groups.{IsProcessGroup}
use libeam.ProcessGroup.Sweeps.{
  Call, joins, leaves_all, hears, loses_peer, run, run-init-IsProcessGroup,
}

abbrev worker : String → String → GroupMember
worker node_id actor_id = record { node_id = node_id; actor_id = actor_id; name = none }

abbrev calls : List Call
calls =
    joins "pool" (worker "n1" "a1")
    ∷ hears (join_update "pool" (worker "n2" "b1"))
    ∷ hears (join_update "log" (worker "n2" "b2"))
    ∷ leaves_all "a1"
    ∷ loses_peer "n2"
    ∷ []

run-init-IsProcessGroup_example : IsProcessGroup (run calls (init "n1")).groups
run-init-IsProcessGroup_example = run-init-IsProcessGroup "n1" calls

abbrev here : ProcessGroup
here = record { node_id = "n1"; groups = ("pool", ("a1", worker "n1" "a1") ∷ []) ∷ [] }

abbrev there : ProcessGroup
there = record {
  node_id = "n2";
  groups = ("log", ("b2", worker "n2" "b2") ∷ []) ∷ ("pool", ("a1", worker "n1" "a1") ∷ []) ∷ [];
}
