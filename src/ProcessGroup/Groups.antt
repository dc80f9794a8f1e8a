-- ===== src/ProcessGroup/Groups.antt =====
-- What holds of the groups of src/process_group.ts after every call: none is empty, and a join or a
-- departure reaches the same member on every node.
use libeam.Shared.{
  String, ◌≡◌, refl, subst, inl, inr, false, [], ◌∷◌, Option, none, some, arith, ◌==◌, str_eq,
  or_else, Bool-cases,
}
use libeam.Shared.Dict.{Dict, lookup, insert, delete, size, Unique, Unique-insert, Unique-delete}
use libeam.ProcessGroup.{
  GroupMember, Members, ProcessGroup, add_member, put_back, leave, leave_as, remove_member,
}

-- A group's members have different identifiers, and there is one at least.
abbrev pub IsGroup : Members → Type 0
IsGroup members = Unique members × ((size members == 0) ≡ false)

abbrev pub AreGroups : Dict Members → Type 0
AreGroups [] = Unit
AreGroups ((group, members) ∷ rest) = IsGroup members × AreGroups rest

pub record IsProcessGroup (groups : Dict Members) : Type 0 where
  pub unique : Unique groups
  pub sound : AreGroups groups

insert-AreGroups :
    (group : String) (members : Members) (groups : Dict Members)
    → IsGroup members
    → AreGroups groups
    → AreGroups (insert group members groups)
unfolding insert
insert-AreGroups group members [] i h = (i, tt)
insert-AreGroups group members ((g, own) ∷ groups) i (h, hs) =
    ground (arith, insert-AreGroups group members groups i hs, i, h, hs)

delete-AreGroups :
    (group : String) (groups : Dict Members) → AreGroups groups → AreGroups (delete group groups)
unfolding delete
delete-AreGroups group [] h = tt
delete-AreGroups group ((g, own) ∷ groups) (h, hs) =
    ground (arith, delete-AreGroups group groups hs, h, hs)

lookup-AreGroups :
    (group : String) (members : Members) (groups : Dict Members)
    → AreGroups groups
    → lookup group groups ≡ some members
    → Unique members
unfolding lookup
lookup-AreGroups group members [] h e = absurd (ground (arith, e))
lookup-AreGroups group members ((g, own) ∷ groups) ((u, n), hs) e =
    elim (Bool-cases (str_eq g group)) [
      | inl same ↦ subst Unique (ground (arith, same, e)) u
      | inr other ↦ lookup-AreGroups group members groups hs (ground (arith, other, e))
    ]

size-insert :
    (id : String) (member : GroupMember) (members : Members)
    → (size (insert id member members) == 0) ≡ false
unfolding insert
size-insert id member [] = refl
size-insert id member ((i, m) ∷ members) = ground arith

pub add_member-IsProcessGroup :
    (group : String) (member : GroupMember) (groups : Dict Members)
    → IsProcessGroup groups
    → IsProcessGroup (add_member group member groups)
unfolding add_member
add_member-IsProcessGroup group member groups i = record {
  unique = Unique-insert group _ groups i.unique;
  sound =
      insert-AreGroups group _ groups (members_sound, size-insert member.actor_id member _) i.sound;
}
  where
    go : (o : Option Members) → lookup group groups ≡ o → Unique (or_else o [])
    go none e = tt
    go (some members) e = lookup-AreGroups group members groups i.sound e

    members_sound : Unique (insert member.actor_id member (or_else (lookup group groups) []))
    members_sound = Unique-insert member.actor_id member _ (go (lookup group groups) refl)

put_back-IsProcessGroup :
    (group : String) (members : Members) (groups : Dict Members)
    → Unique members
    → IsProcessGroup groups
    → IsProcessGroup (put_back group members groups)
unfolding put_back
put_back-IsProcessGroup group members groups u i = elim (Bool-cases (size members == 0)) [
  | inl empty ↦
      rw (put_back, empty)
        (record {
          unique = Unique-delete group groups i.unique;
          sound = delete-AreGroups group groups i.sound;
        })
  | inr left ↦
      rw (put_back, left)
        (record {
          unique = Unique-insert group members groups i.unique;
          sound = insert-AreGroups group members groups (u, left) i.sound;
        })
]

pub remove_member-IsProcessGroup :
    (group actor_id : String) (groups : Dict Members)
    → IsProcessGroup groups
    → IsProcessGroup (remove_member group actor_id (lookup group groups) groups)
unfolding remove_member
remove_member-IsProcessGroup group actor_id groups i = go (lookup group groups) refl
  where
    go :
        (o : Option Members)
        → lookup group groups ≡ o
        → IsProcessGroup (remove_member group actor_id o groups)
    go none e = i
    go (some members) e =
        put_back-IsProcessGroup group (delete actor_id members) groups
          (Unique-delete actor_id members (lookup-AreGroups group members groups i.sound e)) i

pub leave-IsProcessGroup :
    (group actor_id : String) (s : ProcessGroup)
    → IsProcessGroup s.groups
    → IsProcessGroup (leave group actor_id s).0.groups
unfolding leave
leave-IsProcessGroup group actor_id s i = go (lookup group s.groups) refl
  where
    at :
        (members : Members)
        → Unique members
        → (o : Option GroupMember) → IsProcessGroup (leave_as group actor_id members o s).0.groups
    at members u none = i
    at members u (some member) =
        put_back-IsProcessGroup group (delete actor_id members) s.groups
          (Unique-delete actor_id members u) i

    go :
        (o : Option Members)
        → lookup group s.groups ≡ o
        → IsProcessGroup (leave group actor_id s).0.groups
    go none e = rw (leave, e) i
    go (some members) e =
        rw (leave, e)
          (at members (lookup-AreGroups group members s.groups i.sound e) (lookup actor_id members))
