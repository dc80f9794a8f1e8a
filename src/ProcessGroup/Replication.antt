-- ===== src/ProcessGroup/Replication.antt =====
-- Two nodes with the groups of src/process_group.ts stay in agreement over joins and departures.
use libeam.Shared.{
  String, ◌≡◌, refl, sym, ap, subst, ◌∙◌, inl, inr, true, false, ◌&&◌, List, [], ◌∷◌, Option, none,
  some, arith, ◌==◌, str_eq, eq_iff, if◌then◌else◌, or_else, Bool-cases, Option-cases,
}
use libeam.Shared.Dict.{Dict, lookup, insert, delete, size, lookup-insert, lookup-delete}
use libeam.ProcessGroup.{
  GroupMember, ProcessGroupUpdate, leave_update, Members, ProcessGroup, add_member, put_back, join,
  leave, leave_as, handle_update, remove_member,
}

abbrev pub within : String → Option Members → Option GroupMember
within actor_id none = none
within actor_id (some members) = lookup actor_id members

-- The member of a group under an identifier.
abbrev pub member_at : String → String → Dict Members → Option GroupMember
member_at group actor_id groups = within actor_id (lookup group groups)

lookup-size_zero :
    (id : String) (members : Members) → (size members == 0) ≡ true → lookup id members ≡ none
unfolding lookup
lookup-size_zero id [] h = refl
lookup-size_zero id (m ∷ members) h = absurd (ground (arith, h))

within-or_else : (id : String) (o : Option Members) → lookup id (or_else o []) ≡ within id o
unfolding lookup
within-or_else id none = refl
within-or_else id (some members) = refl

member_at-add_member :
    (g a group : String) (member : GroupMember) (groups : Dict Members)
    → member_at g a (add_member group member groups)
      ≡ (if str_eq group g && str_eq member.actor_id a then some member else member_at g a groups)
unfolding add_member
member_at-add_member g a group member groups = ground (
  arith,
  lookup-insert group g (insert member.actor_id member (or_else (lookup group groups) [])) groups,
  lookup-insert member.actor_id a member (or_else (lookup group groups) []),
  within-or_else a (lookup group groups),
  eq_iff group g,
)

member_at-put_back :
    (g a group actor_id : String) (members : Members) (groups : Dict Members)
    → lookup group groups ≡ some members
    → member_at g a (put_back group (delete actor_id members) groups)
      ≡ (if str_eq group g && str_eq actor_id a then none else member_at g a groups)
unfolding put_back
member_at-put_back g a group actor_id members groups e =
    elim (Bool-cases (size (delete actor_id members) == 0)) [
      | inl empty ↦
          rw (put_back, empty)
            (ground (
              arith,
              lookup-delete group g groups,
              lookup-delete actor_id a members,
              lookup-size_zero a (delete actor_id members) empty,
              eq_iff group g,
              e,
            ))
      | inr left ↦
          rw (put_back, left)
            (ground (
              arith,
              lookup-insert group g (delete actor_id members) groups,
              lookup-delete actor_id a members,
              eq_iff group g,
              e,
            ))
    ]

member_at-remove_member :
    (g a group actor_id : String) (groups : Dict Members)
    → member_at g a (remove_member group actor_id (lookup group groups) groups)
      ≡ (if str_eq group g && str_eq actor_id a then none else member_at g a groups)
unfolding remove_member
member_at-remove_member g a group actor_id groups = elim (Option-cases (lookup group groups)) [
  | inl e ↦ rw (e) (ground (arith, eq_iff group g, e))
  | inr (members, e) ↦ rw (e) (member_at-put_back g a group actor_id members groups e)
]

leave_lem :
    (group : String) (s : ProcessGroup) (member : GroupMember)
    → member_at group member.actor_id s.groups ≡ some member
    → ((leave group member.actor_id s).1 ≡ leave_update group member ∷ [])
      × ((leave group member.actor_id s).0.groups
          ≡ remove_member group member.actor_id (lookup group s.groups) s.groups)
unfolding leave leave_as remove_member
leave_lem group s member h = elim (Option-cases (lookup group s.groups)) [
  | inl e ↦ absurd (ground (arith, e, h))
  | inr (members, e) ↦
      rw (leave, e, subst (λ o. within member.actor_id o ≡ some member) e h) (refl, refl)
]

-- What a node makes of the updates that it hears.
unfoldable pub hear_all : List ProcessGroupUpdate → ProcessGroup → ProcessGroup
hear_all [] t = t
hear_all (update ∷ updates) t = hear_all updates (handle_update update t)

-- Where two nodes agree on a member of a group, they agree on it again after one of them has let a
-- member that does not live on the other join any group and the other has heard what that published.
pub join_replicates :
    (g a group : String) (member : GroupMember) (s t : ProcessGroup)
    → str_eq member.node_id t.node_id ≡ false
    → member_at g a s.groups ≡ member_at g a t.groups
    → member_at g a (join group member s).0.groups
      ≡ member_at g a (hear_all (join group member s).1 t).groups
unfolding join hear_all handle_update
join_replicates g a group member s t other same =
    rw
      (
        handle_update,
        other,
        member_at-add_member g a group member s.groups,
        member_at-add_member g a group member t.groups,
        same,
      )
      refl

-- Where two nodes agree on a member of a group, they agree on it again after one of them has let a
-- member that does not live on the other leave a group and the other has heard what that published.
pub leave_replicates :
    (g a group : String) (member : GroupMember) (s t : ProcessGroup)
    → str_eq member.node_id t.node_id ≡ false
    → member_at group member.actor_id s.groups ≡ some member
    → member_at g a s.groups ≡ member_at g a t.groups
    → member_at g a (leave group member.actor_id s).0.groups
      ≡ member_at g a (hear_all (leave group member.actor_id s).1 t).groups
unfolding hear_all handle_update
leave_replicates g a group member s t other there same =
    let (published, left) = leave_lem group s member there in
    ap (member_at g a) left
    ∙ member_at-remove_member g a group member.actor_id s.groups
    ∙ ap (λ o. if str_eq group g && str_eq member.actor_id a then none else o) same
    ∙ sym (member_at-remove_member g a group member.actor_id t.groups)
    ∙ sym (rw (published, handle_update, other) refl)
