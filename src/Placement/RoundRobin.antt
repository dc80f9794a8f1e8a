-- ===== src/Placement/RoundRobin.antt =====
-- The turns that round robin of src/placement.ts gives to the members.
use libeam.Shared.{
  ℕ, zero, suc, ◌+◌, ◌%◌, String, List, ◌∷◌, Option, none, some, length, get_elem?, or_else, ◌≡◌,
  refl, ◌∙◌, ap, arith,
}
use libeam.Shared.Dict.{Dict, lookup, lookup-insert_self}
use libeam.Placement.{round_robin, Cluster, with_role, next_count, member_at, select_node}

-- The counters after that many selections under one role.
unfoldable pub selections : ℕ → Cluster → Option String → Dict ℕ → Dict ℕ
unfolding select_node
selections zero cluster role counters = counters
selections (suc k) cluster role counters =
    selections k cluster role (select_node cluster round_robin role counters).0

-- The members that a selection under the role is from.
abbrev pub pool : Cluster → Option String → List String
pool cluster role = or_else (with_role role cluster.members_by_role) cluster.members

select_node-counter :
    (cluster : Cluster) (role : Option String) (counters : Dict ℕ) (m : String) (ms : List String)
    → pool cluster role ≡ m ∷ ms
    → let key = or_else role "__all__" in
      let r = select_node cluster round_robin role counters in
      (lookup key r.0 ≡ some (next_count (lookup key counters)))
      × (r.1 ≡ member_at (get_elem? (m ∷ ms) (next_count (lookup key counters) % length (m ∷ ms))))
unfolding select_node
select_node-counter cluster role counters m ms e = rw (e) (
    (
      lookup-insert_self (or_else role "__all__")
          (next_count (lookup (or_else role "__all__") counters)) counters,
      refl,
    ))

next_count-selections :
    (k : ℕ) (cluster : Cluster) (role : Option String) (counters : Dict ℕ) (m : String)
    (ms : List String)
    → pool cluster role ≡ m ∷ ms
    → next_count (lookup (or_else role "__all__") (selections k cluster role counters))
      ≡ next_count (lookup (or_else role "__all__") counters) + k
unfolding selections
next_count-selections zero cluster role counters m ms e = omega arith
next_count-selections (suc k) cluster role counters m ms e =
    let after = (select_node cluster round_robin role counters).0 in
    let (counter, placed) = select_node-counter cluster role counters m ms e in
    let one_more : next_count (lookup (or_else role "__all__") after)
        ≡ next_count (lookup (or_else role "__all__") counters) + 1 =
      ap (λ (o : Option ℕ). next_count o) counter in
    omega (arith, next_count-selections k cluster role after m ms e, one_more)

-- Round robin gives the members their turns in order: while the members under a role stay the same,
-- the selection after `k` others is the member `k` places after the first turn, counted round the
-- members, where no selection was made under the role before. There is at least one member.
pub select_node-selections :
    (k : ℕ) (cluster : Cluster) (role : Option String) (counters : Dict ℕ) (m : String)
    (ms : List String)
    → pool cluster role ≡ m ∷ ms
    → lookup (or_else role "__all__") counters ≡ none
    → (select_node cluster round_robin role (selections k cluster role counters)).1
      ≡ member_at (get_elem? (m ∷ ms) (k % length (m ∷ ms)))
select_node-selections k cluster role counters m ms e unused =
    let reached : next_count (lookup (or_else role "__all__") (selections k cluster role counters))
        ≡ k =
      next_count-selections k cluster role counters m ms e
      ∙ ap (λ (o : Option ℕ). next_count o + k) unused
      ∙ omega arith in
    (select_node-counter cluster role (selections k cluster role counters) m ms e).1
    ∙ ap (λ (n : ℕ). member_at (get_elem? (m ∷ ms) (n % length (m ∷ ms)))) reached
