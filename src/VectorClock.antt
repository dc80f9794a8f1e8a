-- ===== src/VectorClock.antt =====
-- src/vector_clock.ts: the class VectorClock over its `Map<string, number>`.
pub mod Order
pub mod Merging
use libeam.Shared.{
  ℕ, zero, suc, ◌+◌, max, String, ◌≡◌, refl, Bool, true, false, not, ◌&&◌, ◌||◌, List, [], ◌∷◌,
  ◌++◌, ltb, ◌==◌, keep, if◌then◌else◌, or_else,
}
use libeam.Shared.Dict.{Dict, lookup, insert, keys, values, size, has}

abbrev pub VectorClock : Type 0
VectorClock = Dict ℕ

-- `this.clock.get(nodeId) || 0`.
unfoldable pub get : VectorClock → String → ℕ
get c node_id = or_else (lookup node_id c) 0

unfoldable pub increment : VectorClock → String → VectorClock
unfolding get
increment c node_id = insert node_id (get c node_id + 1) c

-- The loop of `merge` over the entries of the other clock.
unfoldable pub merge : VectorClock → VectorClock → VectorClock
unfolding get
merge c [] = c
merge c ((node_id, tick) ∷ other) = merge (insert node_id (max (get c node_id) tick) c) other

pub data Causality : Type 0 where
  before after concurrent : Causality

-- The set of node ids of both clocks, in order of insertion.
unfoldable pub all_nodes : VectorClock → VectorClock → List String
all_nodes c d = keys c ++ keep (λ node_id. not (has node_id c)) (keys d)

-- The loop of `compare` over them, with its two flags.
unfoldable pub compare_nodes : VectorClock → VectorClock → List String → Bool → Bool → Bool × Bool
compare_nodes c d [] has_greater has_less = (has_greater, has_less)
compare_nodes c d (node_id ∷ nodes) has_greater has_less =
    compare_nodes c d nodes (has_greater || ltb (get d node_id) (get c node_id))
      (has_less || ltb (get c node_id) (get d node_id))

unfoldable pub verdict : Bool × Bool → Causality
verdict (has_greater, has_less) =
    if has_greater && not has_less
    then after
    else (if has_less && not has_greater then before else concurrent)

unfoldable pub compare : VectorClock → VectorClock → Causality
unfolding compare_nodes verdict all_nodes
compare c d = verdict (compare_nodes c d (all_nodes c d) false false)

abbrev is_before : Causality → Bool
is_before before = true
is_before _ = false

abbrev is_after : Causality → Bool
is_after after = true
is_after _ = false

abbrev is_concurrent' : Causality → Bool
is_concurrent' concurrent = true
is_concurrent' _ = false

pub is_less_than : VectorClock → VectorClock → Bool
is_less_than c d = is_before (compare c d)

pub is_greater_than : VectorClock → VectorClock → Bool
is_greater_than c d = is_after (compare c d)

pub is_concurrent : VectorClock → VectorClock → Bool
is_concurrent c d = is_concurrent' (compare c d)

abbrev all_zero : List ℕ → Bool
all_zero [] = true
all_zero (v ∷ vs) = v == 0 && all_zero vs

pub is_empty : VectorClock → Bool
is_empty c = size c == 0 || all_zero (values c)
