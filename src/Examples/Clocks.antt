-- ===== src/Examples/Clocks.antt =====
-- Vector clocks of two and three nodes.
use libeam.Shared.{◌≡◌, refl, ◌↔◌, [], ◌∷◌}
use libeam.Shared.Dict.{lookup, insert}
use libeam.VectorClock.{VectorClock, before, after, concurrent, get, merge, compare}
use libeam.VectorClock.Order.{Lt, compare_iff}

abbrev left : VectorClock
left = ("n1", 2) ∷ ("n2", 1) ∷ []

abbrev right : VectorClock
right = ("n1", 1) ∷ ("n3", 4) ∷ []

abbrev early : VectorClock
early = ("n1", 1) ∷ []

abbrev late : VectorClock
late = ("n1", 2) ∷ ("n2", 1) ∷ ("n3", 1) ∷ []

left_right : compare left right ≡ concurrent
unfolding compare get lookup
left_right = refl

compare_iff_example :
    ((compare left right ≡ before) ↔ Lt left right)
    × ((compare left right ≡ after) ↔ Lt right left)
    × ((compare left right ≡ concurrent) ↔ ((¬ Lt left right) × (¬ Lt right left)))
compare_iff_example = compare_iff left right

merged : merge left right ≡ ("n1", 2) ∷ ("n2", 1) ∷ ("n3", 4) ∷ []
unfolding merge get lookup insert
merged = refl
