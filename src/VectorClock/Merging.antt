-- ===== src/VectorClock/Merging.antt =====
-- What `merge`, `increment` and `isEmpty` of src/vector_clock.ts say of the counters.
use libeam.Shared.{
  ℕ, ◌+◌, ◌<◌, max, String, ◌≡◌, refl, ◌↔◌, ◌∙◌, true, [], ◌∷◌, none, arith, if◌then◌else◌, str_eq,
  eq_iff, eq_refl,
}
use libeam.Shared.Dict.{lookup, insert, Unique, Unique-insert, lookup-insert, values}
use libeam.VectorClock.{VectorClock, before, get, increment, merge, compare, all_zero, is_empty}
use libeam.VectorClock.Order.{Le, compare_iff}

pub get-insert :
    (k j : String) (n : ℕ) (c : VectorClock)
    → get (insert k n c) j ≡ (if str_eq k j then n else get c j)
unfolding get
get-insert k j n c = ground (arith, lookup-insert k j n c)

get-increment :
    (c : VectorClock) (node_id j : String)
    → get (increment c node_id) j ≡ (if str_eq node_id j then get c j + 1 else get c j)
unfolding increment
get-increment c node_id j =
    ground (arith, get-insert node_id j (get c node_id + 1) c, eq_iff node_id j)

-- An event on a node adds one to that node's counter, leaves the others, and makes a clock that
-- the old one is before.
pub increment_lem :
    (c : VectorClock) (node_id j : String)
    → (get (increment c node_id) j ≡ (if str_eq node_id j then get c j + 1 else get c j))
      × (compare c (increment c node_id) ≡ before)
increment_lem c node_id j =
    (get-increment c node_id j, (compare_iff c (increment c node_id)).0.1 (grows, (node_id, own)))
  where
    grows : Le c (increment c node_id)
    grows i = ground (arith, get-increment c node_id i)

    own : get c node_id < get (increment c node_id) node_id
    own = ground (arith, get-increment c node_id node_id, eq_refl node_id)

get_fresh : (k : String) (c : VectorClock) → lookup k c ≡ none → get c k ≡ 0
unfolding get
get_fresh k c h = rw h

get-cons :
    (k j : String) (n : ℕ) (c : VectorClock)
    → get ((k, n) ∷ c) j ≡ (if str_eq k j then n else get c j)
unfolding get lookup
get-cons k j n c = ground arith

get-nil : (k : String) → get [] k ≡ 0
unfolding get lookup
get-nil k = refl

-- Merging takes the larger counter for every node, on any two clocks as a `Map` holds them.
pub get-merge :
    (c d : VectorClock) (k : String) → Unique d → get (merge c d) k ≡ max (get c k) (get d k)
unfolding merge
get-merge c [] k u = omega (arith, get-nil k)
get-merge c ((j, n) ∷ d) k (fresh, u) =
    get-merge (insert j (max (get c j) n) c) d k u
    ∙ ground (
      arith,
      get-insert j k (max (get c j) n) c,
      get-cons j k n d,
      eq_iff j k,
      get_fresh j d fresh,
    )

pub Unique-merge : (c d : VectorClock) → Unique c → Unique (merge c d)
unfolding merge
Unique-merge c [] u = u
Unique-merge c ((j, n) ∷ d) u =
    Unique-merge (insert j (max (get c j) n) c) d (Unique-insert j (max (get c j) n) c u)

-- The merged clock is the least that is at least both: each is below it, and every clock above
-- both is above it.
pub merge_least :
    (c d e : VectorClock)
    → Unique d
    → Le c (merge c d) × Le d (merge c d) × ((Le c e × Le d e) ↔ Le (merge c d) e)
merge_least c d e u = (
  λ k. omega (arith, get-merge c d k u),
  λ k. omega (arith, get-merge c d k u),
  (
    λ h k. omega (arith, get-merge c d k u, h.0 k, h.1 k),
    λ h. (λ k. omega (arith, get-merge c d k u, h k), λ k. omega (arith, get-merge c d k u, h k)),
  ),
)

all_zero-get : (c : VectorClock) (k : String) → all_zero (values c) ≡ true → get c k ≡ 0
all_zero-get [] k h = get-nil k
all_zero-get ((j, n) ∷ c) k h = ground (arith, get-cons j k n c, all_zero-get c k)

get-all_zero :
    (c : VectorClock) → Unique c → ((k : String) → get c k ≡ 0) → all_zero (values c) ≡ true
get-all_zero [] u h = refl
get-all_zero ((j, n) ∷ c) (fresh, u) h =
    ground (arith, get-cons j j n c, eq_refl j, h j, get-all_zero c u rest)
  where
    rest : (k : String) → get c k ≡ 0
    rest k = ground (arith, get-cons j k n c, eq_iff j k, h k, get_fresh j c fresh)

is_empty-all_zero : (c : VectorClock) → is_empty c ≡ all_zero (values c)
unfolding is_empty
is_empty-all_zero [] = refl
is_empty-all_zero ((j, n) ∷ c) = ground arith

-- A clock is empty exactly when it counts nothing for any node.
pub is_empty_iff : (c : VectorClock) → Unique c → (is_empty c ≡ true) ↔ ((k : String) → get c k ≡ 0)
is_empty_iff c u = rw (is_empty-all_zero c) ((λ h k. all_zero-get c k h), (λ h. get-all_zero c u h))
