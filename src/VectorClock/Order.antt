-- ===== src/VectorClock/Order.antt =====
-- What `compare` of src/vector_clock.ts decides.
use libeam.Shared.{
  ap, ℕ, ◌≤◌, ◌<◌, String, ◌≡◌, refl, ◌↔◌, ◌⊎◌, inl, inr, Bool, true, false, not, ◌&&◌, ◌||◌, List,
  [], ◌∷◌, ◌++◌, arith, ltb, keep, Bool-cases, eq_iff, str_eq,
}
use libeam.Shared.Dict.{Dict, lookup, keys, has}
use libeam.VectorClock.{
  VectorClock, Causality, before, after, concurrent, get, all_nodes, compare_nodes, verdict,
  compare,
}

-- One clock knows no more than another of any node.
abbrev pub Le : VectorClock → VectorClock → Type 0
Le c d = (k : String) → get c k ≤ get d k

-- ... and less of some node.
abbrev pub Lt : VectorClock → VectorClock → Type 0
Lt c d = Le c d × ((k : String) × (get c k < get d k))

any_less : VectorClock → VectorClock → List String → Bool
any_less c d [] = false
any_less c d (k ∷ ks) = ltb (get c k) (get d k) || any_less c d ks

compare_nodes-any_less :
    (c d : VectorClock) (ks : List String) (g l : Bool)
    → compare_nodes c d ks g l ≡ (g || any_less d c ks, l || any_less c d ks)
unfolding compare_nodes any_less
compare_nodes-any_less c d [] g l = ground arith
compare_nodes-any_less c d (k ∷ ks) g l = ground (
  arith,
  compare_nodes-any_less c d ks (g || ltb (get d k) (get c k)) (l || ltb (get c k) (get d k)),
)

any_less-true :
    (c d : VectorClock) (ks : List String)
    → any_less c d ks ≡ true
    → (k : String) × (get c k < get d k)
unfolding any_less
any_less-true c d [] h = cc
any_less-true c d (k ∷ ks) h = elim (Bool-cases (ltb (get c k) (get d k))) [
  | inl e ↦ (k, ground arith)
  | inr e ↦ any_less-true c d ks (rw e at h)
]

-- A key that the nodes list holds.
member : String → List String → Bool
member k [] = false
member k (j ∷ js) = str_eq j k || member k js

any_less-false :
    (c d : VectorClock) (ks : List String) (k : String)
    → any_less c d ks ≡ false
    → member k ks ≡ true
    → get d k ≤ get c k
unfolding any_less member
any_less-false c d [] k h m = cc
any_less-false c d (j ∷ ks) k h m = ground (arith, eq_iff j k, any_less-false c d ks k)

member-append :
    (k : String) (xs ys : List String) → member k (xs ++ ys) ≡ (member k xs || member k ys)
unfolding member
member-append k [] ys = refl
member-append k (x ∷ xs) ys = ground (arith, member-append k xs ys)

member-keep :
    (k : String) (p : String → Bool) (xs : List String)
    → member k (keep p xs) ≡ (member k xs && p k)
unfolding member
member-keep k p [] = refl
member-keep k p (x ∷ xs) = ground (arith, eq_iff x k, member-keep k p xs)

member-keys : (k : String) (c : Dict ℕ) → member k (keys c) ≡ has k c
unfolding member lookup
member-keys k [] = refl
member-keys k ((j, v) ∷ c) = ground (arith, member-keys k c)

get_absent : (k : String) (c : VectorClock) → has k c ≡ false → get c k ≡ 0
unfolding get
get_absent k c h = ground arith

-- A node that neither clock names counts 0 in both, so looking at the named ones is enough.
any_less-all_nodes-false :
    (c d e f : VectorClock) (k : String)
    → any_less e f (all_nodes c d) ≡ false
    → ((e ≡ c) × (f ≡ d)) ⊎ ((e ≡ d) × (f ≡ c))
    → get f k ≤ get e k
unfolding all_nodes
any_less-all_nodes-false c d e f k h which = ground (
  arith,
  any_less-false e f (all_nodes c d) k,
  member-append k (keys c) (keep (λ j. not (has j c)) (keys d)),
  member-keep k (λ j. not (has j c)) (keys d),
  member-keys k c,
  member-keys k d,
  get_absent k c,
  get_absent k d,
)

any_less_of_lt :
    (c d e f : VectorClock) (k : String)
    → get e k < get f k
    → ((e ≡ c) × (f ≡ d)) ⊎ ((e ≡ d) × (f ≡ c))
    → any_less e f (all_nodes c d) ≡ true
any_less_of_lt c d e f k h which = ground (arith, any_less-all_nodes-false c d e f k)

-- How the two flags at the end of the loop decide.
compare-any_less :
    (c d : VectorClock)
    → compare c d ≡ verdict (any_less d c (all_nodes c d), any_less c d (all_nodes c d))
unfolding compare
compare-any_less c d = ap verdict (compare_nodes-any_less c d (all_nodes c d) false false)

before_of_Lt : (c d : VectorClock) → Lt c d → compare c d ≡ before
unfolding verdict
before_of_Lt c d (le, (k, lt)) = elim (Bool-cases (any_less d c (all_nodes c d))) [
  | inl e ↦ let (j, over) = any_less-true d c (all_nodes c d) e in absurd (omega (arith, le j))
  | inr e ↦ ground (arith, compare-any_less c d, any_less_of_lt c d c d k lt (inl (refl, refl)))
]

after_of_Lt : (c d : VectorClock) → Lt d c → compare c d ≡ after
unfolding verdict
after_of_Lt c d (le, (k, lt)) = elim (Bool-cases (any_less c d (all_nodes c d))) [
  | inl e ↦ let (j, over) = any_less-true c d (all_nodes c d) e in absurd (omega (arith, le j))
  | inr e ↦ ground (arith, compare-any_less c d, any_less_of_lt c d d c k lt (inr (refl, refl)))
]

flags_of_before :
    (c d : VectorClock)
    → compare c d ≡ before
    → (any_less d c (all_nodes c d) ≡ false) × (any_less c d (all_nodes c d) ≡ true)
unfolding verdict
flags_of_before c d h = ground (arith, compare-any_less c d)

flags_of_after :
    (c d : VectorClock)
    → compare c d ≡ after
    → (any_less d c (all_nodes c d) ≡ true) × (any_less c d (all_nodes c d) ≡ false)
unfolding verdict
flags_of_after c d h = ground (arith, compare-any_less c d)

Lt_of_before : (c d : VectorClock) → compare c d ≡ before → Lt c d
Lt_of_before c d h =
    let (no_more, less) = flags_of_before c d h in
    (
      λ k. any_less-all_nodes-false c d d c k no_more (inr (refl, refl)),
      any_less-true c d (all_nodes c d) less,
    )

Lt_of_after : (c d : VectorClock) → compare c d ≡ after → Lt d c
Lt_of_after c d h =
    let (more, no_less) = flags_of_after c d h in
    (
      λ k. any_less-all_nodes-false c d c d k no_less (inl (refl, refl)),
      any_less-true d c (all_nodes c d) more,
    )

Causality-cases : (v : Causality) → (v ≡ before) ⊎ ((v ≡ after) ⊎ (v ≡ concurrent))
Causality-cases before = inl refl
Causality-cases after = inr (inl refl)
Causality-cases concurrent = inr (inr refl)

concurrent_of_not : (c d : VectorClock) → ¬ Lt c d → ¬ Lt d c → compare c d ≡ concurrent
concurrent_of_not c d h k = elim (Causality-cases (compare c d)) [
  | inl e ↦ absurd (h (Lt_of_before c d e))
  | inr (inl e) ↦ absurd (k (Lt_of_after c d e))
  | inr (inr e) ↦ e
]

-- `compare` answers 'before' exactly when the first clock counts no more than the second for
-- every node and less for some node, 'after' exactly when that holds the other way round, and
-- 'concurrent' exactly when neither does, for all nodes and not only for those the clocks name.
pub compare_iff :
    (c d : VectorClock)
    → ((compare c d ≡ before) ↔ Lt c d)
      × ((compare c d ≡ after) ↔ Lt d c)
      × ((compare c d ≡ concurrent) ↔ ((¬ Lt c d) × (¬ Lt d c)))
compare_iff c d = (
  (Lt_of_before c d, before_of_Lt c d),
  (Lt_of_after c d, after_of_Lt c d),
  (
    λ e. (λ lt. cc (before_of_Lt c d lt), λ lt. cc (after_of_Lt c d lt)),
    λ h. concurrent_of_not c d h.0 h.1,
  ),
)

abbrev pub flip : Causality → Causality
flip before = after
flip after = before
flip concurrent = concurrent

-- Comparing the other way round gives the opposite answer.
pub compare-flip : (c d : VectorClock) → compare d c ≡ flip (compare c d)
compare-flip c d = elim (Causality-cases (compare c d)) [
  | inl e ↦ rw (e, after_of_Lt d c (Lt_of_before c d e))
  | inr (inl e) ↦ rw (e, before_of_Lt d c (Lt_of_after c d e))
  | inr (inr e) ↦
      rw e (concurrent_of_not d c (λ lt. cc (after_of_Lt c d lt)) (λ lt. cc (before_of_Lt c d lt)))
]

-- 'before' is transitive, and what it puts in order is never in order the other way round.
pub before_trans :
    (c d e : VectorClock)
    → compare c d ≡ before
    → compare d e ≡ before
    → (compare c e ≡ before) × (compare e c ≡ after)
before_trans c d e p q =
    let (le, (k, lt)) = Lt_of_before c d p in
    let (le', lt') = Lt_of_before d e q in
    let both : Lt c e = (λ j. omega (arith, le j, le' j), (k, omega (arith, le' k))) in
    (before_of_Lt c e both, after_of_Lt e c both)
