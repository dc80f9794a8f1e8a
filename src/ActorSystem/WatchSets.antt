-- ===== src/ActorSystem/WatchSets.antt =====
-- The two tables of watches of src/actor_system.ts agree: by identifier of the watch, and by
-- watched actor.
use libeam.Shared.{
  ℕ, ◌+◌, ◌<◌, Bool, true, false, List, [], ◌∷◌, Option, none, some, or_else, ◌≡◌, refl, sym, subst,
  ◌∙◌, ap, ◌==◌, if◌then◌else◌, arith, Bool-cases, inl, inr, ◌||◌,
}
use libeam.Shared.Table.{
  Table, put, remove, elem, set_add, set_delete, set_of, join_set, leave_set, kept, Distinct,
  elem-set_add, elem-set_delete, Distinct-set_add, Distinct-set_delete,
}
use libeam.ActorSystem.{WatchEntry, System}

-- An entry stands under its watch's identifier, which was given out and is in the set of the
-- watched actor; a set has no element twice, and each is a watch of its actor.
abbrev pub AgreeAt : ℕ → Table WatchEntry → Table (List ℕ) → Type 0
AgreeAt next watches by =
    ((i : ℕ) (e : WatchEntry)
      → watches i ≡ some e
      → (e.watch_ref.id ≡ i) × (i < next) × (elem i (set_of (by e.watch_ref.watched_id)) ≡ true))
    × ((k : ℕ) → Distinct (set_of (by k)))
    × ((k i : ℕ)
        → elem i (set_of (by k)) ≡ true
        → (e : WatchEntry) × (watches i ≡ some e) × (e.watch_ref.watched_id ≡ k))

abbrev pub Agree : System → Type 0
Agree s = AgreeAt s.next_id s.watches s.watched_by

pub set_of-leave_set :
    (k x j : ℕ) (t : Table (List ℕ))
    → set_of (leave_set k x t j) ≡ (if k == j then set_delete x (set_of (t j)) else set_of (t j))
set_of-leave_set k x j t = go (k == j) (set_delete x (set_of (t j)))
  where
    go :
        (b : Bool) (xs : List ℕ)
        → set_of (if b then kept xs else t j) ≡ (if b then xs else set_of (t j))
    go true [] = refl
    go true (y ∷ xs) = refl
    go false xs = refl

elem-leave_set :
    (k x a j : ℕ) (t : Table (List ℕ))
    → elem j (set_of (leave_set k x t a)) ≡ (
        if k == a then (if x == j then false else elem j (set_of (t a))) else elem j (set_of (t a)))
elem-leave_set k x a j t =
    ap (elem j) (set_of-leave_set k x a t) ∙ ground (arith, elem-set_delete j x (set_of (t a)))

elem-leave_set-other :
    (k x a j : ℕ) (t : Table (List ℕ))
    → (x == j) ≡ false
    → elem j (set_of (leave_set k x t a)) ≡ elem j (set_of (t a))
elem-leave_set-other k x a j t n = elem-leave_set k x a j t ∙ ground (arith, n)

elem-leave_set-own : (k x : ℕ) (t : Table (List ℕ)) → elem x (set_of (leave_set k x t k)) ≡ false
elem-leave_set-own k x t = elem-leave_set k x k x t ∙ ground arith

abbrev watched_of : Option WatchEntry → ℕ → ℕ
watched_of none k = k
watched_of (some e) k = e.watch_ref.watched_id

pub AgreeAt-remove :
    (next : ℕ) (watches : Table WatchEntry) (by : Table (List ℕ)) (i : ℕ) (e : WatchEntry)
    → watches i ≡ some e
    → AgreeAt next watches by
    → AgreeAt next (remove i watches) (leave_set e.watch_ref.watched_id i by)
AgreeAt-remove next watches by i e q (keyed, distinct, there) = (
  λ j f qf. elim (Bool-cases (i == j)) [
    | inl b ↦ absurd (ground (arith, b, qf))
    | inr b ↦
        (let (own, given_out, member) = keyed j f (ground (arith, b, qf)) in
          (
            own,
            given_out,
            elem-leave_set-other e.watch_ref.watched_id i f.watch_ref.watched_id j by b ∙ member,
          ))
  ],
  λ k.
      rw (set_of-leave_set e.watch_ref.watched_id i k by)
        (elim (Bool-cases (e.watch_ref.watched_id == k)) [
          | inl b ↦ rw (b) (Distinct-set_delete i (set_of (by k)) (distinct k))
          | inr b ↦ rw (b) (distinct k)
        ]),
  λ k j m. elim (Bool-cases (i == j)) [
    | inl b ↦ absurd (gone k j m b)
    | inr b ↦
        (let (f, qf, at) =
            there k j (sym (elem-leave_set-other e.watch_ref.watched_id i k j by b) ∙ m) in
          (f, ground (arith, b, qf), at))
  ],
)
  where
    gone :
        (k j : ℕ)
        → elem j (set_of (leave_set e.watch_ref.watched_id i by k)) ≡ true
        → (i == j) ≡ true
        → ⊥
    gone k j m b =
        let same : i ≡ j = ground (arith, b) in
        let m' : elem i (set_of (leave_set e.watch_ref.watched_id i by k)) ≡ true =
          ap (λ (x : ℕ). elem x (set_of (leave_set e.watch_ref.watched_id i by k))) same ∙ m in
        let was : elem i (set_of (by k)) ≡ true =
          ground (arith, elem-leave_set e.watch_ref.watched_id i k i by, m') in
        let (f, qf, at) = there k i was in
        let owner : e.watch_ref.watched_id ≡ k =
          ap (λ (o : Option WatchEntry). watched_of o k) (sym q ∙ qf) ∙ at in
        absurd (
          ground (
            arith,
            elem-leave_set-own k i by,
            subst (λ (x : ℕ). elem i (set_of (leave_set x i by k)) ≡ true) owner m',
          ))

elem-join_set :
    (k x a j : ℕ) (t : Table (List ℕ))
    → elem j (set_of (join_set k x t a))
      ≡ (if k == a then (x == j) || elem j (set_of (t k)) else elem j (set_of (t a)))
elem-join_set k x a j t = go (k == a)
  where
    go :
        (b : Bool)
        → elem j (set_of (if b then some (set_add x (set_of (t k))) else t a))
          ≡ (if b then (x == j) || elem j (set_of (t k)) else elem j (set_of (t a)))
    go true = elem-set_add j x (set_of (t k))
    go false = refl

Distinct-join_set :
    (k x a : ℕ) (t : Table (List ℕ))
    → ((i : ℕ) → Distinct (set_of (t i)))
    → Distinct (set_of (join_set k x t a))
Distinct-join_set k x a t distinct = go (k == a)
  where
    go : (b : Bool) → Distinct (set_of (if b then some (set_add x (set_of (t k))) else t a))
    go true = Distinct-set_add x (set_of (t k)) (distinct k)
    go false = distinct a

pub AgreeAt-put :
    (next : ℕ) (watches : Table WatchEntry) (by : Table (List ℕ)) (e : WatchEntry)
    → e.watch_ref.id ≡ next
    → AgreeAt next watches by
    → AgreeAt (next + 1) (put next e watches) (join_set e.watch_ref.watched_id next by)
AgreeAt-put next watches by e own (keyed, distinct, there) = (
  λ j f qf. elim (Bool-cases (next == j)) [
    | inl b ↦ fresh j f b (ground (arith, b, qf))
    | inr b ↦
        (let (k1, k2, k3) = keyed j f (ground (arith, b, qf)) in
          (k1, omega arith, kept_member j f k3))
  ],
  λ k. Distinct-join_set e.watch_ref.watched_id next k by distinct,
  λ k j m. elim (Bool-cases (next == j)) [
    | inl b ↦ (e, ground (arith, b), owner k j m b)
    | inr b ↦ (let (f, qf, at) = there k j (older k j m b) in (f, ground (arith, b, qf), at))
  ],
)
  where
    k0 : ℕ
    k0 = e.watch_ref.watched_id

    kept_member :
        (j : ℕ) (f : WatchEntry)
        → elem j (set_of (by f.watch_ref.watched_id)) ≡ true
        → elem j (set_of (join_set k0 next by f.watch_ref.watched_id)) ≡ true
    kept_member j f m =
        elem-join_set k0 next f.watch_ref.watched_id j by ∙ go (k0 == f.watch_ref.watched_id) refl
      where
        go :
            (b : Bool)
            → (k0 == f.watch_ref.watched_id) ≡ b
            → (if b
                then (next == j) || elem j (set_of (by k0))
                else elem j (set_of (by f.watch_ref.watched_id)))
              ≡ true
        go true q =
            let same : k0 ≡ f.watch_ref.watched_id = ground (arith, q) in
            ground (arith, subst (λ (x : ℕ). elem j (set_of (by x)) ≡ true) (sym same) m)
        go false q = m

    fresh :
        (j : ℕ) (f : WatchEntry)
        → (next == j) ≡ true
        → some e ≡ some f
        → (f.watch_ref.id ≡ j)
          × (j < next + 1)
          × (elem j (set_of (join_set k0 next by f.watch_ref.watched_id)) ≡ true)
    fresh j f b q =
        subst
          (λ (g : WatchEntry).
            (g.watch_ref.id ≡ j)
            × (j < next + 1)
            × (elem j (set_of (join_set k0 next by g.watch_ref.watched_id)) ≡ true))
          (ap (λ (o : Option WatchEntry). or_else o e) q)
          (
            own ∙ ground (arith, b),
            ground (arith, b),
            elem-join_set k0 next k0 j by ∙ ground (arith, b),
          )

    older :
        (k j : ℕ)
        → elem j (set_of (join_set k0 next by k)) ≡ true
        → (next == j) ≡ false
        → elem j (set_of (by k)) ≡ true
    older k j m b = go (k0 == k) refl (sym (elem-join_set k0 next k j by) ∙ m)
      where
        go :
            (x : Bool)
            → (k0 == k) ≡ x
            → (if x then (next == j) || elem j (set_of (by k0)) else elem j (set_of (by k))) ≡ true
            → elem j (set_of (by k)) ≡ true
        go true q h =
            let same : k0 ≡ k = ground (arith, q) in
            subst (λ (y : ℕ). elem j (set_of (by y)) ≡ true) same (ground (arith, b, h))
        go false q h = h

    owner : (k j : ℕ) → elem j (set_of (join_set k0 next by k)) ≡ true → (next == j) ≡ true → k0 ≡ k
    owner k j m b = elim (Bool-cases (k0 == k)) [
      | inl q ↦ ground (arith, q)
      | inr q ↦
          (let was : elem j (set_of (by k)) ≡ true =
              ground (arith, q, elem-join_set k0 next k j by, m) in
            let (f, qf, at) = there k j was in absurd (ground (arith, b, (keyed j f qf).1)))
    ]
