-- ===== src/ActorSystem/Tree.antt =====
-- The tree of children in src/actor_system.ts: a child is younger than its parent, and how the
-- tree may change while actors are stopped.
use libeam.Shared.{
  ℕ, ◌≤◌, ◌<◌, List, [], ◌∷◌, ◌++◌, Option, none, some, ◌≡◌, refl, subst, ◌∙◌, arith, inl, inr, ◌⊎◌,
}
use libeam.Shared.Table.{Table}
use libeam.ActorSystem.{ActorRef, Actor, System}

abbrev pub In : ActorRef → List ActorRef → Type 0
In c [] = ⊥
In c (r ∷ refs) = (r ≡ c) ⊎ In c refs

-- Every actor has an identifier that was given out, and every child was spawned after its parent.
abbrev pub Nested : System → Type 0
Nested s =
    (i : ℕ) (a : Actor)
    → s.actors i ≡ some a
    → (i < s.next_id) × ((c : ActorRef) → In c a.children → (i < c.id) × (c.id < s.next_id))

-- What may become of an actor while others are stopped, where none older than `k` goes: children
-- only leave, and the children that leave, or whose parent leaves, are not there any more.
abbrev pub PrunedAt : ℕ → Table Actor → ℕ → Option Actor → Option Actor → Type 0
PrunedAt k after i none none = Unit
PrunedAt k after i none (some b) = ⊥
PrunedAt k after i (some a) none = (k ≤ i) × ((c : ActorRef) → In c a.children → after c.id ≡ none)
PrunedAt k after i (some a) (some b) =
    (b.self ≡ a.self)
    × (b.actor_class ≡ a.actor_class)
    × ((c : ActorRef) → In c b.children → In c a.children)
    × ((c : ActorRef) → In c a.children → In c b.children ⊎ (after c.id ≡ none))

abbrev pub SameCounters : System → System → Type 0
SameCounters s t =
    (t.next_id ≡ s.next_id)
    × (t.closing ≡ s.closing)
    × (t.restart_counts ≡ s.restart_counts)
    × (t.child_restart_counts ≡ s.child_restart_counts)

abbrev pub Pruned : ℕ → System → System → Type 0
Pruned k s t = SameCounters s t × ((i : ℕ) → PrunedAt k t.actors i (s.actors i) (t.actors i))

pub SameCounters-trans : (s t u : System) → SameCounters s t → SameCounters t u → SameCounters s u
SameCounters-trans s t u (h1, h2, h3, h4) (k1, k2, k3, k4) = (k1 ∙ h1, k2 ∙ h2, k3 ∙ h3, k4 ∙ h4)

pub Pruned-refl : (k : ℕ) (s : System) → Pruned k s s
Pruned-refl k s = ((refl, refl, refl, refl), λ i. at i (s.actors i))
  where
    at : (i : ℕ) (o : Option Actor) → PrunedAt k s.actors i o o
    at i none = tt
    at i (some a) = (refl, refl, λ c h. h, λ c h. inl h)

-- An actor that is not there does not come back.
pub Pruned-none :
    (k : ℕ) (s t : System) (i : ℕ) → Pruned k s t → s.actors i ≡ none → t.actors i ≡ none
Pruned-none k s t i (f, h) e = go (s.actors i) (t.actors i) (h i) e
  where
    go : (o p : Option Actor) → PrunedAt k t.actors i o p → o ≡ none → p ≡ none
    go none none h e = refl
    go none (some b) h e = absurd h
    go (some a) p h e = absurd (cc)

PrunedAt-trans :
    (j k : ℕ) (mid after : Table Actor) (i : ℕ) (o p q : Option Actor)
    → j ≤ k
    → ((x : ℕ) → mid x ≡ none → after x ≡ none)
    → PrunedAt j mid i o p
    → PrunedAt k after i p q
    → PrunedAt j after i o q
PrunedAt-trans j k mid after i none none q l gone h m = go q m
  where
    go : (q : Option Actor) → PrunedAt k after i none q → PrunedAt j after i none q
    go none m = m
    go (some c) m = m
PrunedAt-trans j k mid after i none (some b) q l gone h m = absurd h
PrunedAt-trans j k mid after i (some a) none none l gone (h, g) m = (h, λ c e. gone c.id (g c e))
PrunedAt-trans j k mid after i (some a) none (some c) l gone h m = absurd m
PrunedAt-trans j k mid after i (some a) (some b) none l gone (h1, h2, sub, left) (m, g) =
    (omega arith, λ c e. elim (left c e) [ inl e' ↦ g c e' | inr n ↦ gone c.id n ])
PrunedAt-trans j k mid after i (some a) (some b) (some c) l gone (h1, h2, sub, left)
      (m1, m2, sub', left') =
    (
      m1 ∙ h1,
      m2 ∙ h2,
      λ x e. sub x (sub' x e),
      λ x e. elim (left x e) [ inl e' ↦ left' x e' | inr n ↦ inr (gone x.id n) ],
    )

pub Pruned-trans : (j k : ℕ) (s t u : System) → j ≤ k → Pruned j s t → Pruned k t u → Pruned j s u
Pruned-trans j k s t u l (f, h) (g, m) = (
  SameCounters-trans s t u f g,
  λ i.
      PrunedAt-trans j k t.actors u.actors i (s.actors i) (t.actors i) (u.actors i) l
        (λ x. Pruned-none k t u x (g, m)) (h i) (m i),
)

pub Nested-Pruned : (k : ℕ) (s t : System) → Pruned k s t → Nested s → Nested t
Nested-Pruned k s t (f, h) n i b e = go (s.actors i) (h i) refl
  where
    go :
        (o : Option Actor)
        → PrunedAt k t.actors i o (t.actors i)
        → s.actors i ≡ o
        → (i < t.next_id) × ((c : ActorRef) → In c b.children → (i < c.id) × (c.id < t.next_id))
    go none p e' = absurd (subst (λ o. PrunedAt k t.actors i none o) e p)
    go (some a) p e' =
        let (p1, p2, sub, left) = subst (λ o. PrunedAt k t.actors i (some a) o) e p in
        (rw (f.0) ((n i a e').0), λ c m. rw (f.0) ((n i a e').1 c (sub c m)))

pub In-append :
    (c r : ActorRef) (refs : List ActorRef) → In c (refs ++ (r ∷ [])) → In c refs ⊎ (r ≡ c)
In-append c r [] (inl e) = inr e
In-append c r [] (inr m) = absurd m
In-append c r (x ∷ refs) (inl e) = inl (inl e)
In-append c r (x ∷ refs) (inr m) = elim (In-append c r refs m) [
  | inl h ↦ inl (inr h)
  | inr e ↦ inr e
]
