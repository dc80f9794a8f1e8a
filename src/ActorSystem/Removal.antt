-- ===== src/ActorSystem/Removal.antt =====
-- What `stop` of src/actor_system.ts does to the tree of children: an actor goes with everything
-- below it, and no deeper fuel makes a difference.
use libeam.Shared.{
  ℕ, zero, suc, ◌+◌, ◌≤◌, ◌<◌, List, [], ◌∷◌, Option, none, some, ◌≡◌, refl, subst, ◌∙◌, ap, arith,
  Option-cases, inl, inr,
}
use libeam.ActorSystem.{ActorRef, Actor, System}
use libeam.ActorSystem.Stopping.{finish_stop, for_each, stop}
use libeam.ActorSystem.Tree.{
  In, Nested, PrunedAt, Pruned, Pruned-refl, Pruned-none, Pruned-trans, Nested-Pruned,
}
use libeam.ActorSystem.Leaving.{Orphaned, finish_stop-Pruned}

-- With enough fuel an actor and its children are gone, and nothing that is older has gone.
abbrev Stops : (ActorRef → System → System) → ActorRef → System → Type 0
Stops run ref s = Pruned ref.id s (run ref s) × ((run ref s).actors ref.id ≡ none)

for_each-Pruned :
    (run : ActorRef → System → System) (k fuel : ℕ) (refs : List ActorRef) (s : System)
    → ((r : ActorRef) (t : System) → Nested t → t.next_id ≤ r.id + fuel → Stops run r t)
    → Nested s
    → ((c : ActorRef) → In c refs → (k ≤ c.id) × (s.next_id ≤ c.id + fuel))
    → Pruned k s (for_each run refs s)
      × ((c : ActorRef) → In c refs → (for_each run refs s).actors c.id ≡ none)
for_each-Pruned run k fuel [] s stops n old = (Pruned-refl k s, λ c m. absurd m)
for_each-Pruned run k fuel (r ∷ refs) s stops n old =
    let t = run r s in
    let (older, enough) = old r (inl refl) in
    let (pruned, dead) = stops r s n enough in
    let (rest, others) =
      for_each-Pruned run k fuel refs t stops (Nested-Pruned r.id s t pruned n)
        (λ c m. ((old c (inr m)).0, rw (pruned.0.0) ((old c (inr m)).1))) in
    (
      Pruned-trans k k s t (for_each run refs t) (omega arith)
          (Pruned-trans k r.id s s t older (Pruned-refl k s) pruned) rest,
      λ c m. elim m [
        | inl e ↦
            subst (λ (x : ActorRef). (for_each run refs t).actors x.id ≡ none) e
              (Pruned-none k t (for_each run refs t) r.id rest dead)
        | inr h ↦ others c h
      ],
    )

-- No actor stands at an identifier that was not given out.
unborn : (s : System) (i : ℕ) → Nested s → s.next_id ≤ i → s.actors i ≡ none
unborn s i n l = elim (Option-cases (s.actors i)) [
  | inl e ↦ e
  | inr (a, e) ↦ absurd (lt_irrefl (n i a e).0)
]
  where
    lt_irrefl : i < s.next_id → ⊥
    lt_irrefl h = omega arith

-- What is left of the children of an actor has gone with them.
Pruned-Orphaned :
    (ref : ActorRef) (a : Actor) (s t : System)
    → s.actors ref.id ≡ some a
    → Pruned ref.id s t
    → ((c : ActorRef) → In c a.children → t.actors c.id ≡ none)
    → Orphaned ref t
Pruned-Orphaned ref a s t e pruned dead b e' c m =
    let at =
      subst (λ o. PrunedAt ref.id t.actors ref.id (some a) o) e'
        (subst (λ o. PrunedAt ref.id t.actors ref.id o (t.actors ref.id)) e (pruned.1 ref.id)) in
    dead c (at.2 c m)

pub stop-Stops :
    (fuel : ℕ) (ref : ActorRef) (s : System)
    → Nested s
    → s.next_id ≤ ref.id + fuel
    → Stops (stop fuel) ref s
unfolding stop
stop-Stops zero ref s n l = (Pruned-refl ref.id s, unborn s ref.id n (omega arith))
stop-Stops (suc fuel) ref s n l = elim (Option-cases (s.actors ref.id)) [
  | inl e ↦ rw (stop, e) ((Pruned-refl ref.id s, e))
  | inr (a, e) ↦
      (let t = for_each (stop fuel) a.children s in
        let (pruned, dead) =
          for_each-Pruned (stop fuel) ref.id fuel a.children s (λ r t. stop-Stops fuel r t) n
            (λ c m. (omega (arith, (n ref.id a e).1 c m), omega (arith, (n ref.id a e).1 c m))) in
        let (finished, ended) =
          finish_stop-Pruned ref a t (Pruned-Orphaned ref a s t e pruned dead) in
        rw (stop, e)
          ((
            Pruned-trans ref.id ref.id s t (finish_stop ref a t) (omega arith) pruned finished,
            ended,
          )))
]

-- A line of descent from `i`: each is a child of the one before.
abbrev pub Descent : System → ℕ → List ActorRef → Type 0
Descent s i [] = Unit
Descent s i (c ∷ cs) = ((a : Actor) × (s.actors i ≡ some a) × In c a.children) × Descent s c.id cs

abbrev pub last_id : ℕ → List ActorRef → ℕ
last_id i [] = i
last_id i (c ∷ cs) = last_id c.id cs

Pruned-Descent :
    (k : ℕ) (s t : System) (i : ℕ) (cs : List ActorRef)
    → Pruned k s t
    → t.actors i ≡ none
    → Descent s i cs
    → t.actors (last_id i cs) ≡ none
Pruned-Descent k s t i [] pruned dead line = dead
Pruned-Descent k s t i (c ∷ cs) pruned dead ((a, e, m), line) =
    let at =
      subst (λ o. PrunedAt k t.actors i (some a) o) dead
        (subst (λ o. PrunedAt k t.actors i o (t.actors i)) e (pruned.1 i)) in
    Pruned-Descent k s t c.id cs pruned (at.1 c m) line

pub Pruned-older :
    (k : ℕ) (s t : System) (i : ℕ) (a : Actor)
    → Pruned k s t
    → i < k
    → s.actors i ≡ some a
    → (b : Actor) × (t.actors i ≡ some b)
Pruned-older k s t i a pruned older e =
    go (t.actors i) refl (subst (λ o. PrunedAt k t.actors i o (t.actors i)) e (pruned.1 i))
  where
    go :
        (o : Option Actor)
        → t.actors i ≡ o
        → PrunedAt k t.actors i (some a) o
        → (b : Actor) × (t.actors i ≡ some b)
    go none e' (l, dead) = absurd (lt_le i k older l)
      where
        lt_le : (x y : ℕ) → x < y → y ≤ x → ⊥
        lt_le x y h l = omega arith
    go (some b) e' at = (b, e')

-- An actor that is stopped is gone with every actor below it, while every actor that was spawned
-- before it is still there: where children are younger than their parents, and the fuel covers the
-- identifiers from the actor's to the next.
pub stop-removes-Descent :
    (fuel : ℕ) (ref : ActorRef) (s : System) (cs : List ActorRef) (i : ℕ) (a : Actor)
    → Nested s
    → s.next_id ≤ ref.id + fuel
    → Descent s ref.id cs
    → i < ref.id
    → s.actors i ≡ some a
    → ((stop fuel ref s).actors (last_id ref.id cs) ≡ none)
      × ((b : Actor) × ((stop fuel ref s).actors i ≡ some b))
stop-removes-Descent fuel ref s cs i a n l line older e =
    let (pruned, dead) = stop-Stops fuel ref s n l in
    (
      Pruned-Descent ref.id s (stop fuel ref s) ref.id cs pruned dead line,
      Pruned-older ref.id s (stop fuel ref s) i a pruned older e,
    )

for_each-agrees :
    (run run' : ActorRef → System → System) (fuel fuel' : ℕ) (refs : List ActorRef) (s : System)
    → ((r : ActorRef) (t : System) → Nested t → t.next_id ≤ r.id + fuel → Stops run r t)
    → ((r : ActorRef) (t : System)
        → Nested t
        → t.next_id ≤ r.id + fuel
        → t.next_id ≤ r.id + fuel'
        → run r t ≡ run' r t)
    → Nested s
    → ((c : ActorRef) → In c refs → (s.next_id ≤ c.id + fuel) × (s.next_id ≤ c.id + fuel'))
    → for_each run refs s ≡ for_each run' refs s
for_each-agrees run run' fuel fuel' [] s stops same n old = refl
for_each-agrees run run' fuel fuel' (r ∷ refs) s stops same n old =
    let (enough, enough') = old r (inl refl) in
    let (pruned, dead) = stops r s n enough in
    for_each-agrees run run' fuel fuel' refs (run r s) stops same
      (Nested-Pruned r.id s (run r s) pruned n)
      (λ c m. (rw (pruned.0.0) ((old c (inr m)).0), rw (pruned.0.0) ((old c (inr m)).1)))
    ∙ ap (λ (t : System). for_each run' refs t) (same r s n enough enough')

-- Stopping an actor comes to an end: any two amounts of fuel that cover the identifiers from the
-- actor's to the next give the same state, where children are younger than their parents.
pub stop-terminates :
    (fuel fuel' : ℕ) (ref : ActorRef) (s : System)
    → Nested s
    → s.next_id ≤ ref.id + fuel
    → s.next_id ≤ ref.id + fuel'
    → stop fuel ref s ≡ stop fuel' ref s
unfolding stop
stop-terminates zero zero ref s n l l' = refl
stop-terminates zero (suc fuel') ref s n l l' = rw (stop, unborn s ref.id n (omega arith)) refl
stop-terminates (suc fuel) zero ref s n l l' = rw (stop, unborn s ref.id n (omega arith)) refl
stop-terminates (suc fuel) (suc fuel') ref s n l l' = elim (Option-cases (s.actors ref.id)) [
  | inl e ↦ rw (stop, e) refl
  | inr (a, e) ↦
      rw (stop, e)
        (ap (finish_stop ref a) (
          for_each-agrees (stop fuel) (stop fuel') fuel fuel' a.children s
            (λ r t. stop-Stops fuel r t) (λ r t. stop-terminates fuel fuel' r t) n
            (λ c m. (omega (arith, (n ref.id a e).1 c m), omega (arith, (n ref.id a e).1 c m)))))
]
