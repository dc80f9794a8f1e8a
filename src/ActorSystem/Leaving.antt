-- ===== src/ActorSystem/Leaving.antt =====
-- How an actor that is stopped leaves the tree of children in src/actor_system.ts, once its own
-- children are gone.
use libeam.Shared.{
  ℕ, Bool, true, false, List, [], ◌∷◌, Option, none, some, ◌≡◌, refl, sym, subst, ◌∙◌, ap, ◌==◌,
  if◌then◌else◌, arith, Bool-cases, inl, inr, ◌⊎◌, String,
}
use libeam.Shared.Table.{Table, change, remove, update}
use libeam.ActorSystem.{ActorRef, normal, Actor, ActorMetadata, System, same_object, given}
use libeam.ActorSystem.Watching.{unwatch_all, notify_watchers}
use libeam.ActorSystem.Linking.{notify_linked_actors}
use libeam.ActorSystem.Stopping.{
  without_object, disown, disown_from, leave_parent_of, leave_parent, unregister_name, remove_actor,
  current, no_crash, finish_stop,
}
use libeam.ActorSystem.Frame.{
  SameActor, SameFields, Quiet, Quiet-trans, unwatch_all-Quiet, notify_watchers-Quiet,
  notify_linked_actors-Quiet,
}
use libeam.ActorSystem.Tree.{In, PrunedAt, SameCounters, SameCounters-trans, Pruned}

pub In-without_object :
    (ref c : ActorRef) (refs : List ActorRef) → In c (without_object ref refs) → In c refs
In-without_object ref c [] m = m
In-without_object ref c (r ∷ refs) m =
    go (same_object r ref) (λ h. In-without_object ref c refs h) m
  where
    go :
        (b : Bool)
        → (In c (without_object ref refs) → In c refs)
        → In c (if b then without_object ref refs else (r ∷ without_object ref refs))
        → In c (r ∷ refs)
    go true ih m = inr (ih m)
    go false ih (inl e) = inl e
    go false ih (inr h) = inr (ih h)

-- Only an object with the identifier leaves.
without_object-keeps :
    (ref c : ActorRef) (refs : List ActorRef)
    → In c refs
    → In c (without_object ref refs) ⊎ (ref.id ≡ c.id)
without_object-keeps ref c [] m = absurd m
without_object-keeps ref c (r ∷ refs) m =
    go (same_object r ref) refl m (λ h. without_object-keeps ref c refs h)
  where
    go :
        (b : Bool)
        → same_object r ref ≡ b
        → In c (r ∷ refs)
        → (In c refs → In c (without_object ref refs) ⊎ (ref.id ≡ c.id))
        → In c (if b then without_object ref refs else (r ∷ without_object ref refs))
          ⊎ (ref.id ≡ c.id)
    go true e (inl h) ih = inr (sym (ground (arith, e)) ∙ ap (λ (x : ActorRef). x.id) h)
    go true e (inr h) ih = ih h
    go false e (inl h) ih = inl (inl h)
    go false e (inr h) ih = elim (ih h) [ inl k ↦ inl (inr k) | inr k ↦ inr k ]

-- What `leave_parent` may do to an actor.
abbrev pub LosesAt : ActorRef → Option Actor → Option Actor → Type 0
LosesAt ref none none = Unit
LosesAt ref none (some b) = ⊥
LosesAt ref (some a) none = ⊥
LosesAt ref (some a) (some b) =
    (b.self ≡ a.self)
    × (b.actor_class ≡ a.actor_class)
    × ((b.children ≡ a.children) ⊎ (b.children ≡ without_object ref a.children))

LosesAt-SameActor :
    (ref : ActorRef) (o p q : Option Actor) → LosesAt ref o p → SameActor p q → LosesAt ref o q
LosesAt-SameActor ref none none none h m = tt
LosesAt-SameActor ref none none (some c) h m = absurd m
LosesAt-SameActor ref none (some b) q h m = absurd h
LosesAt-SameActor ref (some a) none q h m = absurd h
LosesAt-SameActor ref (some a) (some b) none h m = absurd m
LosesAt-SameActor ref (some a) (some b) (some c) (h1, h2, h3) (m1, m2, m3, m4) =
    (m1 ∙ h1, m2 ∙ h2, elim h3 [ inl e ↦ inl (m3 ∙ e) | inr e ↦ inr (m3 ∙ e) ])

LosesAt-refl : (ref : ActorRef) (o : Option Actor) → LosesAt ref o o
LosesAt-refl ref none = tt
LosesAt-refl ref (some a) = (refl, refl, inl refl)

abbrev pub Loses : ActorRef → System → System → Type 0
Loses ref s t = SameCounters s t × ((i : ℕ) → LosesAt ref (s.actors i) (t.actors i))

disown_from-Loses :
    (ref : ActorRef) (p : Option ActorRef) (s : System) → Loses ref s (disown_from ref p s)
disown_from-Loses ref none s = ((refl, refl, refl, refl), λ i. LosesAt-refl ref (s.actors i))
disown_from-Loses ref (some parent) s = ((refl, refl, refl, refl), λ i. at i)
  where
    updated : (o : Option Actor) → LosesAt ref o (update (disown ref) o)
    updated none = tt
    updated (some a) = (refl, refl, inr refl)

    at : (i : ℕ) → LosesAt ref (s.actors i) (change parent.id (disown ref) s.actors i)
    at i = elim (Bool-cases (parent.id == i)) [
      | inl e ↦ rw (e) (updated (s.actors i))
      | inr e ↦ rw (e) (LosesAt-refl ref (s.actors i))
    ]

pub leave_parent-Loses : (ref : ActorRef) (s : System) → Loses ref s (leave_parent ref s)
unfolding leave_parent
leave_parent-Loses ref s = go (s.actor_metadata ref.id)
  where
    go : (m : Option ActorMetadata) → Loses ref s (leave_parent_of ref m s)
    go none = ((refl, refl, refl, refl), λ i. LosesAt-refl ref (s.actors i))
    go (some m) = disown_from-Loses ref m.parent s

-- The state in which `finish_stop` deletes the actor's records, which `remove_actor` is given.
abbrev stopping : ActorRef → Actor → System → System
stopping ref actor s =
    let alone = leave_parent ref s in
    let unwatched = unwatch_all (current actor (alone.actors ref.id)).watches alone in
    let told = notify_watchers ref normal unwatched in notify_linked_actors no_crash ref normal told

SameFields→SameCounters : (s t : System) → SameFields s t → SameCounters s t
SameFields→SameCounters s t (f1, f2, f3, f4, f5) = (f1, f2, f4, f5)

pub Loses-Quiet : (ref : ActorRef) (s t u : System) → Loses ref s t → Quiet t u → Loses ref s u
Loses-Quiet ref s t u ((h1, h2, h3, h4), h) ((k1, k2, k3, k4, k5), k) = (
  (k1 ∙ h1, k2 ∙ h2, k4 ∙ h3, k5 ∙ h4),
  λ i. LosesAt-SameActor ref (s.actors i) (t.actors i) (u.actors i) (h i) (k i),
)

stopping-Loses : (ref : ActorRef) (actor : Actor) (s : System) → Loses ref s (stopping ref actor s)
stopping-Loses ref actor s =
    let alone = leave_parent ref s in
    let unwatched = unwatch_all (current actor (alone.actors ref.id)).watches alone in
    let told = notify_watchers ref normal unwatched in
    let cut = notify_linked_actors no_crash ref normal told in
    Loses-Quiet ref s alone cut (leave_parent-Loses ref s) (
      Quiet-trans alone unwatched cut
        (unwatch_all-Quiet (current actor (alone.actors ref.id)).watches alone)
        (Quiet-trans unwatched told cut (notify_watchers-Quiet ref normal unwatched)
          (notify_linked_actors-Quiet no_crash ref told)))

pub remove_actor-fields :
    (ref : ActorRef) (s : System)
    → SameCounters s (remove_actor ref s) × ((remove_actor ref s).actors ≡ remove ref.id s.actors)
unfolding remove_actor
remove_actor-fields ref s = go (given ref.name)
  where
    go :
        (name : Option String)
        → SameCounters s (unregister_name name s)
          × (remove ref.id (unregister_name name s).actors ≡ remove ref.id s.actors)
    go none = ((refl, refl, refl, refl), refl)
    go (some name) = ((refl, refl, refl, refl), refl)

abbrev pub Orphaned : ActorRef → System → Type 0
Orphaned ref s =
    (a : Actor) → s.actors ref.id ≡ some a → (c : ActorRef) → In c a.children → s.actors c.id ≡ none

Loses-none :
    (ref : ActorRef) (s t : System) (x : ℕ)
    → Loses ref s t
    → s.actors x ≡ none
    → remove ref.id t.actors x ≡ none
Loses-none ref s t x (f, h) e = go (s.actors x) (t.actors x) (ref.id == x) (h x) e
  where
    go :
        (o p : Option Actor) (b : Bool)
        → LosesAt ref o p
        → o ≡ none
        → (if b then none else p) ≡ none
    go o p true h e = refl
    go none none false h e = refl
    go none (some b) false h e = absurd h
    go (some a) p false h e = absurd (cc)

-- The actor goes, and its parent no longer has it as a child.
Loses-PrunedAt :
    (ref : ActorRef) (s t : System)
    → Orphaned ref s
    → Loses ref s t
    → (i : ℕ) → PrunedAt ref.id (remove ref.id t.actors) i (s.actors i) (remove ref.id t.actors i)
Loses-PrunedAt ref s t orphaned loses i =
    go (s.actors i) (t.actors i) (ref.id == i) refl refl (loses.1 i)
  where
    go :
        (o p : Option Actor) (b : Bool)
        → s.actors i ≡ o
        → (ref.id == i) ≡ b
        → LosesAt ref o p
        → PrunedAt ref.id (remove ref.id t.actors) i o (if b then none else p)
    go none none true e q h = tt
    go none none false e q h = tt
    go none (some b) x e q h = absurd h
    go (some a) none x e q h = absurd h
    go (some a) (some b) true e q h = (
      ground (arith, q),
      λ c m. Loses-none ref s t c.id loses (orphaned a (ap s.actors (ground (arith, q)) ∙ e) c m),
    )
    go (some a) (some b) false e q (h1, h2, inl same) =
        (h1, h2, λ c m. subst (In c) same m, λ c m. inl (subst (In c) (sym same) m))
    go (some a) (some b) false e q (h1, h2, inr fewer) = (
      h1,
      h2,
      λ c m. In-without_object ref c a.children (subst (In c) fewer m),
      λ c m. elim (without_object-keeps ref c a.children m) [
        | inl k ↦ inl (subst (In c) (sym fewer) k)
        | inr own ↦ inr (ground (arith, own))
      ],
    )

gone : (k : ℕ) (t : Table Actor) → remove k t k ≡ none
gone k t = ground arith

-- After `finish_stop` the actor is gone, where its children were gone before.
pub finish_stop-Pruned :
    (ref : ActorRef) (actor : Actor) (s : System)
    → Orphaned ref s
    → Pruned ref.id s (finish_stop ref actor s) × ((finish_stop ref actor s).actors ref.id ≡ none)
unfolding finish_stop
finish_stop-Pruned ref actor s orphaned =
    let t = stopping ref actor s in
    let loses = stopping-Loses ref actor s in
    let (same, removed) = remove_actor-fields ref t in
    (
      (
        SameCounters-trans s t (remove_actor ref t) loses.0 same,
        subst (λ (after : Table Actor). (i : ℕ) → PrunedAt ref.id after i (s.actors i) (after i))
            (sym removed) (Loses-PrunedAt ref s t orphaned loses),
      ),
      subst (λ (after : Table Actor). after ref.id ≡ none) (sym removed) (gone ref.id t.actors),
    )
