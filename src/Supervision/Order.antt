-- ===== src/Supervision/Order.antt =====
-- What the strategies of src/child_supervisor.ts that restart several children come to: which
-- children stop, and which take their places, in which order.
use libeam.Shared.{
  ℕ, ◌+◌, ◌≤◌, ◌<◌, Bool, true, false, List, [], ◌∷◌, ◌++◌, Option, none, some, or_else, ◌≡◌, refl,
  sym, subst, ◌∙◌, ap, arith, ◌==◌, if◌then◌else◌, inl, inr, append-nil, append_assoc, String,
}
use libeam.Shared.Table.{Table, change}
use libeam.ActorSystem.{
  ActorRef, ActorClass, Actor, ActorMetadata, SpawnOptions, System, given, register_name,
  spawn_child, spawn_under, fresh_ref, store_actor, start_actor, adopt,
}
use libeam.ActorSystem.Tree.{
  Nested, Pruned, Pruned-refl, Pruned-none, Pruned-trans, Nested-Pruned, In,
}
use libeam.ActorSystem.Removal.{stop-Stops, Pruned-older}
use libeam.Supervision.{stop_now, stop_reverse, metadata_of, respawn_each, restart_each}

-- The references that take the places of children with these metadata, from an identifier on.
abbrev pub new_refs : ℕ → List (Option ActorMetadata) → List ActorRef
new_refs next [] = []
new_refs next (none ∷ ms) = new_refs next ms
new_refs next (some m ∷ ms) =
    record { handle = next; id = next; name = m.options.name } ∷ new_refs (next + 1) ms

-- The actor has this order of children.
abbrev pub HasOrder : System → ℕ → List ActorRef → Type 0
HasOrder s i order = (a : Actor) × (s.actors i ≡ some a) × (a.child_order ≡ order)

HasOrder-adopt :
    (parent ref : ActorRef) (s : System) (order : List ActorRef)
    → HasOrder s parent.id order
    → HasOrder
        (record s { actors = change parent.id (adopt ref) s.actors })
        parent.id
        (order ++ (ref ∷ []))
HasOrder-adopt parent ref s order (a, e, o) =
    (adopt ref a, ground (arith, e), ap (λ (xs : List ActorRef). xs ++ (ref ∷ [])) o)

HasOrder-store :
    (parent ref : ActorRef) (cls : ActorClass) (options : SpawnOptions) (p : Option ActorRef)
    (s : System) (order : List ActorRef)
    → (ref.id == parent.id) ≡ false
    → HasOrder s parent.id order
    → HasOrder (store_actor ref cls options p s) parent.id order
HasOrder-store parent ref cls options p s order new (a, e, o) = (a, ground (arith, new, e), o)

pub start_actor-fields :
    (ref : ActorRef) (options : SpawnOptions) (s : System)
    → ((start_actor ref options s).actors ≡ s.actors)
      × ((start_actor ref options s).next_id ≡ s.next_id)
      × ((start_actor ref options s).closing ≡ s.closing)
start_actor-fields ref options s = go (given options.name)
  where
    go :
        (name : Option String)
        → ((register_name name ref.id s).actors ≡ s.actors)
          × ((register_name name ref.id s).next_id ≡ s.next_id)
          × ((register_name name ref.id s).closing ≡ s.closing)
    go none = (refl, refl, refl)
    go (some name) = (refl, refl, refl)

-- One child more, in the last place.
spawn_child-adds :
    (parent : ActorRef) (cls : ActorClass) (options : SpawnOptions) (s : System)
    (order : List ActorRef)
    → s.closing ≡ false
    → parent.id < s.next_id
    → HasOrder s parent.id order
    → (t : System) × (spawn_child parent cls options s ≡ some (t, fresh_ref options s))
      × (t.closing ≡ false)
      × (t.next_id ≡ s.next_id + 1)
      × HasOrder t parent.id (order ++ (fresh_ref options s ∷ []))
unfolding spawn_child
spawn_child-adds parent cls options s order running older (a, e, o) =
    let ref = fresh_ref options s in
    let stored = store_actor ref cls options (some parent) s in
    let adopted : System = record stored { actors = change parent.id (adopt ref) stored.actors } in
    let (f1, f2, f3) = start_actor-fields ref options adopted in
    (
      start_actor ref options adopted,
      rw (running, e) refl,
      f3 ∙ running,
      f2,
      subst
          (λ (t : Table Actor).
            (b : Actor) × (t parent.id ≡ some b) × (b.child_order ≡ order ++ (ref ∷ [])))
          (sym f1)
          (HasOrder-adopt parent ref stored order (
            HasOrder-store parent ref cls options (some parent) s order (ground (arith, older))
              (a, e, o))),
    )

respawn_each-adds :
    (parent : ActorRef) (ms : List (Option ActorMetadata)) (s : System) (order : List ActorRef)
    → s.closing ≡ false
    → parent.id < s.next_id
    → HasOrder s parent.id order
    → HasOrder (respawn_each parent ms s) parent.id (order ++ new_refs s.next_id ms)
unfolding respawn_each
respawn_each-adds parent [] s order running older has = rw (append-nil order) has
respawn_each-adds parent (none ∷ ms) s order running older has =
    respawn_each-adds parent ms s order running older has
respawn_each-adds parent (some m ∷ ms) s order running older has =
    let (t, e, running', next, has') =
      spawn_child-adds parent m.actor_class m.options s order running older has in
    let rest =
      respawn_each-adds parent ms t (order ++ (fresh_ref m.options s ∷ [])) running' (omega arith)
        has' in
    let ref = fresh_ref m.options s in
    rw (respawn_each, e)
      (subst (HasOrder (respawn_each parent ms t) parent.id)
        (append_assoc order (ref ∷ []) (new_refs t.next_id ms)
          ∙ ap (λ (n : ℕ). order ++ (ref ∷ new_refs n ms)) next)
        rest)

-- A place below the next identifier that is empty stays empty.
spawn_child-none :
    (parent : ActorRef) (cls : ActorClass) (options : SpawnOptions) (s t : System) (r : ActorRef)
    (i : ℕ)
    → spawn_child parent cls options s ≡ some (t, r)
    → s.actors i ≡ none
    → i < s.next_id
    → (t.actors i ≡ none) × (s.next_id ≤ t.next_id)
unfolding spawn_child
spawn_child-none parent cls options s t r i made e small = go s.closing (s.actors parent.id) made
  where
    ref : ActorRef
    ref = fresh_ref options s

    stored : System
    stored = store_actor ref cls options (some parent) s

    adopted : System
    adopted = record stored { actors = change parent.id (adopt ref) stored.actors }

    empty : (adopted.actors i ≡ none) × (s.next_id ≤ adopted.next_id)
    empty = (ground (arith, e, small), omega arith)

    started :
        ((start_actor ref options adopted).actors i ≡ none)
        × (s.next_id ≤ (start_actor ref options adopted).next_id)
    started =
        let (f1, f2, f3) = start_actor-fields ref options adopted in
        (ap (λ (u : Table Actor). u i) f1 ∙ empty.0, omega (arith, f2))

    go :
        (x : Bool) (o : Option Actor)
        → (if x then none else spawn_under parent cls options o s) ≡ some (t, r)
        → (t.actors i ≡ none) × (s.next_id ≤ t.next_id)
    go true o q = absurd (cc)
    go false none q = absurd (cc)
    go false (some a) q =
        subst (λ (u : System). (u.actors i ≡ none) × (s.next_id ≤ u.next_id))
          (ap (λ (o : Option (System × ActorRef)). (or_else o (t, r)).0) q) started

respawn_each-none :
    (parent : ActorRef) (ms : List (Option ActorMetadata)) (s : System) (i : ℕ)
    → s.actors i ≡ none
    → i < s.next_id
    → (respawn_each parent ms s).actors i ≡ none
unfolding respawn_each
respawn_each-none parent [] s i e small = e
respawn_each-none parent (none ∷ ms) s i e small = respawn_each-none parent ms s i e small
respawn_each-none parent (some m ∷ ms) s i e small =
    go (spawn_child parent m.actor_class m.options s) refl (λ t. respawn_each-none parent ms t i)
  where
    go :
        (o : Option (System × ActorRef))
        → spawn_child parent m.actor_class m.options s ≡ o
        → ((t : System)
            → t.actors i ≡ none
            → i < t.next_id
            → (respawn_each parent ms t).actors i ≡ none)
        → (let after : System = elim o [ none ↦ s | some (t, r) ↦ respawn_each parent ms t ] in
            after.actors i ≡ none)
    go none q ih = e
    go (some (t, r)) q ih =
        let (gone, more) = spawn_child-none parent m.actor_class m.options s t r i q e small in
        ih t gone (omega arith)

-- Those that are stopped go with everything below them, and no actor older than `k` goes.
stop_reverse-Pruned :
    (k : ℕ) (refs : List ActorRef) (s : System)
    → Nested s
    → ((c : ActorRef) → In c refs → k ≤ c.id)
    → Pruned k s (stop_reverse refs s)
      × ((c : ActorRef) → In c refs → (stop_reverse refs s).actors c.id ≡ none)
unfolding stop_reverse
stop_reverse-Pruned k [] s n older = (Pruned-refl k s, λ c m. absurd m)
stop_reverse-Pruned k (r ∷ refs) s n older =
    let t = stop_reverse refs s in
    let (pruned, dead) = stop_reverse-Pruned k refs s n (λ c m. older c (inr m)) in
    let (stopped, gone) = stop-Stops t.next_id r t (Nested-Pruned k s t pruned n) (omega arith) in
    (
      Pruned-trans k k s t (stop_now r t) (omega arith) pruned
          (Pruned-trans k r.id t t (stop_now r t) (older r (inl refl)) (Pruned-refl k t) stopped),
      λ c m. elim m [
        | inl e ↦ subst (λ (x : ActorRef). (stop_now r t).actors x.id ≡ none) e gone
        | inr h ↦ Pruned-none r.id t (stop_now r t) c.id stopped (dead c h)
      ],
    )

-- When several children are restarted, by one-for-all or rest-for-one, each of them is gone, and
-- the parent's order of children is what the stops left of it, followed by one new reference for
-- each of them that had metadata, with its name and the next identifiers, in the order in which
-- they stood: where children are younger than their parents, the parent is there and older than
-- those stopped, and the system is not shutting down.
pub restart_each-respawns :
    (parent : ActorRef) (refs : List ActorRef) (s : System) (a : Actor)
    → Nested s
    → s.closing ≡ false
    → s.actors parent.id ≡ some a
    → ((c : ActorRef) → In c refs → (parent.id < c.id) × (c.id < s.next_id))
    → ((c : ActorRef) → In c refs → (restart_each parent refs s).actors c.id ≡ none)
      × ((left : List ActorRef) × HasOrder (stop_reverse refs s) parent.id left
          × HasOrder
              (restart_each parent refs s)
              parent.id
              (left ++ new_refs s.next_id (metadata_of s refs)))
unfolding restart_each
restart_each-respawns parent refs s a n running e younger =
    let t = stop_reverse refs s in
    let (pruned, dead) =
      stop_reverse-Pruned (parent.id + 1) refs s n (λ c m. omega (arith, (younger c m).0)) in
    let (b, e') = Pruned-older (parent.id + 1) s t parent.id a pruned (omega arith) e in
    let ((f1, f2, f3, f4), at) = pruned in
    (
      λ c m.
          respawn_each-none parent (metadata_of s refs) t c.id (dead c m)
            (omega (arith, (younger c m).1, f1)),
      (
        b.child_order,
        (b, e', refl),
        subst
            (λ (next : ℕ).
              HasOrder (respawn_each parent (metadata_of s refs) t) parent.id
                (b.child_order ++ new_refs next (metadata_of s refs)))
            f1
            (respawn_each-adds parent (metadata_of s refs) t b.child_order (f2 ∙ running)
              (omega (arith, f1, (n parent.id a e).0)) (b, e', refl)),
      ),
    )
