-- ===== src/DynamicSupervisor/Limits.antt =====
-- The limit on children of src/dynamic_supervisor.ts, and what terminating one does.
use libeam.Shared.{
  ℕ, ◌+◌, ◌≤◌, ◌<◌, true, false, List, [], ◌∷◌, ◌++◌, Option, none, some, ◌≡◌, refl, sym, subst,
  ◌∙◌, ap, leb, ◌==◌, length, length-append, arith, Bool-cases, inl, inr, ◌⊎◌, ◌≢◌,
}
use libeam.Shared.Table.{Table, change}
use libeam.ActorSystem.{
  ActorRef, ActorClass, Actor, SpawnOptions, System, spawn_child, fresh_ref, store_actor, adopt,
  start_actor,
}
use libeam.ActorSystem.Tree.{In, Nested}
use libeam.ActorSystem.Removal.{stop-Stops, Pruned-older}
use libeam.Supervision.{stop_now}
use libeam.Supervision.Order.{start_actor-fields}
use libeam.DynamicSupervisor.{
  max_children_error, started, children_of, children, handle_start_child, find_child,
  handle_terminate_child, handle_count_children,
}

-- A child that is spawned is the last of its parent's children.
spawn_child-children :
    (self : ActorRef) (cls : ActorClass) (options : SpawnOptions) (s : System) (a : Actor)
    → s.closing ≡ false
    → self.id < s.next_id
    → s.actors self.id ≡ some a
    → (t : System) × (spawn_child self cls options s ≡ some (t, fresh_ref options s))
      × (children self t ≡ children self s ++ (fresh_ref options s ∷ []))
unfolding spawn_child
spawn_child-children self cls options s a running older e =
    let ref = fresh_ref options s in
    let stored = store_actor ref cls options (some self) s in
    let adopted : System = record stored { actors = change self.id (adopt ref) stored.actors } in
    let (f1, f2, f3) = start_actor-fields ref options adopted in
    let found : adopted.actors self.id ≡ some (adopt ref a) = ground (arith, older, e) in
    (
      start_actor ref options adopted,
      rw (running, e) refl,
      ap (λ (u : Table Actor). children_of (u self.id)) f1
          ∙ ap (λ (o : Option Actor). children_of o) found
          ∙ ap (λ (o : Option Actor). children_of o ++ (ref ∷ [])) (sym e),
    )

-- A child is started exactly when there are fewer children than the maximum: then it is the last of
-- the children under the next identifier, and the counts are one more, which is not above the
-- maximum; otherwise nothing changes and the answer is the error with the maximum. The supervisor
-- is there and the system is not shutting down.
pub handle_start_child-limit :
    (most : ℕ) (self : ActorRef) (cls : ActorClass) (options : SpawnOptions) (s : System)
    (a : Actor)
    → s.closing ≡ false
    → self.id < s.next_id
    → s.actors self.id ≡ some a
    → let r = handle_start_child (some most) self cls options s in
      ((most ≤ length (children self s)) × (r ≡ (s, max_children_error most)))
      ⊎ ((r.1 ≡ started (fresh_ref options s))
          × (children self r.0 ≡ children self s ++ (fresh_ref options s ∷ []))
          × ((handle_count_children self r.0).active ≡ (handle_count_children self s).active + 1)
          × ((handle_count_children self r.0).active ≤ most))
unfolding handle_start_child handle_count_children
handle_start_child-limit most self cls options s a running older e =
    elim (Bool-cases (leb most (length (children self s)))) [
      | inl b ↦ inl (ground (arith, b), rw (b) refl)
      | inr b ↦ inr (
          let (t, made, kids) = spawn_child-children self cls options s a running older e in
          let more : length (children self t) ≡ length (children self s) + 1 =
            ap (λ (cs : List ActorRef). length cs) kids
            ∙ length-append (children self s) (fresh_ref options s ∷ []) in
          let bound : length (children self t) ≤ most = ground (arith, b, more) in
          rw (b, made) ((refl, kids, more, bound)))
    ]

-- What `find` finds is there and has the identifier, and where it finds nothing no child has it.
find_child-lem :
    (id : ℕ) (cs : List ActorRef)
    → ((find_child id cs ≡ none) × ((c : ActorRef) → In c cs → c.id ≢ id))
      ⊎ ((c : ActorRef) × (find_child id cs ≡ some c) × In c cs × (c.id ≡ id))
find_child-lem id [] = inl (refl, λ c m. absurd m)
find_child-lem id (x ∷ cs) = elim (Bool-cases (x.id == id)) [
  | inl b ↦ inr (x, ground (arith, b), inl refl, ground (arith, b))
  | inr b ↦ elim (find_child-lem id cs) [
    | inl (e, away) ↦ inl (
      ground (arith, b, e),
      λ c m. elim m [
        | inl q ↦ subst (λ (y : ActorRef). y.id ≢ id) q (λ h. absurd (ground (arith, b, h)))
        | inr h ↦ away c h
      ],
    )
    | inr (c, e, m, own) ↦ inr (c, ground (arith, b, e), inr m, own)
  ]
]

-- To terminate a child answers true exactly when a child of the supervisor has the identifier of
-- the reference: then no actor is under that identifier any more and the supervisor is still there;
-- otherwise nothing changes. The supervisor is there and children are younger than their parents.
pub handle_terminate_child-stops :
    (self ref : ActorRef) (s : System) (a : Actor)
    → Nested s
    → s.actors self.id ≡ some a
    → let r = handle_terminate_child self ref s in
      ((r ≡ (s, false)) × ((c : ActorRef) → In c (children self s) → c.id ≢ ref.id))
      ⊎ ((r.1 ≡ true)
          × ((c : ActorRef) × In c (children self s) × (c.id ≡ ref.id))
          × (r.0.actors ref.id ≡ none)
          × ((b : Actor) × (r.0.actors self.id ≡ some b)))
unfolding handle_terminate_child
handle_terminate_child-stops self ref s a n e = elim (find_child-lem ref.id (children self s)) [
  | inl (absent, away) ↦ inl (rw (absent) refl, away)
  | inr (c, found, m, own) ↦ inr (
      let (pruned, dead) = stop-Stops s.next_id c s n (omega arith) in
      let mine : In c a.children = subst (λ (o : Option Actor). In c (children_of o)) e m in
      rw (found) (
        (
          refl,
          (c, m, own),
          subst (λ (i : ℕ). (stop_now c s).actors i ≡ none) own dead,
          Pruned-older c.id s (stop_now c s) self.id a pruned ((n self.id a e).1 c mine).0 e,
        )))
]
