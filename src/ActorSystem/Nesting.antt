-- ===== src/ActorSystem/Nesting.antt =====
-- Every operation of src/actor_system.ts keeps children younger than their parents.
use libeam.Shared.{
  ℕ, ◌+◌, ◌≤◌, ◌<◌, Bool, true, false, List, [], ◌∷◌, ◌++◌, Option, none, some, ◌≡◌, refl, sym,
  subst, ◌∙◌, ap, ◌==◌, if◌then◌else◌, arith, Bool-cases, Option-cases, inl, inr, String,
}
use libeam.Shared.Table.{Table, change, remove, update}
use libeam.ActorSystem.{
  ActorRef, Actor, ActorClass, ActorMetadata, SpawnOptions, System, spawn, spawn_child, spawn_under,
  given, register_name, adopt, new_actor, store_actor, start_actor, fresh_ref, set_trap_exit,
}
use libeam.Shared.Dict.{is_some}
use libeam.ActorSystem.{WatchRef, LinkRef, normal}
use libeam.ActorSystem.Watching.{watch, unwatch_all, fresh_watch, record_watch, send_down_message}
use libeam.ActorSystem.Linking.{link, link_actors, record_link, add_link, unlink_all}
use libeam.ActorSystem.Stopping.{
  leave_parent, remove_actor, current, stop_single, respawn_under, outcome, restart_with, restart,
}
use libeam.ActorSystem.Frame.{
  SameActor, SameActor-change, SameActor-trans, Quiet, unwatch_all-Quiet, unlink_all-Quiet,
  send_down_message-Quiet,
}
use libeam.ActorSystem.Leaving.{
  Loses, LosesAt, leave_parent-Loses, remove_actor-fields, In-without_object,
}
use libeam.ActorSystem.Tree.{In, In-append, Nested}

-- Nothing is given an identifier that was not given out before, and children only leave.
abbrev pub Shrunk : System → System → Type 0
Shrunk s t =
    (s.next_id ≤ t.next_id)
    × ((i : ℕ) (b : Actor)
        → t.actors i ≡ some b
        → (a : Actor) × (s.actors i ≡ some a)
          × ((c : ActorRef) → In c b.children → In c a.children))

pub Nested-Shrunk : (s t : System) → Shrunk s t → Nested s → Nested t
Nested-Shrunk s t (f, h) n i b e =
    let (a, e', sub) = h i b e in
    let (young, below) = n i a e' in
    (omega arith, λ c m. ((below c (sub c m)).0, omega (arith, (below c (sub c m)).1)))

SameActor-some :
    (i : ℕ) (b : Actor) (o : Option Actor) (s : System)
    → s.actors i ≡ o
    → SameActor o (some b)
    → (a : Actor) × (s.actors i ≡ some a) × ((c : ActorRef) → In c b.children → In c a.children)
SameActor-some i b none s e h = absurd h
SameActor-some i b (some a) s e (h1, h2, h3, h4) = (a, e, λ c m. subst (In c) h3 m)

le_of_eq : (x y : ℕ) → y ≡ x → x ≤ y
le_of_eq x y e = omega arith

-- The same actors, and perhaps more identifiers given out.
same_actors-Nested :
    (s t : System)
    → s.next_id ≤ t.next_id
    → ((i : ℕ) → SameActor (s.actors i) (t.actors i))
    → Nested s
    → Nested t
same_actors-Nested s t l h =
    Nested-Shrunk s t
      (l, λ i b e. SameActor-some i b (s.actors i) s refl (subst (SameActor (s.actors i)) e (h i)))

pub Quiet→Shrunk : (s t : System) → Quiet s t → Shrunk s t
Quiet→Shrunk s t (f, h) = (
  le_of_eq s.next_id t.next_id f.0,
  λ i b e. SameActor-some i b (s.actors i) s refl (subst (SameActor (s.actors i)) e (h i)),
)

pub Nested-Quiet : (s t : System) → Quiet s t → Nested s → Nested t
Nested-Quiet s t q n = Nested-Shrunk s t (Quiet→Shrunk s t q) n

-- Nothing but the log and the registry's part of it.
register_name-Nested :
    (name : Option String) (id : ℕ) (s : System) → Nested s → Nested (register_name name id s)
register_name-Nested none id s n = n
register_name-Nested (some name) id s n = n

store_actor-Nested :
    (ref : ActorRef) (cls : ActorClass) (options : SpawnOptions) (p : Option ActorRef) (s : System)
    → ref.id ≡ s.next_id
    → Nested s
    → Nested (store_actor ref cls options p s)
store_actor-Nested ref cls options p s fresh n i b e = go (ref.id == i) refl e
  where
    go :
        (x : Bool)
        → (ref.id == i) ≡ x
        → (if x then some (new_actor ref cls p) else s.actors i) ≡ some b
        → (i < s.next_id + 1)
          × ((c : ActorRef) → In c b.children → (i < c.id) × (c.id < s.next_id + 1))
    go true q e = (
      ground (arith, q, fresh),
      λ c m. absurd (subst (λ (o : Option Actor). In c (kids o)) (sym e) m),
    )
      where
        kids : Option Actor → List ActorRef
        kids none = []
        kids (some y) = y.children
    go false q e =
        let (young, below) = n i b e in
        (omega arith, λ c m. ((below c m).0, omega (arith, (below c m).1)))

abbrev pub landed {ℓ} : {A : Type ℓ} → System → Option (System × A) → System
landed s none = s
landed s (some (t, a)) = t

pub spawn-Nested :
    (cls : ActorClass) (options : SpawnOptions) (s : System)
    → Nested s
    → Nested (landed s (spawn cls options s))
unfolding spawn
spawn-Nested cls options s n = go s.closing
  where
    started : System
    started = store_actor (fresh_ref options s) cls options none s

    go :
        (x : Bool)
        → Nested (
            landed s (
              if x
              then none
              else some (start_actor (fresh_ref options s) options started, fresh_ref options s)))
    go true = n
    go false =
        register_name-Nested (given options.name) s.next_id started
          (store_actor-Nested (fresh_ref options s) cls options none s refl n)

adopt-Nested :
    (parent ref : ActorRef) (s : System)
    → Nested s
    → parent.id < ref.id
    → ref.id < s.next_id
    → Nested (record s { actors = change parent.id (adopt ref) s.actors })
adopt-Nested parent ref s n older known i b e = go (parent.id == i) (s.actors i) refl refl e
  where
    go :
        (x : Bool) (o : Option Actor)
        → (parent.id == i) ≡ x
        → s.actors i ≡ o
        → (if x then update (adopt ref) o else o) ≡ some b
        → (i < s.next_id) × ((c : ActorRef) → In c b.children → (i < c.id) × (c.id < s.next_id))
    go false o q e' e = n i b (e' ∙ e)
    go true none q e' e = absurd (cc)
    go true (some a) q e' e =
        let (young, below) = n i a e' in
        (
          young,
          λ c m.
              elim (In-append c ref a.children
                (subst (λ (o : Option Actor). In c (kids o)) (sym e) m)) [
                  | inl h ↦ below c h
                  | inr h ↦ (
                    subst (λ (x : ActorRef). i < x.id) h (ground (arith, q)),
                    subst (λ (x : ActorRef). x.id < s.next_id) h known,
                  )
                ],
        )
      where
        kids : Option Actor → List ActorRef
        kids none = []
        kids (some y) = y.children

pub spawn_child-Nested :
    (parent : ActorRef) (cls : ActorClass) (options : SpawnOptions) (s : System)
    → Nested s
    → Nested (landed s (spawn_child parent cls options s))
unfolding spawn_child
spawn_child-Nested parent cls options s n = go s.closing (s.actors parent.id) refl
  where
    ref : ActorRef
    ref = fresh_ref options s

    stored : System
    stored = store_actor ref cls options (some parent) s

    go :
        (x : Bool) (o : Option Actor)
        → s.actors parent.id ≡ o
        → Nested (landed s (if x then none else spawn_under parent cls options o s))
    go true o e = n
    go false none e = n
    go false (some a) e =
        register_name-Nested (given options.name) s.next_id
          (record stored { actors = change parent.id (adopt ref) stored.actors })
          (adopt-Nested parent ref stored
            (store_actor-Nested ref cls options (some parent) s refl n) ((n parent.id a e).0)
            (omega arith))

pub watch-Nested :
    (watcher watched : ActorRef) (s : System) → Nested s → Nested (watch watcher watched s).0
unfolding watch
watch-Nested watcher watched s n = go (is_some (watching.actors watched.id))
  where
    ref : WatchRef
    ref = fresh_watch watcher watched s

    watching : System
    watching = record_watch ref watcher watched s

    n' : Nested watching
    n' =
        same_actors-Nested s watching (omega arith)
          (SameActor-change watcher.id (λ a. record a { watches = a.watches ++ (ref ∷ []) })
            s.actors (λ a. (refl, refl, refl, refl)))
          n

    go :
        (x : Bool)
        → Nested
            (if◌then◌else◌ {A = System × WatchRef} x
              (watching, ref)
              (send_down_message ref watched normal watching, ref)).0
    go true = n'
    go false =
        Nested-Quiet watching (send_down_message ref watched normal watching)
          (send_down_message-Quiet ref watched normal watching) n'

pub link-Nested :
    (actor1 actor2 : ActorRef) (s : System) → Nested s → Nested (landed s (link actor1 actor2 s))
unfolding link
link-Nested actor1 actor2 s n = go (s.actors actor1.id) (s.actors actor2.id)
  where
    ref : LinkRef
    ref = record { id = s.next_id; actor1_id = actor1.id; actor2_id = actor2.id }

    go : (o p : Option Actor) → Nested (landed s (link_actors actor1 actor2 o p s))
    go none p = n
    go (some a) none = n
    go (some a) (some b) =
        same_actors-Nested s (record_link ref actor1 actor2 s) (omega arith)
          (λ i.
            SameActor-trans (s.actors i) (change actor1.id (add_link ref) s.actors i) _
              (SameActor-change actor1.id (add_link ref) s.actors (λ a. (refl, refl, refl, refl)) i)
              (SameActor-change actor2.id (add_link ref) (change actor1.id (add_link ref) s.actors)
                (λ a. (refl, refl, refl, refl)) i))
          n

pub set_trap_exit-Nested :
    (id : ℕ) (trap : Bool) (s : System) → Nested s → Nested (set_trap_exit id trap s)
unfolding set_trap_exit
set_trap_exit-Nested id trap s n =
    same_actors-Nested s (set_trap_exit id trap s) (omega arith)
      (SameActor-change id (λ a. record a { trap_exit = trap }) s.actors
        (λ a. (refl, refl, refl, refl)))
      n

Loses→Shrunk : (ref : ActorRef) (s t : System) → Loses ref s t → Shrunk s t
Loses→Shrunk ref s t (f, h) = (
  le_of_eq s.next_id t.next_id f.0,
  λ i b e. at i b (s.actors i) refl (subst (LosesAt ref (s.actors i)) e (h i)),
)
  where
    at :
        (i : ℕ) (b : Actor) (o : Option Actor)
        → s.actors i ≡ o
        → LosesAt ref o (some b)
        → (a : Actor) × (s.actors i ≡ some a) × ((c : ActorRef) → In c b.children → In c a.children)
    at i b none e h = absurd h
    at i b (some a) e (h1, h2, inl same) = (a, e, λ c m. subst (In c) same m)
    at i b (some a) e (h1, h2, inr fewer) =
        (a, e, λ c m. In-without_object ref c a.children (subst (In c) fewer m))

remove_actor-Nested : (ref : ActorRef) (s : System) → Nested s → Nested (remove_actor ref s)
remove_actor-Nested ref s n =
    let (same, removed) = remove_actor-fields ref s in
    Nested-Shrunk s (remove_actor ref s)
      (
        le_of_eq s.next_id _ same.0,
        λ i b e. at i b (ap (λ (t : Table Actor). t i) (sym removed) ∙ e),
      )
      n
  where
    at :
        (i : ℕ) (b : Actor)
        → remove ref.id s.actors i ≡ some b
        → (a : Actor) × (s.actors i ≡ some a) × ((c : ActorRef) → In c b.children → In c a.children)
    at i b e = elim (Bool-cases (ref.id == i)) [
      | inl q ↦ absurd (ground (arith, q, e))
      | inr q ↦ (b, ground (arith, q, e), λ c m. m)
    ]

pub stop_single-Nested : (ref : ActorRef) (s : System) → Nested s → Nested (stop_single ref s)
unfolding stop_single
stop_single-Nested ref s n = elim (Option-cases (s.actors ref.id)) [
  | inl e ↦ rw (stop_single, e) n
  | inr (a, e) ↦
      (let alone = leave_parent ref s in
        let unwatched = unwatch_all (current a (alone.actors ref.id)).watches alone in
        let cut = unlink_all (current a (unwatched.actors ref.id)).links unwatched in
        rw (stop_single, e)
          (remove_actor-Nested ref cut (
            Nested-Quiet unwatched cut
              (unlink_all-Quiet (current a (unwatched.actors ref.id)).links unwatched)
              (Nested-Quiet alone unwatched
                (unwatch_all-Quiet (current a (alone.actors ref.id)).watches alone)
                (Nested-Shrunk s alone (Loses→Shrunk ref s alone (leave_parent-Loses ref s)) n)))))
]

pub restart-Nested : (ref : ActorRef) (s : System) → Nested s → Nested (restart ref s).0
unfolding restart
restart-Nested ref s n = go (s.actor_metadata ref.id)
  where
    out :
        (o : Option (System × ActorRef)) (t : System) → Nested (landed t o) → Nested (outcome t o).0
    out none t n = n
    out (some (u, r)) t n = n

    under :
        (p : Option ActorRef) (m : ActorMetadata)
        → Nested (landed (stop_single ref s) (respawn_under p m (stop_single ref s)))
    under none m =
        spawn-Nested m.actor_class m.options (stop_single ref s) (stop_single-Nested ref s n)
    under (some p) m =
        spawn_child-Nested p m.actor_class m.options (stop_single ref s)
          (stop_single-Nested ref s n)

    go : (m : Option ActorMetadata) → Nested (restart_with ref m s).0
    go none = n
    go (some m) =
        out (respawn_under m.parent m (stop_single ref s)) (stop_single ref s) (under m.parent m)
