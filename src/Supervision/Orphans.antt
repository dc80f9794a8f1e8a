-- ===== src/Supervision/Orphans.antt =====
-- The children of an actor that is restarted, by src/supervisor.ts or one-for-one of
-- src/child_supervisor.ts: `restart` of src/actor_system.ts leaves them.
use libeam.Shared.{
  ℕ, suc, ◌<◌, Bool, true, false, Option, none, some, ◌≡◌, refl, ◌∙◌, ap, arith, ◌==◌,
  if◌then◌else◌, String,
}
use libeam.Shared.Dict.{is_some}
use libeam.Shared.Table.{Table, change, update, remove}
use libeam.ActorSystem.{
  ActorRef, ActorClass, Actor, ActorMetadata, SpawnOptions, Cause, System, given, register_name,
  spawn, spawn_child, spawn_under, fresh_ref, store_actor, start_actor, adopt,
}
use libeam.ActorSystem.Watching.{unwatch_all}
use libeam.ActorSystem.Linking.{unlink_all}
use libeam.ActorSystem.Stopping.{
  disown_from, leave_parent_of, leave_parent, unregister_name, remove_actor, current, stop_single,
  respawn_under, outcome, restart,
}
use libeam.ActorSystem.Frame.{Quiet, Quiet-trans, unwatch_all-Quiet, unlink_all-Quiet}
use libeam.ActorSystem.Leaving.{LosesAt, leave_parent-Loses, remove_actor-fields}
use libeam.ActorSystem.Watches.{SameActor-is_some}
use libeam.Supervision.RootRestarts.{stop_single-SameCounters}
use libeam.Supervision.{
  SupervisionOptions, get_restart_key, supervise_child, handle_child_crash, supervise, parent_of,
  handle_crash,
}

-- Whether an actor is there, and its metadata.
abbrev Keeps : ℕ → System → System → Type 0
Keeps i s t =
    (is_some (t.actors i) ≡ is_some (s.actors i)) × (t.actor_metadata i ≡ s.actor_metadata i)

Keeps-trans : (i : ℕ) (s t u : System) → Keeps i s t → Keeps i t u → Keeps i s u
Keeps-trans i s t u (h, h') (k, k') = (k ∙ h, k' ∙ h')

LosesAt-is_some : (ref : ActorRef) (o p : Option Actor) → LosesAt ref o p → is_some p ≡ is_some o
LosesAt-is_some ref none none h = refl
LosesAt-is_some ref none (some b) h = absurd h
LosesAt-is_some ref (some a) none h = absurd h
LosesAt-is_some ref (some a) (some b) h = refl

leave_parent-metadata :
    (ref : ActorRef) (s : System) → (leave_parent ref s).actor_metadata ≡ s.actor_metadata
unfolding leave_parent
leave_parent-metadata ref s = go (s.actor_metadata ref.id)
  where
    from : (p : Option ActorRef) → (disown_from ref p s).actor_metadata ≡ s.actor_metadata
    from none = refl
    from (some p) = refl

    go : (m : Option ActorMetadata) → (leave_parent_of ref m s).actor_metadata ≡ s.actor_metadata
    go none = refl
    go (some m) = from m.parent

remove_actor-metadata :
    (ref : ActorRef) (s : System)
    → (remove_actor ref s).actor_metadata ≡ remove ref.id s.actor_metadata
unfolding remove_actor
remove_actor-metadata ref s = go (given ref.name)
  where
    go :
        (name : Option String)
        → remove ref.id (unregister_name name s).actor_metadata ≡ remove ref.id s.actor_metadata
    go none = refl
    go (some name) = refl

Quiet→Keeps : (i : ℕ) (s t : System) → Quiet s t → Keeps i s t
Quiet→Keeps i s t ((f1, f2, f3, f4, f5), h) =
    (SameActor-is_some (s.actors i) (t.actors i) (h i), ap (λ (m : Table ActorMetadata). m i) f3)

remove_actor-Keeps :
    (i : ℕ) (ref : ActorRef) (s : System) → (ref.id == i) ≡ false → Keeps i s (remove_actor ref s)
remove_actor-Keeps i ref s other = (
  ap (λ (t : Table Actor). is_some (t i)) (remove_actor-fields ref s).1 ∙ ground (arith, other),
  ap (λ (t : Table ActorMetadata). t i) (remove_actor-metadata ref s) ∙ ground (arith, other),
)

-- The actor goes, and the others stay.
stop_single-Keeps :
    (i : ℕ) (ref : ActorRef) (s : System) (a : Actor)
    → s.actors ref.id ≡ some a
    → (ref.id == i) ≡ false
    → Keeps i s (stop_single ref s) × ((stop_single ref s).actors ref.id ≡ none)
unfolding stop_single
stop_single-Keeps i ref s a e other =
    let alone = leave_parent ref s in
    let refs = (current a (alone.actors ref.id)).watches in
    let unwatched = unwatch_all refs alone in
    let links = (current a (unwatched.actors ref.id)).links in
    let cut = unlink_all links unwatched in
    rw (stop_single, e)
      ((
        Keeps-trans i s alone (remove_actor ref cut)
            (
              LosesAt-is_some ref (s.actors i) (alone.actors i) ((leave_parent-Loses ref s).1 i),
              ap (λ (m : Table ActorMetadata). m i) (leave_parent-metadata ref s),
            )
            (Keeps-trans i alone cut (remove_actor ref cut)
              (Quiet→Keeps i alone cut (
                Quiet-trans alone unwatched cut (unwatch_all-Quiet refs alone)
                  (unlink_all-Quiet links unwatched)))
              (remove_actor-Keeps i ref cut other)),
        ap (λ (t : Table Actor). t ref.id) (remove_actor-fields ref cut).1 ∙ ground arith,
      ))

register_name-Keeps :
    (i : ℕ) (name : Option String) (id : ℕ) (s : System) → Keeps i s (register_name name id s)
register_name-Keeps i none id s = (refl, refl)
register_name-Keeps i (some name) id s = (refl, refl)

stored-Keeps :
    (i : ℕ) (cls : ActorClass) (options : SpawnOptions) (p : Option ActorRef) (s : System)
    → i < s.next_id
    → Keeps i s (store_actor (fresh_ref options s) cls options p s)
stored-Keeps i cls options p s old = (ground (arith, old), ground (arith, old))

is_some-change :
    (i k : ℕ) (f : Actor → Actor) (t : Table Actor) → is_some (change k f t i) ≡ is_some (t i)
is_some-change i k f t = go (k == i) (t i)
  where
    go : (b : Bool) (o : Option Actor) → is_some (if b then update f o else o) ≡ is_some o
    go true none = refl
    go true (some a) = refl
    go false o = refl

-- A new actor takes nobody's place.
respawn-Keeps :
    (i : ℕ) (p : Option ActorRef) (m : ActorMetadata) (s : System)
    → i < s.next_id
    → Keeps i s (outcome s (respawn_under p m s)).0
unfolding spawn spawn_child
respawn-Keeps i none m s old = go s.closing
  where
    ref : ActorRef
    ref = fresh_ref m.options s

    stored : System
    stored = store_actor ref m.actor_class m.options none s

    go :
        (b : Bool)
        → Keeps i s (outcome s (if b then none else some (start_actor ref m.options stored, ref))).0
    go true = (refl, refl)
    go false =
        Keeps-trans i s stored (start_actor ref m.options stored)
          (stored-Keeps i m.actor_class m.options none s old)
          (register_name-Keeps i (given m.options.name) ref.id stored)
respawn-Keeps i (some parent) m s old = go s.closing (s.actors parent.id)
  where
    ref : ActorRef
    ref = fresh_ref m.options s

    stored : System
    stored = store_actor ref m.actor_class m.options (some parent) s

    adopted : System
    adopted = record stored { actors = change parent.id (adopt ref) stored.actors }

    go :
        (b : Bool) (o : Option Actor)
        → Keeps i s
            (outcome s (if b then none else spawn_under parent m.actor_class m.options o s)).0
    go true o = (refl, refl)
    go false none = (refl, refl)
    go false (some a) =
        Keeps-trans i s stored (start_actor ref m.options adopted)
          (stored-Keeps i m.actor_class m.options (some parent) s old)
          (Keeps-trans i stored adopted (start_actor ref m.options adopted)
            (is_some-change i parent.id (adopt ref) stored.actors, refl)
            (register_name-Keeps i (given m.options.name) ref.id adopted))

absent : (o : Option Actor) → is_some o ≡ false → o ≡ none
absent none e = refl
absent (some a) e = absurd (cc)

handle_crash-orphan :
    (c p : ActorRef) (s : System) (m : ActorMetadata) (now fuel : ℕ) (options : SupervisionOptions)
    (cause : Cause)
    → s.actor_metadata c.id ≡ some m
    → m.parent ≡ some p
    → s.actors p.id ≡ none
    → handle_crash now options (suc fuel) c cause s ≡ s
unfolding handle_crash handle_child_crash
handle_crash-orphan c p s m now fuel options cause em ep none_there =
    ap
      (λ (o : Option ActorMetadata).
        supervise now (handle_crash now options fuel) options c cause (parent_of o) s)
      em
    ∙ ap
        (λ (o : Option ActorRef). supervise now (handle_crash now options fuel) options c cause o s)
        ep
    ∙ ap
        (λ (o : Option Actor).
          supervise_child now (handle_crash now options fuel) c o (get_restart_key c.id p.id s) s)
        none_there

-- When an actor is restarted, its children stay and lose their supervisor: a child is still there
-- after the restart, the actor that its metadata names as its parent is not, and a crash of the
-- child changes nothing at all, so that it is neither restarted nor stopped. The actor and the child
-- are there before, under different identifiers that were given out.
pub restart-orphans :
    (ref c : ActorRef) (s : System) (a : Actor) (m mc : ActorMetadata) (now fuel : ℕ)
    (options : SupervisionOptions) (cause : Cause)
    → s.actors ref.id ≡ some a
    → s.actor_metadata ref.id ≡ some m
    → is_some (s.actors c.id) ≡ true
    → s.actor_metadata c.id ≡ some mc
    → mc.parent ≡ some ref
    → (ref.id == c.id) ≡ false
    → ref.id < s.next_id
    → c.id < s.next_id
    → let t = (restart ref s).0 in
      (is_some (t.actors c.id) ≡ true)
      × (t.actors ref.id ≡ none)
      × (handle_crash now options (suc fuel) c cause t ≡ t)
unfolding restart
restart-orphans ref c s a m mc now fuel options cause ea em ec emc ep other old old' =
    let stopped = stop_single ref s in
    let t = (outcome stopped (respawn_under m.parent m stopped)).0 in
    let (kept, gone) = stop_single-Keeps c.id ref s a ea other in
    let next : stopped.next_id ≡ s.next_id = (stop_single-SameCounters ref s).0 in
    let stays = respawn-Keeps c.id m.parent m stopped (omega (arith, next)) in
    let leaves = respawn-Keeps ref.id m.parent m stopped (omega (arith, next)) in
    let none_there : t.actors ref.id ≡ none =
      absent (t.actors ref.id) (leaves.0 ∙ ap (λ (o : Option Actor). is_some o) gone) in
    let known : t.actor_metadata c.id ≡ some mc = stays.1 ∙ kept.1 ∙ emc in
    rw (em) (
      (
        stays.0 ∙ kept.0 ∙ ec,
        none_there,
        handle_crash-orphan c ref t mc now fuel options cause known ep none_there,
      ))
