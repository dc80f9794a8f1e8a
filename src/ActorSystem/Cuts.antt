-- ===== src/ActorSystem/Cuts.antt =====
-- No operation of src/actor_system.ts but `link` makes a link: the table of links only loses
-- entries while actors are stopped, spawned and restarted.
use libeam.Shared.{
  ℕ, zero, suc, Bool, true, false, List, [], ◌∷◌, Option, none, some, ◌≡◌, refl, ◌∙◌, arith, ◌==◌,
  if◌then◌else◌, Bool-cases, Option-cases, inl, inr, ◌⊎◌, String,
}
use libeam.Shared.Table.{change}
use libeam.ActorSystem.{
  ActorRef, Actor, ActorClass, ActorMetadata, SpawnOptions, Cause, linked_actor, WatchRef,
  WatchEntry, LinkRef, LinkEntry, Reason, normal, System, given, register_name, spawn, spawn_child,
  spawn_under, fresh_ref, store_actor, start_actor, adopt,
}
use libeam.ActorSystem.Watching.{
  send_down_message, unwatch, unwatch_all, notify_entry, notify_each, notify_watchers,
}
use libeam.ActorSystem.Linking.{
  unlink, unlink_all, send_exit_message, abnormal, other_end, pass_exit, notify_link, notify_links,
  notify_link_set, notify_linked_actors, kind,
}
use libeam.ActorSystem.Stopping.{
  disown_from, leave_parent_of, leave_parent, unregister_name, remove_actor, current, no_crash,
  finish_stop, for_each, stop, stop_single, respawn_under, outcome, restart_with, restart,
}
use libeam.ActorSystem.Nesting.{landed}

abbrev pub Cuts : System → System → Type 0
Cuts s t = (i : ℕ) → (t.links i ≡ none) ⊎ (t.links i ≡ s.links i)

pub Cuts-refl : (s : System) → Cuts s s
Cuts-refl s i = inr refl

pub Cuts-trans : (s t u : System) → Cuts s t → Cuts t u → Cuts s u
Cuts-trans s t u h k i = elim (k i) [
  | inl e ↦ inl e
  | inr e ↦ elim (h i) [ inl e' ↦ inl (e ∙ e') | inr e' ↦ inr (e ∙ e') ]
]

unwatch-Cuts : (r : WatchRef) (s : System) → Cuts s (unwatch r s)
unfolding unwatch
unwatch-Cuts r s = elim (Option-cases (s.watches r.id)) [
  | inl e ↦ rw (e) (Cuts-refl s)
  | inr (x, e) ↦ rw (e) (Cuts-refl s)
]

unwatch_all-Cuts : (refs : List WatchRef) (s : System) → Cuts s (unwatch_all refs s)
unfolding unwatch_all
unwatch_all-Cuts [] s = Cuts-refl s
unwatch_all-Cuts (r ∷ refs) s =
    Cuts-trans s (unwatch r s) (unwatch_all refs (unwatch r s)) (unwatch-Cuts r s)
      (unwatch_all-Cuts refs (unwatch r s))

send_down_message-Cuts :
    (r : WatchRef) (ref : ActorRef) (reason : Reason) (s : System)
    → Cuts s (send_down_message r ref reason s)
unfolding send_down_message
send_down_message-Cuts r ref reason s = elim (Option-cases (s.actors r.watcher_id)) [
  | inl e ↦ rw (e) (Cuts-refl s)
  | inr (a, e) ↦ rw (e) (Cuts-refl s)
]

notify_entry-Cuts :
    (ref : ActorRef) (reason : Reason) (o : Option WatchEntry) (s : System)
    → Cuts s (notify_entry ref reason o s)
notify_entry-Cuts ref reason none s = Cuts-refl s
notify_entry-Cuts ref reason (some e) s =
    let told = send_down_message e.watch_ref ref reason s in
    Cuts-trans s told (unwatch e.watch_ref told) (send_down_message-Cuts e.watch_ref ref reason s)
      (unwatch-Cuts e.watch_ref told)

notify_each-Cuts :
    (ref : ActorRef) (reason : Reason) (ids : List ℕ) (s : System)
    → Cuts s (notify_each ref reason ids s)
unfolding notify_each
notify_each-Cuts ref reason [] s = Cuts-refl s
notify_each-Cuts ref reason (i ∷ ids) s =
    let told = notify_entry ref reason (s.watches i) s in
    Cuts-trans s told (notify_each ref reason ids told)
      (notify_entry-Cuts ref reason (s.watches i) s) (notify_each-Cuts ref reason ids told)

pub notify_watchers-Cuts :
    (ref : ActorRef) (reason : Reason) (s : System) → Cuts s (notify_watchers ref reason s)
unfolding notify_watchers
notify_watchers-Cuts ref reason s = elim (Option-cases (s.watched_by ref.id)) [
  | inl e ↦ rw (e) (Cuts-refl s)
  | inr (ids, e) ↦ rw (e) (notify_each-Cuts ref reason ids s)
]

pub unlink-Cuts : (r : LinkRef) (s : System) → Cuts s (unlink r s)
unfolding unlink
unlink-Cuts r s = elim (Option-cases (s.links r.id)) [
  | inl e ↦ rw (e) (Cuts-refl s)
  | inr (x, e) ↦ rw (e) (λ i. elim (Bool-cases (r.id == i)) [
    | inl b ↦ inl (ground (arith, b))
    | inr b ↦ inr (ground (arith, b))
  ])
]

-- The link itself is gone.
pub unlink-none : (r : LinkRef) (s : System) → (unlink r s).links r.id ≡ none
unfolding unlink
unlink-none r s = elim (Option-cases (s.links r.id)) [
  | inl e ↦ rw (unlink, e) e
  | inr (x, e) ↦ rw (unlink, e) (ground arith)
]

unlink_all-Cuts : (refs : List LinkRef) (s : System) → Cuts s (unlink_all refs s)
unfolding unlink_all
unlink_all-Cuts [] s = Cuts-refl s
unlink_all-Cuts (r ∷ refs) s =
    Cuts-trans s (unlink r s) (unlink_all refs (unlink r s)) (unlink-Cuts r s)
      (unlink_all-Cuts refs (unlink r s))

send_exit_message-Cuts :
    (r : LinkRef) (ref : ActorRef) (target : ℕ) (reason : Reason) (s : System)
    → Cuts s (send_exit_message (some r) ref target reason s)
unfolding send_exit_message
send_exit_message-Cuts r ref target reason s = Cuts-refl s

module _ (crash : ActorRef → Cause → System → System)
    (cuts : (r : ActorRef) (c : Cause) (s : System) → Cuts s (crash r c s)) where
  pass_exit-Cuts :
      (r : LinkRef) (ref other : ActorRef) (reason : Reason) (o : Option Actor) (s : System)
      → Cuts s (pass_exit crash r ref other reason o s)
  pass_exit-Cuts r ref other reason none s = Cuts-refl s
  pass_exit-Cuts r ref other reason (some a) s = go a.trap_exit (abnormal reason)
    where
      go :
          (x y : Bool)
          → Cuts s (
              if x
              then send_exit_message (some r) ref other.id reason s
              else (if y then crash other (linked_actor ref.id (kind reason)) s else s))
      go true y = send_exit_message-Cuts r ref other.id reason s
      go false true = cuts other (linked_actor ref.id (kind reason)) s
      go false false = Cuts-refl s

  pub notify_link-Cuts :
      (ref : ActorRef) (reason : Reason) (o : Option LinkEntry) (s : System)
      → Cuts s (notify_link crash ref reason o s)
  notify_link-Cuts ref reason none s = Cuts-refl s
  notify_link-Cuts ref reason (some e) s =
      let cut = unlink e.link_ref s in
      let other = other_end ref e in
      Cuts-trans s cut (pass_exit crash e.link_ref ref other reason (cut.actors other.id) cut)
        (unlink-Cuts e.link_ref s)
        (pass_exit-Cuts e.link_ref ref other reason (cut.actors other.id) cut)

  notify_links-Cuts :
      (ref : ActorRef) (reason : Reason) (ids : List ℕ) (s : System)
      → Cuts s (notify_links crash ref reason ids s)
  unfolding notify_links
  notify_links-Cuts ref reason [] s = Cuts-refl s
  notify_links-Cuts ref reason (i ∷ ids) s =
      let told = notify_link crash ref reason (s.links i) s in
      Cuts-trans s told (notify_links crash ref reason ids told)
        (notify_link-Cuts ref reason (s.links i) s) (notify_links-Cuts ref reason ids told)

  pub notify_linked_actors-Cuts :
      (ref : ActorRef) (reason : Reason) (s : System)
      → Cuts s (notify_linked_actors crash ref reason s)
  unfolding notify_linked_actors
  notify_linked_actors-Cuts ref reason s = go (s.linked_with ref.id)
    where
      go : (o : Option (List ℕ)) → Cuts s (notify_link_set crash ref reason o s)
      go none = Cuts-refl s
      go (some ids) = notify_links-Cuts ref reason ids s

leave_parent-Cuts : (ref : ActorRef) (s : System) → Cuts s (leave_parent ref s)
unfolding leave_parent
leave_parent-Cuts ref s = go (s.actor_metadata ref.id)
  where
    from : (p : Option ActorRef) → Cuts s (disown_from ref p s)
    from none = Cuts-refl s
    from (some p) = Cuts-refl s

    go : (m : Option ActorMetadata) → Cuts s (leave_parent_of ref m s)
    go none = Cuts-refl s
    go (some m) = from m.parent

remove_actor-Cuts : (ref : ActorRef) (s : System) → Cuts s (remove_actor ref s)
unfolding remove_actor
remove_actor-Cuts ref s = go (given ref.name)
  where
    go : (name : Option String) → Cuts s (unregister_name name s)
    go none = Cuts-refl s
    go (some name) = Cuts-refl s

finish_stop-Cuts : (ref : ActorRef) (actor : Actor) (s : System) → Cuts s (finish_stop ref actor s)
unfolding finish_stop
finish_stop-Cuts ref actor s =
    let alone = leave_parent ref s in
    let refs = (current actor (alone.actors ref.id)).watches in
    let unwatched = unwatch_all refs alone in
    let told = notify_watchers ref normal unwatched in
    let cut = notify_linked_actors no_crash ref normal told in
    Cuts-trans s alone (remove_actor ref cut) (leave_parent-Cuts ref s) (
      Cuts-trans alone unwatched (remove_actor ref cut) (unwatch_all-Cuts refs alone) (
        Cuts-trans unwatched told (remove_actor ref cut) (notify_watchers-Cuts ref normal unwatched)
          (Cuts-trans told cut (remove_actor ref cut)
            (notify_linked_actors-Cuts no_crash (λ r c t. Cuts-refl t) ref normal told)
            (remove_actor-Cuts ref cut))))

for_each-Cuts :
    (run : ActorRef → System → System) (refs : List ActorRef) (s : System)
    → ((r : ActorRef) (t : System) → Cuts t (run r t))
    → Cuts s (for_each run refs s)
for_each-Cuts run [] s cuts = Cuts-refl s
for_each-Cuts run (r ∷ refs) s cuts =
    Cuts-trans s (run r s) (for_each run refs (run r s)) (cuts r s)
      (for_each-Cuts run refs (run r s) cuts)

pub stop-Cuts : (fuel : ℕ) (ref : ActorRef) (s : System) → Cuts s (stop fuel ref s)
unfolding stop
stop-Cuts zero ref s = Cuts-refl s
stop-Cuts (suc fuel) ref s = elim (Option-cases (s.actors ref.id)) [
  | inl e ↦ rw (stop, e) (Cuts-refl s)
  | inr (a, e) ↦
      rw (stop, e)
        (Cuts-trans s (for_each (stop fuel) a.children s)
          (finish_stop ref a (for_each (stop fuel) a.children s))
          (for_each-Cuts (stop fuel) a.children s (λ r t. stop-Cuts fuel r t))
          (finish_stop-Cuts ref a (for_each (stop fuel) a.children s)))
]

stop_single-Cuts : (ref : ActorRef) (s : System) → Cuts s (stop_single ref s)
unfolding stop_single
stop_single-Cuts ref s = elim (Option-cases (s.actors ref.id)) [
  | inl e ↦ rw (stop_single, e) (Cuts-refl s)
  | inr (a, e) ↦
      (let alone = leave_parent ref s in
        let refs = (current a (alone.actors ref.id)).watches in
        let unwatched = unwatch_all refs alone in
        let links = (current a (unwatched.actors ref.id)).links in
        let cut = unlink_all links unwatched in
        rw (stop_single, e)
          (Cuts-trans s alone (remove_actor ref cut) (leave_parent-Cuts ref s) (
            Cuts-trans alone unwatched (remove_actor ref cut) (unwatch_all-Cuts refs alone) (
              Cuts-trans unwatched cut (remove_actor ref cut) (unlink_all-Cuts links unwatched)
                (remove_actor-Cuts ref cut)))))
]

start_actor-Cuts :
    (ref : ActorRef) (options : SpawnOptions) (s : System) → Cuts s (start_actor ref options s)
start_actor-Cuts ref options s = go (given options.name)
  where
    go : (name : Option String) → Cuts s (register_name name ref.id s)
    go none = Cuts-refl s
    go (some name) = Cuts-refl s

spawn-Cuts :
    (cls : ActorClass) (options : SpawnOptions) (s : System)
    → Cuts s (landed s (spawn cls options s))
unfolding spawn
spawn-Cuts cls options s = go s.closing
  where
    ref : ActorRef
    ref = fresh_ref options s

    started : System
    started = start_actor ref options (store_actor ref cls options none s)

    go : (x : Bool) → Cuts s (landed s (if x then none else some (started, ref)))
    go true = Cuts-refl s
    go false = start_actor-Cuts ref options (store_actor ref cls options none s)

pub spawn_child-Cuts :
    (parent : ActorRef) (cls : ActorClass) (options : SpawnOptions) (s : System)
    → Cuts s (landed s (spawn_child parent cls options s))
unfolding spawn_child
spawn_child-Cuts parent cls options s = go s.closing (s.actors parent.id)
  where
    ref : ActorRef
    ref = fresh_ref options s

    stored : System
    stored = store_actor ref cls options (some parent) s

    go :
        (x : Bool) (o : Option Actor)
        → Cuts s (landed s (if x then none else spawn_under parent cls options o s))
    go true o = Cuts-refl s
    go false none = Cuts-refl s
    go false (some a) =
        start_actor-Cuts ref options
          (record stored { actors = change parent.id (adopt ref) stored.actors })

pub restart-Cuts : (ref : ActorRef) (s : System) → Cuts s (restart ref s).0
unfolding restart
restart-Cuts ref s = go (s.actor_metadata ref.id)
  where
    stopped : System
    stopped = stop_single ref s

    out :
        (o : Option (System × ActorRef))
        → Cuts stopped (landed stopped o)
        → Cuts s (outcome stopped o).0
    out none h = stop_single-Cuts ref s
    out (some (u, r)) h = Cuts-trans s stopped u (stop_single-Cuts ref s) h

    under :
        (p : Option ActorRef) (m : ActorMetadata)
        → Cuts stopped (landed stopped (respawn_under p m stopped))
    under none m = spawn-Cuts m.actor_class m.options stopped
    under (some p) m = spawn_child-Cuts p m.actor_class m.options stopped

    go : (m : Option ActorMetadata) → Cuts s (restart_with ref m s).0
    go none = Cuts-refl s
    go (some m) = out (respawn_under m.parent m stopped) (under m.parent m)
