-- ===== src/ActorSystem/Frame.antt =====
-- What the bookkeeping of watches and links in src/actor_system.ts leaves as it is: which actors
-- there are, their children and metadata, and the counters.
use libeam.Shared.{
  ℕ, List, [], ◌∷◌, Option, none, some, ◌≡◌, refl, ◌∙◌, ◌==◌, Bool-cases, inl, inr, Option-cases,
}
use libeam.Shared.Table.{Table, change, update}
use libeam.ActorSystem.{
  WatchEntry, LinkEntry, ActorRef, Cause, WatchRef, LinkRef, Reason, normal, Actor, System,
}
use libeam.ActorSystem.Watching.{
  send_down_message, unwatch, unwatch_all, notify_watchers, notify_each, notify_entry,
}
use libeam.ActorSystem.Linking.{
  unlink, unlink_all, send_exit_message, notify_linked_actors, notify_links, notify_link, pass_exit,
  other_end, drop_link,
}
use libeam.ActorSystem.Stopping.{no_crash}

-- The actor is there in both or in neither, with the same parent and children.
abbrev pub SameActor : Option Actor → Option Actor → Type 0
SameActor none none = Unit
SameActor none (some b) = ⊥
SameActor (some a) none = ⊥
SameActor (some a) (some b) =
    (b.self ≡ a.self)
    × (b.actor_class ≡ a.actor_class)
    × (b.children ≡ a.children)
    × (b.child_order ≡ a.child_order)

abbrev pub SameFields : System → System → Type 0
SameFields s t =
    (t.next_id ≡ s.next_id)
    × (t.closing ≡ s.closing)
    × (t.actor_metadata ≡ s.actor_metadata)
    × (t.restart_counts ≡ s.restart_counts)
    × (t.child_restart_counts ≡ s.child_restart_counts)

abbrev pub Quiet : System → System → Type 0
Quiet s t = SameFields s t × ((i : ℕ) → SameActor (s.actors i) (t.actors i))

pub SameActor-refl : (o : Option Actor) → SameActor o o
SameActor-refl none = tt
SameActor-refl (some a) = (refl, refl, refl, refl)

pub SameActor-trans : (o p q : Option Actor) → SameActor o p → SameActor p q → SameActor o q
SameActor-trans none none q h k = k
SameActor-trans none (some b) q h k = absurd h
SameActor-trans (some a) none q h k = absurd h
SameActor-trans (some a) (some b) none h k = absurd k
SameActor-trans (some a) (some b) (some c) (h1, h2, h3, h4) (k1, k2, k3, k4) =
    (k1 ∙ h1, k2 ∙ h2, k3 ∙ h3, k4 ∙ h4)

pub Quiet-refl : (s : System) → Quiet s s
Quiet-refl s = ((refl, refl, refl, refl, refl), λ i. SameActor-refl (s.actors i))

pub Quiet-trans : (s t u : System) → Quiet s t → Quiet t u → Quiet s u
Quiet-trans s t u ((h1, h2, h3, h4, h5), h) ((k1, k2, k3, k4, k5), k) = (
  (k1 ∙ h1, k2 ∙ h2, k3 ∙ h3, k4 ∙ h4, k5 ∙ h5),
  λ i. SameActor-trans (s.actors i) (t.actors i) (u.actors i) (h i) (k i),
)

SameActor-update :
    (f : Actor → Actor) (o : Option Actor)
    → ((a : Actor) → SameActor (some a) (some (f a)))
    → SameActor o (update f o)
SameActor-update f none same = tt
SameActor-update f (some a) same = same a

pub SameActor-change :
    (key : ℕ) (f : Actor → Actor) (t : Table Actor)
    → ((a : Actor) → SameActor (some a) (some (f a)))
    → (i : ℕ) → SameActor (t i) (change key f t i)
SameActor-change key f t same i = elim (Bool-cases (key == i)) [
  | inl e ↦ rw (e) (SameActor-update f (t i) same)
  | inr e ↦ rw (e) (SameActor-refl (t i))
]

pub unwatch-Quiet : (r : WatchRef) (s : System) → Quiet s (unwatch r s)
unfolding unwatch
unwatch-Quiet r s = elim (Option-cases (s.watches r.id)) [
  | inl e ↦ rw (e) (Quiet-refl s)
  | inr (entry, e) ↦ rw (e) (
      (
        (refl, refl, refl, refl, refl),
        SameActor-change r.watcher_id _ s.actors (λ a. (refl, refl, refl, refl)),
      ))
]

pub unwatch_all-Quiet : (refs : List WatchRef) (s : System) → Quiet s (unwatch_all refs s)
unfolding unwatch_all
unwatch_all-Quiet [] s = Quiet-refl s
unwatch_all-Quiet (r ∷ refs) s =
    Quiet-trans s (unwatch r s) (unwatch_all refs (unwatch r s)) (unwatch-Quiet r s)
      (unwatch_all-Quiet refs (unwatch r s))

pub send_down_message-Quiet :
    (r : WatchRef) (ref : ActorRef) (reason : Reason) (s : System)
    → Quiet s (send_down_message r ref reason s)
unfolding send_down_message
send_down_message-Quiet r ref reason s = elim (Option-cases (s.actors r.watcher_id)) [
  | inl e ↦ rw (e) (Quiet-refl s)
  | inr (a, e) ↦ rw (e) (Quiet-refl s)
]

pub notify_entry-Quiet :
    (ref : ActorRef) (reason : Reason) (o : Option WatchEntry) (s : System)
    → Quiet s (notify_entry ref reason o s)
notify_entry-Quiet ref reason none s = Quiet-refl s
notify_entry-Quiet ref reason (some e) s =
    let told = send_down_message e.watch_ref ref reason s in
    Quiet-trans s told (unwatch e.watch_ref told) (send_down_message-Quiet e.watch_ref ref reason s)
      (unwatch-Quiet e.watch_ref told)

pub notify_each-Quiet :
    (ref : ActorRef) (reason : Reason) (ids : List ℕ) (s : System)
    → Quiet s (notify_each ref reason ids s)
unfolding notify_each
notify_each-Quiet ref reason [] s = Quiet-refl s
notify_each-Quiet ref reason (i ∷ ids) s =
    let told = notify_entry ref reason (s.watches i) s in
    Quiet-trans s told (notify_each ref reason ids told)
      (notify_entry-Quiet ref reason (s.watches i) s) (notify_each-Quiet ref reason ids told)

pub notify_watchers-Quiet :
    (ref : ActorRef) (reason : Reason) (s : System) → Quiet s (notify_watchers ref reason s)
unfolding notify_watchers
notify_watchers-Quiet ref reason s = elim (Option-cases (s.watched_by ref.id)) [
  | inl e ↦ rw (e) (Quiet-refl s)
  | inr (ids, e) ↦ rw (e) (notify_each-Quiet ref reason ids s)
]

pub unlink-Quiet : (r : LinkRef) (s : System) → Quiet s (unlink r s)
unfolding unlink
unlink-Quiet r s = elim (Option-cases (s.links r.id)) [
  | inl e ↦ rw (e) (Quiet-refl s)
  | inr (entry, e) ↦ rw (e) (
      (
        (refl, refl, refl, refl, refl),
        λ i.
            SameActor-trans (s.actors i) (change r.actor1_id (drop_link r) s.actors i) _
              (SameActor-change r.actor1_id (drop_link r) s.actors (λ a. (refl, refl, refl, refl))
                i)
              (SameActor-change r.actor2_id (drop_link r)
                (change r.actor1_id (drop_link r) s.actors) (λ a. (refl, refl, refl, refl)) i),
      ))
]

pub unlink_all-Quiet : (refs : List LinkRef) (s : System) → Quiet s (unlink_all refs s)
unfolding unlink_all
unlink_all-Quiet [] s = Quiet-refl s
unlink_all-Quiet (r ∷ refs) s =
    Quiet-trans s (unlink r s) (unlink_all refs (unlink r s)) (unlink-Quiet r s)
      (unlink_all-Quiet refs (unlink r s))

pub send_exit_message-Quiet :
    (r : Option LinkRef) (ref : ActorRef) (target : ℕ) (reason : Reason) (s : System)
    → Quiet s (send_exit_message r ref target reason s)
unfolding send_exit_message
send_exit_message-Quiet r ref target reason s = Quiet-refl s

-- No crash passes along a link where the exit is a normal one.
module _ (crash : ActorRef → Cause → System → System) where
  pass_exit-Quiet :
      (r : LinkRef) (ref other : ActorRef) (o : Option Actor) (s : System)
      → Quiet s (pass_exit crash r ref other normal o s)
  pass_exit-Quiet r ref other none s = Quiet-refl s
  pass_exit-Quiet r ref other (some a) s = elim (Bool-cases a.trap_exit) [
    | inl e ↦ rw (e) (send_exit_message-Quiet (some r) ref other.id normal s)
    | inr e ↦ rw (e) (Quiet-refl s)
  ]

  notify_link-Quiet :
      (ref : ActorRef) (o : Option LinkEntry) (s : System)
      → Quiet s (notify_link crash ref normal o s)
  notify_link-Quiet ref none s = Quiet-refl s
  notify_link-Quiet ref (some e) s =
      let cut = unlink e.link_ref s in
      Quiet-trans s cut (notify_link crash ref normal (some e) s) (unlink-Quiet e.link_ref s)
        (pass_exit-Quiet e.link_ref ref (other_end ref e) (cut.actors (other_end ref e).id) cut)

  notify_links-Quiet :
      (ref : ActorRef) (ids : List ℕ) (s : System) → Quiet s (notify_links crash ref normal ids s)
  unfolding notify_links
  notify_links-Quiet ref [] s = Quiet-refl s
  notify_links-Quiet ref (i ∷ ids) s =
      let told = notify_link crash ref normal (s.links i) s in
      Quiet-trans s told (notify_links crash ref normal ids told)
        (notify_link-Quiet ref (s.links i) s) (notify_links-Quiet ref ids told)

  pub notify_linked_actors-Quiet :
      (ref : ActorRef) (s : System) → Quiet s (notify_linked_actors crash ref normal s)
  unfolding notify_linked_actors
  notify_linked_actors-Quiet ref s = elim (Option-cases (s.linked_with ref.id)) [
    | inl e ↦ rw (e) (Quiet-refl s)
    | inr (ids, e) ↦ rw (e) (notify_links-Quiet ref ids s)
  ]

  pub notify_links-normal :
      (ref : ActorRef) (ids : List ℕ) (s : System)
      → notify_links crash ref normal ids s ≡ notify_links no_crash ref normal ids s
  unfolding notify_links
  notify_links-normal ref [] s = refl
  notify_links-normal ref (i ∷ ids) s =
      rw (same (s.links i))
        (notify_links-normal ref ids (notify_link no_crash ref normal (s.links i) s))
    where
      same :
          (o : Option LinkEntry)
          → notify_link crash ref normal o s ≡ notify_link no_crash ref normal o s
      same none = refl
      same (some e) = passed ((unlink e.link_ref s).actors (other_end ref e).id)
        where
          passed :
              (o : Option Actor)
              → pass_exit crash e.link_ref ref (other_end ref e) normal o (unlink e.link_ref s)
                ≡ pass_exit no_crash e.link_ref ref (other_end ref e) normal o (unlink e.link_ref s)
          passed none = refl
          passed (some a) = refl
