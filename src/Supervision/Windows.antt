-- ===== src/Supervision/Windows.antt =====
-- How often `canRestart` of src/child_supervisor.ts, and the same steps of src/supervisor.ts, say
-- yes, and what a no comes to.
use libeam.Shared.{
  ℕ, suc, ◌+◌, ◌-◌, ◌≤◌, ◌<◌, min, Bool, true, false, List, [], ◌∷◌, Option, none, some, ◌≡◌, refl,
  ◌∙◌, ap, sym, subst, arith, if◌then◌else◌, length, Option-cases, inl, inr,
}
use libeam.ActorSystem.{
  ActorRef, Actor, Cause, Reason, WatchRef, WatchEntry, ChildSupervisionOptions, killed,
  RestartRecord, RestartKey, System, ActorMetadata,
}
use libeam.ActorSystem.Watching.{
  notify_watchers, notify_each, notify_entry, send_down_message, unwatch,
}
use libeam.ActorSystem.Linking.{notify_linked_actors}
use libeam.ActorSystem.Frame.{SameActor, notify_watchers-Quiet}
use libeam.ActorSystem.Tree.{Nested, Pruned-none}
use libeam.ActorSystem.Removal.{stop-Stops}
use libeam.ActorSystem.Nesting.{Nested-Quiet}
use libeam.Supervision.{
  SupervisionOptions, can_restart, apply_strategy, get_restart_key, set_child_count, stop_now,
  give_up, supervise_child, handle_child_crash, handle_crash,
}

abbrev tick : Bool → ℕ → ℕ
tick true n = suc n
tick false n = n

-- How many crashes at these times are answered with a restart, from what the key holds.
unfoldable pub restarts : ℕ → ℕ → List ℕ → Option RestartRecord → ℕ
unfolding can_restart
restarts max_restarts period_ms [] found = 0
restarts max_restarts period_ms (now ∷ times) found =
    let answer = can_restart now max_restarts period_ms found in
    tick answer.1 (restarts max_restarts period_ms times answer.0)

abbrev pub AllWithin : ℕ → List ℕ → Type 0
AllWithin bound [] = Unit
AllWithin bound (t ∷ ts) = (t ≤ bound) × AllWithin bound ts

restarts-some :
    (max_restarts period_ms : ℕ) (times : List ℕ) (count start : ℕ)
    → AllWithin (start + period_ms) times
    → restarts max_restarts period_ms times (some (record { count = count; timestamp = start }))
      ≡ min (max_restarts - count) (length times)
unfolding restarts can_restart
restarts-some m p [] count start w = omega arith
restarts-some m p (t ∷ ts) count start (h, w) =
    ground (arith, restarts-some m p ts count start w, restarts-some m p ts (suc count) start w)

-- Of the crashes under one key that come within the period after the first, as many are answered
-- with a restart as there are, but no more than the maximum; and where the maximum is not 0, a
-- crash later than the period after the time of a record is answered with a restart.
pub can_restart-window :
    (max_restarts period_ms first later : ℕ) (times : List ℕ) (r : RestartRecord)
    → AllWithin (first + period_ms) times
    → 0 < max_restarts
    → r.timestamp + period_ms < later
    → (restarts max_restarts period_ms (first ∷ times) none
        ≡ min max_restarts (length (first ∷ times)))
      × ((can_restart later max_restarts period_ms (some r)).1 ≡ true)
unfolding restarts can_restart
can_restart-window m p first later times r w positive late =
    (ground (arith, restarts-some m p times 1 first w), ground arith)

-- Who is linked with whom, after watchers are told.
send_down_message-linked :
    (r : WatchRef) (ref : ActorRef) (reason : Reason) (s : System)
    → (send_down_message r ref reason s).linked_with ≡ s.linked_with
unfolding send_down_message
send_down_message-linked r ref reason s = elim (Option-cases (s.actors r.watcher_id)) [
  | inl e ↦ rw (e) refl
  | inr (a, e) ↦ rw (e) refl
]

unwatch-linked : (r : WatchRef) (s : System) → (unwatch r s).linked_with ≡ s.linked_with
unfolding unwatch
unwatch-linked r s = elim (Option-cases (s.watches r.id)) [
  | inl e ↦ rw (e) refl
  | inr (entry, e) ↦ rw (e) refl
]

notify_entry-linked :
    (ref : ActorRef) (reason : Reason) (o : Option WatchEntry) (s : System)
    → (notify_entry ref reason o s).linked_with ≡ s.linked_with
notify_entry-linked ref reason none s = refl
notify_entry-linked ref reason (some e) s =
    unwatch-linked e.watch_ref (send_down_message e.watch_ref ref reason s)
    ∙ send_down_message-linked e.watch_ref ref reason s

notify_each-linked :
    (ref : ActorRef) (reason : Reason) (ids : List ℕ) (s : System)
    → (notify_each ref reason ids s).linked_with ≡ s.linked_with
unfolding notify_each
notify_each-linked ref reason [] s = refl
notify_each-linked ref reason (i ∷ ids) s =
    notify_each-linked ref reason ids (notify_entry ref reason (s.watches i) s)
    ∙ notify_entry-linked ref reason (s.watches i) s

notify_watchers-linked :
    (ref : ActorRef) (reason : Reason) (s : System)
    → (notify_watchers ref reason s).linked_with ≡ s.linked_with
unfolding notify_watchers
notify_watchers-linked ref reason s = elim (Option-cases (s.watched_by ref.id)) [
  | inl e ↦ rw (e) refl
  | inr (ids, e) ↦ rw (e) (notify_each-linked ref reason ids s)
]

passed :
    (crash : ActorRef → Cause → System → System) (ref : ActorRef) (s : System)
    → s.linked_with ref.id ≡ none
    → notify_linked_actors crash ref killed s ≡ s
unfolding notify_linked_actors
passed crash ref s unlinked = rw (unlinked) refl

same_absent : (o p : Option Actor) → SameActor o p → o ≡ none → p ≡ none
same_absent none none h e = refl
same_absent none (some b) h e = absurd h
same_absent (some a) p h e = absurd (cc)

-- A system with one actor less and nobody new.
abbrev pub Ended : ActorRef → ℕ → System → System → Type 0
Ended ref j s t = (t.actors ref.id ≡ none) × (t.next_id ≡ s.next_id) × (t.actors j ≡ none)

give_up-ends :
    (crash : ActorRef → Cause → System → System) (ref : ActorRef) (j : ℕ) (s : System)
    → Nested s
    → s.linked_with ref.id ≡ none
    → s.actors j ≡ none
    → Ended ref j s (give_up crash ref killed s)
give_up-ends crash ref j s n unlinked absent =
    let told = notify_watchers ref killed s in
    let quiet = notify_watchers-Quiet ref killed s in
    let passes : notify_linked_actors crash ref killed told ≡ told =
      passed crash ref told (ap (λ l. l ref.id) (notify_watchers-linked ref killed s) ∙ unlinked) in
    let (pruned, gone) =
      stop-Stops told.next_id ref told (Nested-Quiet s told quiet n) (omega arith) in
    let still : told.actors j ≡ none =
      same_absent (s.actors j) (told.actors j) (quiet.1 j) absent in
    subst (λ u. Ended ref j s (stop_now ref u)) (sym passes)
      (gone, pruned.0.0 ∙ quiet.0.0, Pruned-none ref.id told (stop_now ref told) j pruned still)

can_restart-no :
    (now max_restarts period_ms : ℕ) (r : RestartRecord)
    → now ≤ r.timestamp + period_ms
    → max_restarts ≤ r.count
    → (can_restart now max_restarts period_ms (some r)).1 ≡ false
unfolding can_restart
can_restart-no now m p r within used = ground arith

supervise_child-ends :
    (now : ℕ) (crash : ActorRef → Cause → System → System) (ref : ActorRef) (a : Actor)
    (key : RestartKey) (s : System) (r : RestartRecord) (j : ℕ)
    → Nested s
    → s.child_restart_counts key ≡ some r
    → now ≤ r.timestamp + a.actor_class.child_supervision.period_ms
    → a.actor_class.child_supervision.max_restarts ≤ r.count
    → s.linked_with ref.id ≡ none
    → s.actors j ≡ none
    → Ended ref j s (supervise_child now crash ref (some a) key s)
supervise_child-ends now crash ref a key s r j n er within used unlinked absent =
    decided (can_restart now options.max_restarts options.period_ms (s.child_restart_counts key))
      (rw (er) (can_restart-no now options.max_restarts options.period_ms r within used))
  where
    options : ChildSupervisionOptions
    options = a.actor_class.child_supervision

    decided :
        (answer : Option RestartRecord × Bool)
        → answer.1 ≡ false
        → Ended ref j s (
            if answer.1
            then apply_strategy options.strategy ref a (set_child_count key answer.0 s)
            else give_up crash ref killed (set_child_count key answer.0 s))
    decided answer h =
        rw (h) (give_up-ends crash ref j (set_child_count key answer.0 s) n unlinked absent)

-- A child without links that crashes when its key has been answered with as many restarts as the
-- maximum, and the period since the time of the record has not passed, is stopped and not
-- restarted: it is there no more, no identifier is given to a new actor, and no actor is there
-- that was not there before. The actors' children are younger than they are.
pub handle_crash-exceeded :
    (now fuel : ℕ) (options : SupervisionOptions) (ref parent : ActorRef) (cause : Cause)
    (s : System) (m : ActorMetadata) (a : Actor) (r : RestartRecord) (j : ℕ)
    → Nested s
    → s.actor_metadata ref.id ≡ some m
    → m.parent ≡ some parent
    → s.actors parent.id ≡ some a
    → s.child_restart_counts (get_restart_key ref.id parent.id s) ≡ some r
    → now ≤ r.timestamp + a.actor_class.child_supervision.period_ms
    → a.actor_class.child_supervision.max_restarts ≤ r.count
    → s.linked_with ref.id ≡ none
    → s.actors j ≡ none
    → let t = handle_crash now options (suc fuel) ref cause s in
      (t.actors ref.id ≡ none) × (t.next_id ≡ s.next_id) × (t.actors j ≡ none)
unfolding handle_crash handle_child_crash
handle_crash-exceeded now fuel options ref parent cause s m a r j n em ep ea er within used unlinked
      absent =
    rw (em, ep, ea)
      (supervise_child-ends now (handle_crash now options fuel) ref a
        (get_restart_key ref.id parent.id s) s r j n er within used unlinked absent)
