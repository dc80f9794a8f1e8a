-- ===== src/ActorSystem/Watches.antt =====
-- Each watch of src/actor_system.ts is answered once: what `notifyWatchers` sends and what it
-- leaves behind.
use libeam.Shared.{
  ℕ, false, List, [], ◌∷◌, Option, none, some, ◌≡◌, refl, sym, ◌∙◌, ap, ◌==◌, if◌then◌else◌, arith,
  Bool-cases, Option-cases, inl, inr,
}
use libeam.Shared.Dict.{is_some}
use libeam.Shared.Table.{Table, remove, elem, set_delete, set_of, leave_set, kept, Distinct}
use libeam.ActorSystem.{ActorRef, Actor, Event, WatchRef, WatchEntry, Reason, System, down}
use libeam.ActorSystem.Watching.{unwatch, send_down_message, notify_entry, notify_each}
use libeam.ActorSystem.Frame.{SameActor, unwatch-Quiet, send_down_message-Quiet}

-- The messages to the watchers that are there, one for each watch of the set.
abbrev pub tell : Option WatchEntry → ActorRef → Reason → System → List Event → List Event
tell none ref reason s log = log
tell (some e) ref reason s log =
    if is_some (s.actors e.watch_ref.watcher_id)
    then down e.watch_ref.watcher_id e.watch_ref ref reason ∷ log
    else log

abbrev pub tell_each : List ℕ → ActorRef → Reason → System → List Event → List Event
tell_each [] ref reason s log = log
tell_each (i ∷ ids) ref reason s log =
    tell_each ids ref reason s (tell (s.watches i) ref reason s log)

-- The entries stand under the identifiers of their watches.
abbrev pub Keyed : System → Type 0
Keyed s = (i : ℕ) (e : WatchEntry) → s.watches i ≡ some e → e.watch_ref.id ≡ i

-- A set of watches of the actor `k`.
abbrev pub Watched : System → ℕ → List ℕ → Type 0
Watched s k [] = Unit
Watched s k (i ∷ ids) =
    ((e : WatchEntry) × (s.watches i ≡ some e) × (e.watch_ref.watched_id ≡ k)) × Watched s k ids

pub SameActor-is_some : (o p : Option Actor) → SameActor o p → is_some p ≡ is_some o
SameActor-is_some none none h = refl
SameActor-is_some none (some b) h = absurd h
SameActor-is_some (some a) none h = absurd h
SameActor-is_some (some a) (some b) h = refl

abbrev SameWatchers : System → System → Type 0
SameWatchers s t = (i : ℕ) → is_some (t.actors i) ≡ is_some (s.actors i)

pub send_down_message-fields :
    (r : WatchRef) (ref : ActorRef) (reason : Reason) (s : System)
    → ((send_down_message r ref reason s).watches ≡ s.watches)
      × ((send_down_message r ref reason s).watched_by ≡ s.watched_by)
      × ((send_down_message r ref reason s).log ≡ (
          if is_some (s.actors r.watcher_id)
          then down r.watcher_id r ref reason ∷ s.log
          else s.log))
unfolding send_down_message
send_down_message-fields r ref reason s = elim (Option-cases (s.actors r.watcher_id)) [
  | inl e ↦ rw (e) ((refl, refl, refl))
  | inr (a, e) ↦ rw (e) ((refl, refl, refl))
]

pub unwatch-fields :
    (r : WatchRef) (s : System) (e : WatchEntry)
    → s.watches r.id ≡ some e
    → ((unwatch r s).watches ≡ remove r.id s.watches)
      × ((unwatch r s).watched_by ≡ leave_set r.watched_id r.id s.watched_by)
      × ((unwatch r s).log ≡ s.log)
unfolding unwatch
unwatch-fields r s e q = rw (q) ((refl, refl, refl))

-- One watch is answered and removed.
pub notify_entry-fields :
    (ref : ActorRef) (reason : Reason) (s : System) (i : ℕ) (e : WatchEntry)
    → s.watches i ≡ some e
    → e.watch_ref.id ≡ i
    → ((notify_entry ref reason (some e) s).watches ≡ remove i s.watches)
      × ((notify_entry ref reason (some e) s).watched_by
          ≡ leave_set e.watch_ref.watched_id i s.watched_by)
      × ((notify_entry ref reason (some e) s).log ≡ tell (some e) ref reason s s.log)
      × SameWatchers s (notify_entry ref reason (some e) s)
notify_entry-fields ref reason s i e q own =
    let r = e.watch_ref in
    let told = send_down_message r ref reason s in
    let (d1, d2, d3) = send_down_message-fields r ref reason s in
    let found : told.watches r.id ≡ some e =
      ap (λ (w : Table WatchEntry). w r.id) d1 ∙ ap s.watches own ∙ q in
    let (u1, u2, u3) = unwatch-fields r told e found in
    (
      u1 ∙ ap (λ (j : ℕ). remove j told.watches) own ∙ ap (λ (w : Table WatchEntry). remove i w) d1,
      u2
          ∙ ap (λ (j : ℕ). leave_set r.watched_id j told.watched_by) own
          ∙ ap (λ (w : Table (List ℕ)). leave_set r.watched_id i w) d2,
      u3 ∙ d3,
      λ j.
          SameActor-is_some (told.actors j) ((unwatch r told).actors j) ((unwatch-Quiet r told).1 j)
          ∙ SameActor-is_some (s.actors j) (told.actors j)
              ((send_down_message-Quiet r ref reason s).1 j),
    )

tell_each-same :
    (ids : List ℕ) (ref : ActorRef) (reason : Reason) (i : ℕ) (s t : System) (log : List Event)
    → elem i ids ≡ false
    → t.watches ≡ remove i s.watches
    → SameWatchers s t
    → tell_each ids ref reason t log ≡ tell_each ids ref reason s log
tell_each-same [] ref reason i s t log n w h = refl
tell_each-same (j ∷ ids) ref reason i s t log n w h =
    tell_each-same ids ref reason i s t (tell (t.watches j) ref reason t log) (ground (arith, n)) w
      h
    ∙ ap (tell_each ids ref reason s) (
        ap (λ (o : Option WatchEntry). tell o ref reason t log)
          (ap (λ (u : Table WatchEntry). u j) w ∙ ground (arith, n))
        ∙ same (s.watches j))
  where
    same : (o : Option WatchEntry) → tell o ref reason t log ≡ tell o ref reason s log
    same none = refl
    same (some e) = rw (h e.watch_ref.watcher_id) refl

Keyed-remove : (i : ℕ) (s t : System) → t.watches ≡ remove i s.watches → Keyed s → Keyed t
Keyed-remove i s t w keyed j e q = elim (Bool-cases (i == j)) [
  | inl b ↦ absurd (ground (arith, b, ap (λ (u : Table WatchEntry). u j) (sym w) ∙ q))
  | inr b ↦ keyed j e (ground (arith, b, ap (λ (u : Table WatchEntry). u j) (sym w) ∙ q))
]

Watched-remove :
    (i : ℕ) (s t : System) (k : ℕ) (ids : List ℕ)
    → t.watches ≡ remove i s.watches
    → elem i ids ≡ false
    → Watched s k ids
    → Watched t k ids
Watched-remove i s t k [] w n h = tt
Watched-remove i s t k (j ∷ ids) w n ((e, q, at), h) = (
  (e, ap (λ (u : Table WatchEntry). u j) w ∙ ground (arith, n, q), at),
  Watched-remove i s t k ids w (ground (arith, n)) h,
)

set_of-kept : (xs : List ℕ) → set_of (kept xs) ≡ xs
set_of-kept [] = refl
set_of-kept (x ∷ xs) = refl

set_delete-absent : (x : ℕ) (xs : List ℕ) → elem x xs ≡ false → set_delete x xs ≡ xs
set_delete-absent x [] n = refl
set_delete-absent x (y ∷ xs) n = ground (arith, set_delete-absent x xs, n)

set_of-leave_set :
    (k x : ℕ) (t : Table (List ℕ)) → set_of (leave_set k x t k) ≡ set_delete x (set_of (t k))
set_of-leave_set k x t = elim (Bool-cases (k == k)) [
  | inl e ↦ rw (e) (set_of-kept (set_delete x (set_of (t k))))
  | inr e ↦ absurd (ground (arith, e))
]

-- Every watch of the set is answered and removed, and the others are left.
pub notify_each-answers :
    (ref : ActorRef) (reason : Reason) (ids : List ℕ) (s : System)
    → Keyed s
    → Distinct ids
    → Watched s ref.id ids
    → set_of (s.watched_by ref.id) ≡ ids
    → ((notify_each ref reason ids s).log ≡ tell_each ids ref reason s s.log)
      × (set_of ((notify_each ref reason ids s).watched_by ref.id) ≡ [])
      × ((j : ℕ)
          → (notify_each ref reason ids s).watches j ≡ (if elem j ids then none else s.watches j))
unfolding notify_each
notify_each-answers ref reason [] s keyed d w e = (refl, e, λ j. refl)
notify_each-answers ref reason (i ∷ ids) s keyed (new, d) ((e, q, at), w) own =
    let t = notify_entry ref reason (some e) s in
    let (t1, t2, t3, t4) = notify_entry-fields ref reason s i e q (keyed i e q) in
    let left : set_of (t.watched_by ref.id) ≡ ids =
      ap (λ (u : Table (List ℕ)). set_of (u ref.id)) t2
      ∙ ap (λ (k : ℕ). set_of (leave_set k i s.watched_by ref.id)) at
      ∙ set_of-leave_set ref.id i s.watched_by
      ∙ ap (set_delete i) own
      ∙ ground (arith, set_delete-absent i ids new) in
    let (r1, r2, r3) =
      notify_each-answers ref reason ids t (Keyed-remove i s t t1 keyed) d
        (Watched-remove i s t ref.id ids t1 new w) left in
    rw (notify_each, q)
      ((
        r1
            ∙ tell_each-same ids ref reason i s t t.log new t1 t4
            ∙ ap (tell_each ids ref reason s) t3,
        r2,
        λ j. r3 j ∙ rw (t1) (ground (arith, new)),
      ))
