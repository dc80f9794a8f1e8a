-- ===== src/ActorSystem/Answers.antt =====
-- Watches of src/actor_system.ts from the first to the last: made, cancelled, and answered when the
-- watched actor terminates.
use libeam.Shared.{
  ℕ, ◌+◌, ◌<◌, Bool, true, false, List, [], ◌∷◌, none, some, ◌≡◌, refl, sym, subst, ◌∙◌, ap, ◌==◌,
  if◌then◌else◌, arith, Bool-cases, Option-cases, inl, inr, ◌++◌,
}
use libeam.Shared.Dict.{is_some}
use libeam.Shared.Table.{Table, put, remove, elem, set_add, set_delete, set_of, join_set, leave_set}
use libeam.ActorSystem.{ActorRef, WatchRef, WatchEntry, Reason, normal, System}
use libeam.ActorSystem.Watching.{
  watch, fresh_watch, record_watch, unwatch, send_down_message, notify_entry, notify_each,
  notify_watchers,
}
use libeam.ActorSystem.Watches.{
  tell_each, Watched, unwatch-fields, send_down_message-fields, notify_entry-fields,
  notify_each-answers,
}
use libeam.ActorSystem.Frame.{unwatch-Quiet, notify_entry-Quiet, send_down_message-Quiet}
use libeam.ActorSystem.WatchSets.{Agree, AgreeAt-remove, AgreeAt-put, set_of-leave_set}

Agree-remove :
    (s t : System) (i : ℕ) (e : WatchEntry)
    → s.watches i ≡ some e
    → t.next_id ≡ s.next_id
    → t.watches ≡ remove i s.watches
    → t.watched_by ≡ leave_set e.watch_ref.watched_id i s.watched_by
    → Agree s
    → Agree t
Agree-remove s t i e q f1 f2 f3 agree =
    rw (f1, f2, f3) (AgreeAt-remove s.next_id s.watches s.watched_by i e q agree)

unwatch-absent : (r : WatchRef) (s : System) → s.watches r.id ≡ none → unwatch r s ≡ s
unfolding unwatch
unwatch-absent r s q = rw (q) refl

-- A reference that `watch` gave out is the one that its entry holds.
abbrev pub Issued : WatchRef → System → Type 0
Issued r s = (e : WatchEntry) → s.watches r.id ≡ some e → e.watch_ref ≡ r

unwatch-Agree : (r : WatchRef) (s : System) → Issued r s → Agree s → Agree (unwatch r s)
unwatch-Agree r s issued agree = elim (Option-cases (s.watches r.id)) [
  | inl q ↦ subst Agree (sym (unwatch-absent r s q)) agree
  | inr (e, q) ↦
      (let (u1, u2, u3) = unwatch-fields r s e q in
        Agree-remove s (unwatch r s) r.id e q (unwatch-Quiet r s).0.0 u1
          (u2 ∙ ap (λ (w : WatchRef). leave_set w.watched_id r.id s.watched_by) (sym (issued e q)))
          agree)
]

notify_entry-Agree :
    (ref : ActorRef) (reason : Reason) (i : ℕ) (s : System)
    → Agree s
    → Agree (notify_entry ref reason (s.watches i) s)
notify_entry-Agree ref reason i s agree = elim (Option-cases (s.watches i)) [
  | inl q ↦ subst (λ o. Agree (notify_entry ref reason o s)) (sym q) agree
  | inr (e, q) ↦
      (let (t1, t2, t3, t4) = notify_entry-fields ref reason s i e q (agree.0 i e q).0 in
        subst (λ o. Agree (notify_entry ref reason o s)) (sym q)
          (Agree-remove s (notify_entry ref reason (some e) s) i e q
            (notify_entry-Quiet ref reason (some e) s).0.0 t1 t2 agree))
]

notify_each-Agree :
    (ref : ActorRef) (reason : Reason) (ids : List ℕ) (s : System)
    → Agree s
    → Agree (notify_each ref reason ids s)
unfolding notify_each
notify_each-Agree ref reason [] s agree = agree
notify_each-Agree ref reason (i ∷ ids) s agree =
    notify_each-Agree ref reason ids (notify_entry ref reason (s.watches i) s)
      (notify_entry-Agree ref reason i s agree)

notify_watchers-each :
    (ref : ActorRef) (reason : Reason) (s : System)
    → notify_watchers ref reason s ≡ notify_each ref reason (set_of (s.watched_by ref.id)) s
unfolding notify_watchers notify_each
notify_watchers-each ref reason s = elim (Option-cases (s.watched_by ref.id)) [
  | inl e ↦ rw (e) refl
  | inr (ids, e) ↦ rw (e) refl
]

notify_each-none :
    (ref : ActorRef) (reason : Reason) (s : System) → (notify_each ref reason [] s).log ≡ s.log
unfolding notify_each
notify_each-none ref reason s = refl

Watched-of :
    (s : System) (k : ℕ) (ids : List ℕ)
    → ((i : ℕ)
        → elem i ids ≡ true
        → (e : WatchEntry) × (s.watches i ≡ some e) × (e.watch_ref.watched_id ≡ k))
    → Watched s k ids
Watched-of s k [] h = tt
Watched-of s k (i ∷ ids) h =
    (h i (ground arith), Watched-of s k ids (λ j m. h j (ground (arith, m))))

-- When an actor terminates, each watch of it is answered once: the log grows by one DOWN message
-- for every watch in the set of the actor's watches whose watcher is there, in the order of the
-- set, to the watcher, with the reason, and by nothing else; those watches are gone, the others are
-- left, and to notify again for any reason sends nothing more. The tables of watches agree.
pub notify_watchers-once :
    (ref : ActorRef) (reason again : Reason) (s : System) (j : ℕ)
    → Agree s
    → ((notify_watchers ref reason s).log
        ≡ tell_each (set_of (s.watched_by ref.id)) ref reason s s.log)
      × ((notify_watchers ref reason s).watches j
          ≡ (if elem j (set_of (s.watched_by ref.id)) then none else s.watches j))
      × ((notify_watchers ref again (notify_watchers ref reason s)).log
          ≡ (notify_watchers ref reason s).log)
notify_watchers-once ref reason again s j agree =
    let t = notify_each ref reason (set_of (s.watched_by ref.id)) s in
    let (r1, r2, r3) =
      notify_each-answers ref reason (set_of (s.watched_by ref.id)) s (λ i e q. (agree.0 i e q).0)
        (agree.1 ref.id)
        (Watched-of s ref.id (set_of (s.watched_by ref.id)) (λ i m. agree.2 ref.id i m)) refl in
    rw (notify_watchers-each ref reason s) (
      (
        r1,
        r3 j,
        ap (λ (u : System). u.log) (notify_watchers-each ref again t)
            ∙ ap (λ (ids : List ℕ). (notify_each ref again ids t).log) r2
            ∙ notify_each-none ref again t,
      ))

-- What `watch` does to the tables, whether or not the watched actor is there.
watch-fields :
    (watcher watched : ActorRef) (s : System)
    → let r = fresh_watch watcher watched s in
      ((watch watcher watched s).1 ≡ r)
      × ((watch watcher watched s).0.next_id ≡ s.next_id + 1)
      × ((watch watcher watched s).0.watches
          ≡ put s.next_id
              (record { watch_ref = r; watcher_ref = watcher; watched_ref = watched })
              s.watches)
      × ((watch watcher watched s).0.watched_by ≡ join_set watched.id s.next_id s.watched_by)
unfolding watch
watch-fields watcher watched s = go (is_some (watching.actors watched.id))
  where
    r : WatchRef
    r = fresh_watch watcher watched s

    watching : System
    watching = record_watch r watcher watched s

    sent : System
    sent = send_down_message r watched normal watching

    go :
        (b : Bool)
        → let t = if◌then◌else◌ {A = System × WatchRef} b (watching, r) (sent, r) in
          (t.1 ≡ r)
          × (t.0.next_id ≡ s.next_id + 1)
          × (t.0.watches
              ≡ put s.next_id
                  (record { watch_ref = r; watcher_ref = watcher; watched_ref = watched })
                  s.watches)
          × (t.0.watched_by ≡ join_set watched.id s.next_id s.watched_by)
    go true = (refl, refl, refl, refl)
    go false =
        let (d1, d2, d3) = send_down_message-fields r watched normal watching in
        (refl, (send_down_message-Quiet r watched normal watching).0.0, d1, d2)

watch-Agree :
    (watcher watched : ActorRef) (s : System) → Agree s → Agree (watch watcher watched s).0
watch-Agree watcher watched s agree =
    let (w1, w2, w3, w4) = watch-fields watcher watched s in
    rw (w2, w3, w4)
      (AgreeAt-put s.next_id s.watches s.watched_by
        (record {
          watch_ref = fresh_watch watcher watched s;
          watcher_ref = watcher;
          watched_ref = watched;
        })
        refl agree)

-- The table of watches and the sets of watches of each actor agree after a watch is made, after a
-- reference that the system issued is cancelled, and after the watchers of an actor have been
-- notified, where they agreed before.
pub watching-Agree :
    (watcher watched ref : ActorRef) (r : WatchRef) (reason : Reason) (s : System)
    → Agree s
    → Issued r s
    → Agree (watch watcher watched s).0 × Agree (unwatch r s) × Agree (notify_watchers ref reason s)
watching-Agree watcher watched ref r reason s agree issued = (
  watch-Agree watcher watched s agree,
  unwatch-Agree r s issued agree,
  rw (notify_watchers-each ref reason s)
      (notify_each-Agree ref reason (set_of (s.watched_by ref.id)) s agree),
)

set_delete-set_add : (x : ℕ) (xs : List ℕ) → elem x xs ≡ false → set_delete x (set_add x xs) ≡ xs
set_delete-set_add x xs n = rw (n) (last xs n)
  where
    last : (ys : List ℕ) → elem x ys ≡ false → set_delete x (ys ++ (x ∷ [])) ≡ ys
    last [] n = ground arith
    last (y ∷ ys) n = ground (arith, last ys (ground (arith, n)), n)

-- Nothing stands yet under an identifier that was not given out.
Agree-unused :
    (s : System)
    → Agree s
    → (s.watches s.next_id ≡ none) × ((k : ℕ) → elem s.next_id (set_of (s.watched_by k)) ≡ false)
Agree-unused s (keyed, distinct, there) = (
  elim (Option-cases (s.watches s.next_id)) [
    | inl q ↦ q
    | inr (e, q) ↦ absurd (self (keyed s.next_id e q).1)
  ],
  λ k. elim (Bool-cases (elem s.next_id (set_of (s.watched_by k)))) [
    | inl m ↦ (let (e, q, at) = there k s.next_id m in absurd (self (keyed s.next_id e q).1))
    | inr n ↦ n
  ],
)
  where
    self : s.next_id < s.next_id → ⊥
    self h = omega arith

remove-put {ℓ} :
    {V : Type ℓ} (k : ℕ) (v : V) (t : Table V) (j : ℕ) → t k ≡ none → remove k (put k v t) j ≡ t j
remove-put k v t j n = elim (Bool-cases (k == j)) [
  | inl b ↦ rw (b) (sym (ap t (sym (ground (arith, b))) ∙ n))
  | inr b ↦ rw (b) refl
]

leave_set-join_set :
    (k x j : ℕ) (t : Table (List ℕ))
    → elem x (set_of (t k)) ≡ false
    → set_of (leave_set k x (join_set k x t) j) ≡ set_of (t j)
leave_set-join_set k x j t n = set_of-leave_set k x j (join_set k x t) ∙ go (k == j) refl
  where
    go :
        (b : Bool)
        → (k == j) ≡ b
        → (if b
            then set_delete x (set_of (if b then some (set_add x (set_of (t k))) else t j))
            else set_of (if b then some (set_add x (set_of (t k))) else t j))
          ≡ set_of (t j)
    go true q =
        set_delete-set_add x (set_of (t k)) n ∙ ap (λ (i : ℕ). set_of (t i)) (ground (arith, q))
    go false q = refl

-- To cancel a watch that was just made leaves the watches that there were, and the set of watches
-- of every actor as it was, where the tables of watches agree.
pub unwatch-watch :
    (watcher watched : ActorRef) (s : System) (j : ℕ)
    → Agree s
    → ((unwatch (watch watcher watched s).1 (watch watcher watched s).0).watches j ≡ s.watches j)
      × (set_of ((unwatch (watch watcher watched s).1 (watch watcher watched s).0).watched_by j)
          ≡ set_of (s.watched_by j))
unwatch-watch watcher watched s j agree =
    let t = (watch watcher watched s).0 in
    let r = fresh_watch watcher watched s in
    let e : WatchEntry = record { watch_ref = r; watcher_ref = watcher; watched_ref = watched } in
    let (w1, w2, w3, w4) = watch-fields watcher watched s in
    let (unused, outside) = Agree-unused s agree in
    let (u1, u2, u3) =
      unwatch-fields r t e (ap (λ (w : Table WatchEntry). w s.next_id) w3 ∙ ground arith) in
    rw (w1) (
      (
        ap (λ (w : Table WatchEntry). w j) u1
            ∙ ap (λ (w : Table WatchEntry). remove s.next_id w j) w3
            ∙ remove-put s.next_id e s.watches j unused,
        ap (λ (b : Table (List ℕ)). set_of (b j)) u2
            ∙ ap (λ (b : Table (List ℕ)). set_of (leave_set watched.id s.next_id b j)) w4
            ∙ leave_set-join_set watched.id s.next_id j s.watched_by (outside watched.id),
      ))
