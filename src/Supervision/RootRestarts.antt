-- ===== src/Supervision/RootRestarts.antt =====
-- The counters of src/supervisor.ts for actors without a parent: they stand under the identifier
-- of an instance, and a restart makes a new instance.
use libeam.Shared.{
  ℕ, suc, ◌+◌, ◌≤◌, ◌<◌, String, Bool, true, false, List, [], ◌∷◌, Option, none, some, ◌≡◌, refl,
  sym, subst, ◌∙◌, ap, arith, if◌then◌else◌, length, ◌==◌, inl, inr, Option-cases,
}
use libeam.Shared.Table.{Table, put}
use libeam.ActorSystem.{
  ActorRef, ActorClass, Actor, ActorMetadata, SpawnOptions, Cause, RestartRecord, System, spawn,
  given, register_name, fresh_ref, new_actor, store_actor, start_actor, emit, init,
}
use libeam.ActorSystem.Watching.{unwatch_all}
use libeam.ActorSystem.Linking.{unlink_all}
use libeam.ActorSystem.Stopping.{
  leave_parent, remove_actor, current, stop_single, outcome, restart_with, restart,
}
use libeam.ActorSystem.Frame.{Quiet, Quiet-trans, unwatch_all-Quiet, unlink_all-Quiet}
use libeam.ActorSystem.Tree.{SameCounters, SameCounters-trans}
use libeam.ActorSystem.Leaving.{leave_parent-Loses, remove_actor-fields}
use libeam.Supervision.{
  restart_actor, SupervisionOptions, can_restart, handle_root_crash, handle_crash,
}

Quiet→SameCounters : (s t : System) → Quiet s t → SameCounters s t
Quiet→SameCounters s t ((f1, f2, f3, f4, f5), h) = (f1, f2, f4, f5)

pub stop_single-SameCounters : (ref : ActorRef) (s : System) → SameCounters s (stop_single ref s)
unfolding stop_single
stop_single-SameCounters ref s = elim (Option-cases (s.actors ref.id)) [
  | inl e ↦ rw (stop_single, e) ((refl, refl, refl, refl))
  | inr (a, e) ↦
      (let alone = leave_parent ref s in
        let unwatched = unwatch_all (current a (alone.actors ref.id)).watches alone in
        let cut = unlink_all (current a (unwatched.actors ref.id)).links unwatched in
        rw (stop_single, e)
          (SameCounters-trans s alone (remove_actor ref cut) (leave_parent-Loses ref s).0 (
            SameCounters-trans alone cut (remove_actor ref cut)
              (Quiet→SameCounters alone cut (
                Quiet-trans alone unwatched cut
                  (unwatch_all-Quiet (current a (alone.actors ref.id)).watches alone)
                  (unlink_all-Quiet (current a (unwatched.actors ref.id)).links unwatched)))
              (remove_actor-fields ref cut).0)))
]

abbrev pub root_metadata : ActorClass → SpawnOptions → ActorMetadata
root_metadata cls options = record { actor_class = cls; options = options; parent = none }

-- An actor without a parent that can be restarted, whose restarts were not counted yet, as those of
-- identifiers that were not given out are not.
abbrev pub Untried : ActorClass → SpawnOptions → ActorRef → System → Type 0
Untried cls options ref s =
    ((a : Actor) × (s.actors ref.id ≡ some a) × (a.actor_class ≡ cls))
    × (s.actor_metadata ref.id ≡ some (root_metadata cls options))
    × (s.closing ≡ false)
    × (ref.id < s.next_id)
    × (s.restart_counts ref.id ≡ none)
    × ((i : ℕ) → s.next_id ≤ i → s.restart_counts i ≡ none)

can_restart-first :
    (now max_restarts period_ms : ℕ)
    → 0 < max_restarts
    → can_restart now max_restarts period_ms none
      ≡ (some (record { count = 1; timestamp = now }), true)
unfolding can_restart
can_restart-first now m p h = ground arith

put-at {ℓ} : {V : Type ℓ} (k : ℕ) (v : V) (t : Table V) → put k v t k ≡ some v
put-at k v t = ground arith

spawn-Untried :
    (cls : ActorClass) (options : SpawnOptions) (s : System)
    → s.closing ≡ false
    → ((i : ℕ) → s.next_id ≤ i → s.restart_counts i ≡ none)
    → Untried cls options (fresh_ref options s) (outcome s (spawn cls options s)).0
      × ((outcome s (spawn cls options s)).0.next_id ≡ s.next_id + 1)
unfolding spawn
spawn-Untried cls options s running fresh = go s.closing running
  where
    ref : ActorRef
    ref = fresh_ref options s

    stored : System
    stored = store_actor ref cls options none s

    stored-Untried : Untried cls options ref stored × (stored.next_id ≡ s.next_id + 1)
    stored-Untried = (
      (
        (new_actor ref cls none, put-at s.next_id (new_actor ref cls none) s.actors, refl),
        put-at s.next_id (root_metadata cls options) s.actor_metadata,
        running,
        omega arith,
        fresh s.next_id (omega arith),
        λ i l. fresh i (omega arith),
      ),
      refl,
    )

    named :
        (name : Option String)
        → Untried cls options ref
            (emit (init ref.id options.args) (register_name name ref.id stored))
          × ((register_name name ref.id stored).next_id ≡ s.next_id + 1)
    named none = stored-Untried
    named (some name) = stored-Untried

    go :
        (x : Bool)
        → x ≡ false
        → Untried cls options ref
            (outcome s (if x then none else some (start_actor ref options stored, ref))).0
          × ((outcome s (if x then none else some (start_actor ref options stored, ref))).0.next_id
              ≡ s.next_id + 1)
    go true e = absurd (cc)
    go false e = named (given options.name)

-- What is left of a restart when the system does not shut down.
restart_with-Untried :
    (cls : ActorClass) (options : SpawnOptions) (ref : ActorRef) (s : System)
    → s.closing ≡ false
    → ((i : ℕ) → s.next_id ≤ i → s.restart_counts i ≡ none)
    → Untried cls options
        (fresh_ref options s)
        (restart_with ref (some (root_metadata cls options)) s).0
      × ((restart_with ref (some (root_metadata cls options)) s).0.next_id ≡ s.next_id + 1)
restart_with-Untried cls options ref s running fresh =
    let (f1, f2, f3, f4) = stop_single-SameCounters ref s in
    let t = stop_single ref s in
    subst
      (λ (n : ℕ).
        Untried cls options (record { handle = n; id = n; name = options.name })
          (outcome t (spawn cls options t)).0
        × ((outcome t (spawn cls options t)).0.next_id ≡ n + 1))
      f1
      (spawn-Untried cls options t (f2 ∙ running)
        (λ i l. ap (λ (g : Table RestartRecord). g i) f3 ∙ fresh i (omega (arith, f1))))

handle_crash-restarts :
    (now fuel : ℕ) (sup : SupervisionOptions) (cls : ActorClass) (options : SpawnOptions)
    (ref : ActorRef) (cause : Cause) (s : System)
    → sup.strategy ≡ restart_actor
    → 0 < sup.max_restarts
    → Untried cls options ref s
    → Untried cls options (fresh_ref options s) (handle_crash now sup (suc fuel) ref cause s)
      × ((handle_crash now sup (suc fuel) ref cause s).next_id ≡ s.next_id + 1)
unfolding handle_crash handle_root_crash restart
handle_crash-restarts now fuel sup cls options ref cause s st positive
      (alive, em, running, young, untried, fresh) =
    let tallied : System = record s {
      restart_counts = λ asked.
          if ref.id == asked
          then some (record { count = 1; timestamp = now })
          else s.restart_counts asked;
    } in
    rw (em, st, untried, can_restart-first now sup.max_restarts sup.period_ms positive)
      (subst
        (λ (m : Option ActorMetadata).
          Untried cls options (fresh_ref options s) (restart_with ref m tallied).0
          × ((restart_with ref m tallied).0.next_id ≡ s.next_id + 1))
        (sym em)
        (restart_with-Untried cls options ref tallied running (λ i l. ground (arith, fresh i l))))

-- A root actor that crashes at each of these times, and each time the instance that took its place.
abbrev pub crash_loop :
    SupervisionOptions → SpawnOptions → ℕ → List (ℕ × Cause) → ActorRef → System → System × ActorRef
crash_loop sup options fuel [] ref s = (s, ref)
crash_loop sup options fuel ((now, cause) ∷ crashes) ref s =
    crash_loop sup options fuel crashes (fresh_ref options s)
      (handle_crash now sup (suc fuel) ref cause s)

-- A root actor is restarted however often and however quickly it crashes, where the strategy is to
-- restart, the maximum of restarts is not 0 and the system is not shutting down: after any crashes
-- of it and of the instances that took its place, an instance of the same class is there, and one
-- identifier was given out for each crash. Before the first crash, no restart had been counted for
-- it or under an identifier that was not given out.
pub crash_loop-restarts :
    (sup : SupervisionOptions) (cls : ActorClass) (options : SpawnOptions) (fuel : ℕ)
    (crashes : List (ℕ × Cause)) (ref : ActorRef) (s : System)
    → sup.strategy ≡ restart_actor
    → 0 < sup.max_restarts
    → Untried cls options ref s
    → Untried cls options
        (crash_loop sup options fuel crashes ref s).1
        (crash_loop sup options fuel crashes ref s).0
      × ((crash_loop sup options fuel crashes ref s).0.next_id ≡ s.next_id + length crashes)
crash_loop-restarts sup cls options fuel [] ref s st positive u = (u, omega arith)
crash_loop-restarts sup cls options fuel ((now, cause) ∷ crashes) ref s st positive u =
    let (v, e) = handle_crash-restarts now fuel sup cls options ref cause s st positive u in
    let (w, f) =
      crash_loop-restarts sup cls options fuel crashes (fresh_ref options s)
        (handle_crash now sup (suc fuel) ref cause s) st positive v in
    (w, omega (arith, e, f))
