-- ===== src/Timers.antt =====
-- src/actor_system.ts: the timers of one actor, with `startActorTimer`, `cancelActorTimer`,
-- `cancelAllActorTimers` and the callbacks, which may run in any order: how long a delay is, is not
-- modelled. A timer's handle is known by the timer's identifier.
pub mod Silence
use libeam.Shared.{
  ℕ, ◌+◌, Bool, true, false, List, [], ◌∷◌, ◌++◌, Option, none, some, ◌==◌, if◌then◌else◌,
}

pub record Timer (A : Type 0) : Type 0 where
  pub id : ℕ
  pub is_interval : Bool
  pub message : A

-- `timers` is the actor's own map, `armed` what `setInterval` and `setTimeout` hold and have not
-- been told to clear, and `sent` the messages cast to the actor, the latest first.
pub record ActorTimers (A : Type 0) : Type 0 where
  pub next_id : ℕ
  pub alive : Bool
  pub timers : List (Timer A)
  pub armed : List (Timer A)
  pub sent : List A

module _ {A : Type 0} where
  abbrev pub find_timer : ℕ → List (Timer A) → Option (Timer A)
  find_timer id [] = none
  find_timer id (t ∷ ts) = if t.id == id then some t else find_timer id ts

  -- `timers.delete`, and `clearInterval` or `clearTimeout`.
  abbrev pub without_timer : ℕ → List (Timer A) → List (Timer A)
  without_timer id [] = []
  without_timer id (t ∷ ts) = if t.id == id then without_timer id ts else t ∷ without_timer id ts

  -- `none` is the exception for an actor that is not there.
  unfoldable pub start_timer : A → Bool → ActorTimers A → Option (ActorTimers A × ℕ)
  start_timer message is_interval s =
      let t : Timer A = record { id = s.next_id; is_interval = is_interval; message = message } in
      if s.alive
      then some (
        record s {
          next_id = s.next_id + 1;
          timers = s.timers ++ (t ∷ []);
          armed = s.armed ++ (t ∷ []);
        },
        s.next_id,
      )
      else none

  -- A timer that is not an interval is used up when its callback runs.
  abbrev pub fired : Timer A → ActorTimers A → ActorTimers A
  fired t s =
      if s.alive
      then (if t.is_interval then record s { sent = t.message ∷ s.sent } else record s {
        sent = t.message ∷ s.sent;
        timers = without_timer t.id s.timers;
        armed = without_timer t.id s.armed;
      })
      else (if t.is_interval
          then elim (find_timer t.id s.timers) [
            | none ↦ s
            | some entry ↦ record s { armed = without_timer t.id s.armed }
          ]
          else record s { armed = without_timer t.id s.armed })

  abbrev pub fire_found : Option (Timer A) → ActorTimers A → ActorTimers A
  fire_found none s = s
  fire_found (some t) s = fired t s

  -- The callback of a timer runs, where it is armed.
  unfoldable pub fire : ℕ → ActorTimers A → ActorTimers A
  fire id s = fire_found (find_timer id s.armed) s

  abbrev pub cancel_found : ℕ → Option (Timer A) → ActorTimers A → ActorTimers A × Bool
  cancel_found id none s = (s, false)
  cancel_found id (some t) s =
      (record s { timers = without_timer id s.timers; armed = without_timer id s.armed }, true)

  unfoldable pub cancel_timer : ℕ → ActorTimers A → ActorTimers A × Bool
  cancel_timer id s = if s.alive then cancel_found id (find_timer id s.timers) s else (s, false)

  abbrev pub clear_each : List (Timer A) → List (Timer A) → List (Timer A)
  clear_each [] armed = armed
  clear_each (t ∷ ts) armed = clear_each ts (without_timer t.id armed)

  unfoldable pub cancel_all_timers : ActorTimers A → ActorTimers A
  cancel_all_timers s =
      if s.alive then record s { timers = []; armed = clear_each s.timers s.armed } else s

  -- The end of `stop`, after `cancel_all_timers`: meanwhile the registry and the actor's own
  -- `terminate` were awaited, in which the actor may have started other timers.
  unfoldable pub delete_actor : ActorTimers A → ActorTimers A
  delete_actor s = record s { alive = false }

  abbrev pub no_timers : ActorTimers A
  no_timers = record { next_id = 0; alive = true; timers = []; armed = []; sent = [] }

pub data TimerAction (A : Type 0) : Type 0 where
  starts : A → Bool → TimerAction A
  fires : ℕ → TimerAction A
  cancels : ℕ → TimerAction A
  cancels_all : TimerAction A
  deletes : TimerAction A

module _ {A : Type 0} where
  abbrev pub after_start : ActorTimers A → Option (ActorTimers A × ℕ) → ActorTimers A
  after_start s none = s
  after_start s (some (t, id)) = t

  unfoldable pub act : TimerAction A → ActorTimers A → ActorTimers A
  unfolding start_timer fire cancel_timer cancel_all_timers delete_actor
  act (starts message is_interval) s = after_start s (start_timer message is_interval s)
  act (fires id) s = fire id s
  act (cancels id) s = (cancel_timer id s).0
  act cancels_all s = cancel_all_timers s
  act deletes s = delete_actor s

  unfoldable pub act_all : List (TimerAction A) → ActorTimers A → ActorTimers A
  unfolding act
  act_all [] s = s
  act_all (a ∷ actions) s = act_all actions (act a s)
