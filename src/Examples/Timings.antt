-- ===== src/Examples/Timings.antt =====
-- Runs of the timers of src/actor_system.ts.
use libeam.Shared.{ℕ, true, false, List, [], ◌∷◌, ◌≡◌, refl}
use libeam.Timers.{
  start_timer, fire, cancel_timer, cancel_all_timers, delete_actor, no_timers, TimerAction, starts,
  fires, cancels, cancels_all, act, act_all,
}
use libeam.Timers.Silence.{listed, delete_actor-silences}

-- An interval with message 7 runs twice, a timeout with message 9 runs once, and one with message 8
-- waits.
abbrev before_end : List (TimerAction ℕ)
before_end =
    starts 7 true ∷ starts 9 false ∷ fires 0 ∷ fires 1 ∷ fires 1 ∷ fires 0 ∷ starts 8 false ∷ []

abbrev late : List (TimerAction ℕ)
late = fires 0 ∷ fires 2 ∷ starts 6 true ∷ fires 3 ∷ cancels 0 ∷ cancels_all ∷ []

sent_before_end : (act_all before_end no_timers).sent ≡ 7 ∷ 9 ∷ 7 ∷ []
unfolding act_all act start_timer fire
sent_before_end = refl

cancelled_is_silent :
    (act_all (starts 7 true ∷ cancels 0 ∷ fires 0 ∷ []) (no_timers {A = ℕ})).sent ≡ []
unfolding act_all act start_timer cancel_timer cancel_all_timers fire
cancelled_is_silent = refl

before_end_alive : (act_all before_end (no_timers {A = ℕ})).alive ≡ true
unfolding act_all act start_timer fire
before_end_alive = refl

-- The interval is still armed when the actor is deleted, and runs once more.
armed_late :
    listed 0 (act_all [] (delete_actor (act_all before_end (no_timers {A = ℕ})))).armed ≡ true
unfolding act_all act start_timer fire delete_actor
armed_late = refl

delete_actor-silences_example :
    let s = act_all before_end no_timers in
    let later = act_all late (delete_actor s) in
    ((cancel_all_timers s).armed ≡ [])
    × (later.sent ≡ s.sent)
    × (listed 0 (fire 0 later).armed ≡ false)
delete_actor-silences_example = delete_actor-silences before_end late 0 before_end_alive
