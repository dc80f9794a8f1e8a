-- ===== src/Timers/Silence.antt =====
-- After which point the timers of src/actor_system.ts send nothing any more.
use libeam.Shared.{
  ℕ, Bool, true, false, ◌||◌, List, [], ◌∷◌, ◌++◌, Option, none, some, ◌==◌, if◌then◌else◌, ◌≡◌,
  refl, sym, ◌∙◌, ap, arith, Bool-cases, Option-cases, inl, inr,
}
use libeam.Timers.{
  Timer, ActorTimers, find_timer, without_timer, start_timer, fired, fire_found, fire, cancel_found,
  cancel_timer, clear_each, cancel_all_timers, delete_actor, no_timers, TimerAction, starts, fires,
  cancels, cancels_all, deletes, act, act_all,
}

module _ {A : Type 0} where
  abbrev pub listed : ℕ → List (Timer A) → Bool
  listed id [] = false
  listed id (t ∷ ts) = (t.id == id) || listed id ts

  listed-append :
      (id : ℕ) (ts us : List (Timer A)) → listed id (ts ++ us) ≡ (listed id ts || listed id us)
  listed-append id [] us = refl
  listed-append id (t ∷ ts) us = ground (arith, listed-append id ts us)

  listed-without_timer :
      (id gone : ℕ) (ts : List (Timer A))
      → listed id (without_timer gone ts) ≡ (if gone == id then false else listed id ts)
  listed-without_timer id gone [] = ground arith
  listed-without_timer id gone (t ∷ ts) = ground (arith, listed-without_timer id gone ts)

  -- Every armed timer is in the actor's map.
  abbrev pub Tracked : ActorTimers A → Type 0
  Tracked s = (id : ℕ) → listed id s.armed ≡ true → listed id s.timers ≡ true

  unlisted : (ts : List (Timer A)) → ((id : ℕ) → listed id ts ≡ false) → ts ≡ []
  unlisted [] h = refl
  unlisted (t ∷ ts) h = absurd (ground (arith, h t.id))

  listed-clear_each :
      (id : ℕ) (ts armed : List (Timer A))
      → listed id (clear_each ts armed) ≡ (if listed id ts then false else listed id armed)
  listed-clear_each id [] armed = refl
  listed-clear_each id (t ∷ ts) armed =
      listed-clear_each id ts (without_timer t.id armed)
      ∙ ground (arith, listed-without_timer id t.id armed)

  -- When all timers are cancelled, none stays armed.
  clear_each-none : (s : ActorTimers A) → Tracked s → clear_each s.timers s.armed ≡ []
  clear_each-none s tracked = unlisted (clear_each s.timers s.armed) (λ id.
      elim (Bool-cases (listed id s.armed)) [
        | inl m ↦ ground (arith, listed-clear_each id s.timers s.armed, tracked id m)
        | inr m ↦ ground (arith, listed-clear_each id s.timers s.armed, m)
      ])

  removed-Tracked :
      (gone : ℕ) (s t : ActorTimers A)
      → t.armed ≡ without_timer gone s.armed
      → t.timers ≡ without_timer gone s.timers
      → Tracked s
      → Tracked t
  removed-Tracked gone s t e1 e2 tracked id m =
      let m' : listed id (without_timer gone s.armed) ≡ true =
        ap (λ (ts : List (Timer A)). listed id ts) (sym e1) ∙ m in
      let was : listed id s.armed ≡ true =
        ground (arith, listed-without_timer id gone s.armed, m') in
      let there : listed id s.timers ≡ true = tracked id was in
      ap (λ (ts : List (Timer A)). listed id ts) e2
      ∙ ground (
        arith,
        listed-without_timer id gone s.timers,
        listed-without_timer id gone s.armed,
        m',
        there,
      )

  added-Tracked :
      (t : Timer A) (armed timers : List (Timer A)) (id : ℕ)
      → (listed id armed ≡ true → listed id timers ≡ true)
      → listed id (armed ++ (t ∷ [])) ≡ true
      → listed id (timers ++ (t ∷ [])) ≡ true
  added-Tracked t armed timers id tracked m =
      ground (arith, listed-append id armed (t ∷ []), listed-append id timers (t ∷ []), tracked, m)

  cancel_found-Tracked :
      (id : ℕ) (o : Option (Timer A)) (s : ActorTimers A)
      → Tracked s
      → Tracked (cancel_found id o s).0
  cancel_found-Tracked id none s tracked = tracked
  cancel_found-Tracked id (some t) s tracked =
      removed-Tracked id s (cancel_found id (some t) s).0 refl refl tracked

  -- The handle of a timer that ran for an actor that is gone.
  kept_entry-Tracked :
      (gone : ℕ) (s : ActorTimers A)
      → Tracked s
      → Tracked (record s { armed = without_timer gone s.armed })
  kept_entry-Tracked gone s tracked id m =
      tracked id (ground (arith, listed-without_timer id gone s.armed, m))

  -- What `fired` does, by whether the actor is there, whether the timer is an interval, and
  -- whether its entry is in the map.
  fired-Tracked :
      (t : Timer A) (up interval : Bool) (o : Option (Timer A)) (s : ActorTimers A)
      → s.alive ≡ up
      → t.is_interval ≡ interval
      → find_timer t.id s.timers ≡ o
      → Tracked s
      → Tracked (fired t s)
  fired-Tracked t true true o s h1 h2 h3 tracked = rw (h1, h2) tracked
  fired-Tracked t true false o s h1 h2 h3 tracked =
      rw (h1, h2)
        (removed-Tracked t.id s
          (record s { timers = without_timer t.id s.timers; armed = without_timer t.id s.armed })
          refl refl tracked)
  fired-Tracked t false true none s h1 h2 h3 tracked = rw (h1, h2, h3) tracked
  fired-Tracked t false true (some entry) s h1 h2 h3 tracked =
      rw (h1, h2, h3) (kept_entry-Tracked t.id s tracked)
  fired-Tracked t false false o s h1 h2 h3 tracked = rw (h1, h2) (kept_entry-Tracked t.id s tracked)

  act-Tracked : (a : TimerAction A) (s : ActorTimers A) → Tracked s → Tracked (act a s)
  unfolding act start_timer fire cancel_timer cancel_all_timers delete_actor
  act-Tracked (starts message is_interval) s tracked = elim (Bool-cases s.alive) [
    | inl up ↦ rw (up) (λ id m.
        added-Tracked (record { id = s.next_id; is_interval = is_interval; message = message })
          s.armed s.timers id (tracked id) m)
    | inr gone ↦ rw (gone) tracked
  ]
  act-Tracked (fires id) s tracked =
      elim (find_timer id s.armed) as (λ o. Tracked (fire_found o s)) [
        | none ↦ tracked
        | some t ↦
            fired-Tracked t s.alive t.is_interval (find_timer t.id s.timers) s refl refl refl
              tracked
      ]
  act-Tracked (cancels id) s tracked = elim (Bool-cases s.alive) [
    | inl up ↦
        rw (up)
          (cancel_found-Tracked id (find_timer id s.timers) (record s { alive = true }) tracked)
    | inr gone ↦ rw (gone) tracked
  ]
  act-Tracked cancels_all s tracked = elim (Bool-cases s.alive) [
    | inl up ↦ rw (up) (λ id m.
        absurd (
          ground
            (arith, ap (λ (ts : List (Timer A)). listed id ts) (clear_each-none s tracked), m)))
    | inr gone ↦ rw (gone) tracked
  ]
  act-Tracked deletes s tracked = tracked

  act_all-Tracked :
      (actions : List (TimerAction A)) (s : ActorTimers A) → Tracked s → Tracked (act_all actions s)
  unfolding act_all
  act_all-Tracked [] s tracked = tracked
  act_all-Tracked (a ∷ actions) s tracked =
      act_all-Tracked actions (act a s) (act-Tracked a s tracked)

  find_timer-listed :
      (id : ℕ) (ts : List (Timer A)) (t : Timer A)
      → find_timer id ts ≡ some t
      → (t.id ≡ id) × (listed id ts ≡ true)
  find_timer-listed id [] t found = absurd (ground (arith, found))
  find_timer-listed id (u ∷ ts) t found = ground (arith, found, find_timer-listed id ts t)

  find_timer-unlisted :
      (id : ℕ) (ts : List (Timer A)) → find_timer id ts ≡ none → listed id ts ≡ false
  find_timer-unlisted id [] found = refl
  find_timer-unlisted id (u ∷ ts) found = ground (arith, found, find_timer-unlisted id ts)

  fired-gone :
      (t : Timer A) (interval : Bool) (o : Option (Timer A)) (s : ActorTimers A)
      → s.alive ≡ false
      → t.is_interval ≡ interval
      → find_timer t.id s.timers ≡ o
      → ((fired t s).alive ≡ false) × ((fired t s).sent ≡ s.sent)
  fired-gone t true none s gone h2 h3 = rw (gone, h2, h3) (gone, refl)
  fired-gone t true (some entry) s gone h2 h3 = rw (gone, h2, h3) (gone, refl)
  fired-gone t false o s gone h2 h3 = rw (gone, h2) (refl, refl)

  act-gone :
      (a : TimerAction A) (s : ActorTimers A)
      → s.alive ≡ false
      → ((act a s).alive ≡ false) × ((act a s).sent ≡ s.sent)
  unfolding act start_timer fire cancel_timer cancel_all_timers delete_actor
  act-gone (starts message is_interval) s gone = rw (gone) (refl, refl)
  act-gone (fires id) s gone =
      elim (find_timer id s.armed)
        as (λ o. ((fire_found o s).alive ≡ false) × ((fire_found o s).sent ≡ s.sent)) [
          | none ↦ (gone, refl)
          | some t ↦ fired-gone t t.is_interval (find_timer t.id s.timers) s gone refl refl
        ]
  act-gone (cancels id) s gone = rw (gone) (refl, refl)
  act-gone cancels_all s gone = rw (gone) (refl, refl)
  act-gone deletes s gone = (refl, refl)

  act_all-gone :
      (actions : List (TimerAction A)) (s : ActorTimers A)
      → s.alive ≡ false
      → ((act_all actions s).alive ≡ false) × ((act_all actions s).sent ≡ s.sent)
  unfolding act_all
  act_all-gone [] s gone = (gone, refl)
  act_all-gone (a ∷ actions) s gone =
      let (gone', same) = act-gone a s gone in
      let (gone'', same') = act_all-gone actions (act a s) gone' in (gone'', same' ∙ same)

  fired-clears :
      (t : Timer A) (interval : Bool) (o : Option (Timer A)) (s : ActorTimers A)
      → s.alive ≡ false
      → t.is_interval ≡ interval
      → find_timer t.id s.timers ≡ o
      → listed t.id s.timers ≡ true
      → listed t.id (fired t s).armed ≡ false
  fired-clears t true none s gone h2 h3 there =
      absurd (ground (arith, find_timer-unlisted t.id s.timers h3, there))
  fired-clears t true (some entry) s gone h2 h3 there =
      rw (gone, h2, h3) (ground (arith, listed-without_timer t.id t.id s.armed))
  fired-clears t false o s gone h2 h3 there =
      rw (gone, h2) (ground (arith, listed-without_timer t.id t.id s.armed))

  fire-clears :
      (id : ℕ) (s : ActorTimers A)
      → s.alive ≡ false
      → Tracked s
      → listed id (fire id s).armed ≡ false
  unfolding fire
  fire-clears id s gone tracked = elim (Option-cases (find_timer id s.armed)) [
    | inl missing ↦ rw (missing) (find_timer-unlisted id s.armed missing)
    | inr (t, found) ↦
        let (same, was) = find_timer-listed id s.armed t found in
        rw (found, sym same)
          (fired-clears t t.is_interval (find_timer t.id s.timers) s gone refl refl
            (tracked t.id (rw (same) was)))
  ]

  -- While an actor is there, cancelling all its timers leaves none armed. After it is deleted,
  -- whatever timers it had, cancelled or not, and whatever is tried then, no timer sends a message
  -- to it any more, and a timer that is still armed runs at most once again.
  pub delete_actor-silences :
      (before after : List (TimerAction A)) (id : ℕ)
      → (act_all before no_timers).alive ≡ true
      → let s = act_all before (no_timers {A = A}) in
        let later = act_all after (delete_actor s) in
        ((cancel_all_timers s).armed ≡ [])
        × (later.sent ≡ s.sent)
        × (listed id (fire id later).armed ≡ false)
  unfolding cancel_all_timers delete_actor
  delete_actor-silences before after id up =
      let s : ActorTimers A = act_all before no_timers in
      let tracked = act_all-Tracked before no_timers (λ id m. absurd (ground (arith, m))) in
      let (gone, same) = act_all-gone after (delete_actor s) refl in
      (
        rw (up) (clear_each-none s tracked),
        same,
        fire-clears id (act_all after (delete_actor s)) gone
            (act_all-Tracked after (delete_actor s) tracked),
      )
