-- ===== src/Examples/Loops.antt =====
-- Runs of the message loop of an actor, of src/actor_system.ts.
use libeam.Shared.{ℕ, ◌+◌, ◌<◌, true, false, List, [], ◌∷◌, ◌++◌, none, some, ◌≡◌, refl}
use libeam.Mailbox.{StashedMessage, cast, call, drop_newest, error}
use libeam.MessageLoop.{
  Action, send_cast, send_call, call_ends, immediate_runs, batch_tests, handler_ends, pauses,
  resumes, schedule, dispatch_cast, dispatch_call, settle, end_call, process_mailbox,
  continue_batch, end_handler, pause_mailbox, resume_mailbox, step, run, spawned, sync_local_cast,
  end_detached, cast_now, handler_ends, inject_messages, drain, remove,
}
use libeam.MessageLoop.Wakeups.{sources, run-spawned-Woken}
use libeam.MessageLoop.Order.{reversed, run-spawned-Saw}
use libeam.MessageLoop.Exclusion.{under_way}
use libeam.MessageLoop.Overlap.{run-overlap}

abbrev casting : ℕ → StashedMessage ℕ
casting n = record { type = cast; message = n; has_reject = false }

abbrev calling : ℕ → StashedMessage ℕ
calling n = record { type = call; message = n; has_reject = false }

-- Two casts come while the mailbox is paused, and it is resumed; a third comes during the batch.
abbrev casts : List (Action ℕ)
casts =
    send_cast (casting 1)
    ∷ pauses
    ∷ send_cast (casting 2)
    ∷ immediate_runs
    ∷ resumes
    ∷ immediate_runs
    ∷ batch_tests 0
    ∷ send_cast (casting 3)
    ∷ handler_ends 0 true
    ∷ []

run-spawned-Woken_example : 0 < sources (run casts (spawned (some 2) drop_newest))
unfolding run step dispatch_cast dispatch_call sync_local_cast end_detached end_call process_mailbox
    continue_batch end_handler pause_mailbox resume_mailbox inject_messages drain remove schedule
    settle
run-spawned-Woken_example = run-spawned-Woken (some 2) drop_newest casts refl

-- A call on the fast path, a cast while it is under way, and a call that waits behind it.
abbrev mixed : List (Action ℕ)
mixed =
    send_call (calling 1)
    ∷ send_cast (casting 2)
    ∷ send_call (calling 3)
    ∷ call_ends 0
    ∷ immediate_runs
    ∷ batch_tests 0
    ∷ []

run-spawned-Saw_example :
    reversed (run mixed (spawned none error)).started ++ (run mixed (spawned none error)).mailbox
    ≡ calling 1 ∷ casting 2 ∷ calling 3 ∷ []
run-spawned-Saw_example = run-spawned-Saw error mixed tt

run-overlap_example :
    let s = spawned none error in
    let t =
      run (send_call (calling 1) ∷ send_cast (casting 2) ∷ immediate_runs ∷ batch_tests 0 ∷ []) s in
    let u = run (handler_ends 0 false ∷ batch_tests 0 ∷ send_call (calling 3) ∷ []) t in
    (under_way t ≡ under_way s + 2)
    × (t.started ≡ casting 2 ∷ calling 1 ∷ s.started)
    × (u.calls ≡ (s.calls ++ (calling 1 ∷ [])) ++ (calling 3 ∷ []))
    × (u.started ≡ calling 3 ∷ casting 2 ∷ calling 1 ∷ s.started)
run-overlap_example =
    run-overlap (calling 1) (casting 2) (calling 3) (spawned none error) refl refl refl refl refl
      refl refl

-- A cast past the mailbox whose handler answers a promise says that nothing was processed, and the
-- cast that the caller sends then is given to a second handler beside the first.
promise_twice :
    let s =
      run
        (cast_now (casting 1) true ∷ send_cast (casting 1) ∷ immediate_runs ∷ batch_tests 0 ∷ [])
        (spawned none error) in
    (under_way s ≡ 2) × (s.started ≡ casting 1 ∷ casting 1 ∷ [])
unfolding run step dispatch_cast sync_local_cast process_mailbox continue_batch schedule
promise_twice = (refl, refl)
