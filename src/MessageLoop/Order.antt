-- ===== src/MessageLoop/Order.antt =====
-- The message loop of src/actor_system.ts keeps the order of messages, on the fast path too.
use libeam.Shared.{
  ℕ, ◌+◌, ◌-◌, Bool, true, false, not, ◌&&◌, ◌||◌, List, [], ◌∷◌, ◌++◌, Option, none, some, ◌≡◌,
  refl, sym, ap, ◌∙◌, arith, length, get_elem?, ltb, ◌==◌, if◌then◌else◌, append-nil, append_assoc,
}
use libeam.Mailbox.{StashedMessage, OverflowStrategy}
use libeam.Mailbox.Queue.{offer}
use libeam.MessageLoop.{
  batch_size, Batch, at_test, awaiting, Loop, is_empty, set_at, remove_at, schedule, put_cast,
  dispatch_cast, put_call, sync_local_call, dispatch_call, runnable, settle, end_call, start_batch,
  process_mailbox, take_up, end_batch, test_batch, continue_batch, crashes, finish_handler,
  end_handler, pause_mailbox, resume_mailbox, Action, send_cast, send_call, cast_now, end_detached,
  promise_ends, call_ends, immediate_runs, batch_tests, handler_ends, pauses, resumes, injects,
  drains, is_removed, step, run, spawned,
}

module _ {A : Type 0} where
  abbrev pub reversed : List (StashedMessage A) → List (StashedMessage A)
  reversed [] = []
  reversed (x ∷ xs) = reversed xs ++ (x ∷ [])

  -- The messages that an action sends, where it is one that may not overtake: messages are only
  -- sent, taken up and handled, and the mailbox is paused and resumed.
  abbrev pub Orderly : List (Action A) → Type 0
  Orderly [] = Unit
  Orderly (send_cast msg ∷ actions) = Orderly actions
  Orderly (send_call msg ∷ actions) = Orderly actions
  Orderly (cast_now msg promise ∷ actions) = ⊥
  Orderly (promise_ends k ∷ actions) = Orderly actions
  Orderly (call_ends k ∷ actions) = Orderly actions
  Orderly (immediate_runs ∷ actions) = Orderly actions
  Orderly (batch_tests k ∷ actions) = Orderly actions
  Orderly (handler_ends k threw ∷ actions) = Orderly actions
  Orderly (pauses ∷ actions) = Orderly actions
  Orderly (resumes ∷ actions) = Orderly actions
  Orderly (injects messages ∷ actions) = ⊥
  Orderly (drains ∷ actions) = ⊥
  Orderly (is_removed ∷ actions) = ⊥

  abbrev pub sent : List (Action A) → List (StashedMessage A)
  sent [] = []
  sent (send_cast msg ∷ actions) = msg ∷ sent actions
  sent (send_call msg ∷ actions) = msg ∷ sent actions
  sent (_ ∷ actions) = sent actions

  -- The messages given to handlers, in order, and those that wait.
  abbrev pub seen : Loop A → List (StashedMessage A)
  seen s = reversed s.started ++ s.mailbox

  -- An actor that is alive, with a mailbox that has no limit, and what it has seen.
  abbrev pub Saw : Loop A → List (StashedMessage A) → Type 0
  Saw s xs = (s.alive ≡ true) × (s.limit ≡ none) × (seen s ≡ xs)

  schedule-Saw : (s : Loop A) (xs : List (StashedMessage A)) → Saw s xs → Saw (schedule s) xs
  unfolding schedule
  schedule-Saw s xs h = go (s.scheduled || s.paused || not s.alive)
    where
      go :
          (b : Bool)
          → Saw (if b then s else record s { scheduled = true; immediates = s.immediates + 1 }) xs
      go true = h
      go false = h

  settle-Saw : (s : Loop A) (xs : List (StashedMessage A)) → Saw s xs → Saw (settle s) xs
  unfolding settle
  settle-Saw s xs h = go (runnable s)
    where
      go :
          (b : Bool)
          → Saw
              (if b
                then record s { processing = false; immediates = s.immediates + 1 }
                else record s { processing = false; scheduled = false })
              xs
      go true = h
      go false = h

  queued-Saw :
      (msg : StashedMessage A) (s : Loop A) (xs : List (StashedMessage A))
      → Saw s xs
      → Saw (record s { mailbox = s.mailbox ++ (msg ∷ []) }) (xs ++ (msg ∷ []))
  queued-Saw msg s xs (a, l, e) = (
    a,
    l,
    sym (append_assoc (reversed s.started) s.mailbox (msg ∷ []))
        ∙ ap (λ (ys : List (StashedMessage A)). ys ++ (msg ∷ [])) e,
  )

  dispatch_cast-Saw :
      (msg : StashedMessage A) (s : Loop A) (xs : List (StashedMessage A))
      → Saw s xs
      → Saw (dispatch_cast msg s) (xs ++ (msg ∷ []))
  unfolding dispatch_cast
  dispatch_cast-Saw msg s xs h = go s.alive s.limit h.0 h.1
    where
      go :
          (b : Bool) (l : Option ℕ)
          → b ≡ true
          → l ≡ none
          → Saw (if b then put_cast (offer l s.strategy msg s.mailbox) s else s) (xs ++ (msg ∷ []))
      go false l a e = absurd (cc)
      go true (some n) a e = absurd (cc)
      go true none a e =
          schedule-Saw (record s { mailbox = s.mailbox ++ (msg ∷ []) }) (xs ++ (msg ∷ []))
            (queued-Saw msg s xs h)

  -- On the fast path nothing waits, so that the message is the next in order.
  sync_local_call-Saw :
      (msg : StashedMessage A) (s : Loop A) (xs : List (StashedMessage A))
      → s.mailbox ≡ []
      → Saw s xs
      → Saw (sync_local_call msg s) (xs ++ (msg ∷ []))
  sync_local_call-Saw msg s xs empty (a, l, e) = (
    a,
    l,
    ap (λ (ys : List (StashedMessage A)). (reversed s.started ++ (msg ∷ [])) ++ ys) empty
        ∙ append-nil (reversed s.started ++ (msg ∷ []))
        ∙ ap (λ (ys : List (StashedMessage A)). ys ++ (msg ∷ []))
            (sym (append-nil (reversed s.started))
              ∙ ap (λ (ys : List (StashedMessage A)). reversed s.started ++ ys) (sym empty)
              ∙ e),
  )

  is_empty-nil : (xs : List (StashedMessage A)) → is_empty xs ≡ true → xs ≡ []
  is_empty-nil [] e = refl
  is_empty-nil (x ∷ xs) e = absurd (cc)

  dispatch_call-Saw :
      (msg : StashedMessage A) (s : Loop A) (xs : List (StashedMessage A))
      → Saw s xs
      → Saw (dispatch_call msg s) (xs ++ (msg ∷ []))
  unfolding dispatch_call
  dispatch_call-Saw msg s xs h =
      go s.alive (not s.processing && not s.paused && is_empty s.mailbox) s.limit h.0 refl h.1
    where
      go :
          (b fast : Bool) (l : Option ℕ)
          → b ≡ true
          → (not s.processing && not s.paused && is_empty s.mailbox) ≡ fast
          → l ≡ none
          → Saw
              (if b
                then (if fast
                    then sync_local_call msg s
                    else put_call (offer l s.strategy msg s.mailbox) s)
                else s)
              (xs ++ (msg ∷ []))
      go false fast l a f e = absurd (cc)
      go true true l a f e =
          sync_local_call-Saw msg s xs (is_empty-nil s.mailbox (ground (arith, f))) h
      go true false (some n) a f e = absurd (cc)
      go true false none a f e =
          schedule-Saw (record s { mailbox = s.mailbox ++ (msg ∷ []) }) (xs ++ (msg ∷ []))
            (queued-Saw msg s xs h)

  take_up-Saw :
      (k n : ℕ) (s : Loop A) (xs : List (StashedMessage A))
      → Saw s xs
      → Saw (take_up k n s.mailbox s) xs
  take_up-Saw k n s xs (a, l, e) = go s.mailbox refl
    where
      go : (ys : List (StashedMessage A)) → s.mailbox ≡ ys → Saw (take_up k n ys s) xs
      go [] q = (a, l, e)
      go (msg ∷ rest) q = (
        a,
        l,
        append_assoc (reversed s.started) (msg ∷ []) rest
            ∙ ap (λ (zs : List (StashedMessage A)). reversed s.started ++ zs) (sym q)
            ∙ e,
      )

  continue_batch-Saw :
      (k : ℕ) (s : Loop A) (xs : List (StashedMessage A)) → Saw s xs → Saw (continue_batch k s) xs
  unfolding continue_batch
  continue_batch-Saw k s xs h = go (get_elem? s.batches k)
    where
      tested : (n : ℕ) (b : Bool) → Saw (if b then take_up k n s.mailbox s else end_batch k s) xs
      tested n true = take_up-Saw k n s xs h
      tested n false = settle-Saw (record s { batches = remove_at k s.batches }) xs h

      go : (o : Option (Batch A)) → Saw (test_batch k o s) xs
      go none = h
      go (some (awaiting n msg)) = h
      go (some (at_test n)) = tested n (ltb n batch_size && runnable s)

  end_handler-Saw :
      (k : ℕ) (threw : Bool) (s : Loop A) (xs : List (StashedMessage A))
      → Saw s xs
      → Saw (end_handler k threw s) xs
  unfolding end_handler
  end_handler-Saw k threw s xs h = go (get_elem? s.batches k)
    where
      ended :
          (n : ℕ) (b : Bool)
          → Saw
              (if b
                then end_batch k s
                else record s { batches = set_at k (at_test (n + 1)) s.batches })
              xs
      ended n true = settle-Saw (record s { batches = remove_at k s.batches }) xs h
      ended n false = h

      go : (o : Option (Batch A)) → Saw (finish_handler k threw o s) xs
      go none = h
      go (some (at_test n)) = h
      go (some (awaiting n msg)) = ended n (crashes msg threw)

  end_call-Saw :
      (k : ℕ) (s : Loop A) (xs : List (StashedMessage A)) → Saw s xs → Saw (end_call k s) xs
  unfolding end_call
  end_call-Saw k s xs h = go (ltb k (length s.calls))
    where
      go : (b : Bool) → Saw (if b then settle (record s { calls = remove_at k s.calls }) else s) xs
      go true = settle-Saw (record s { calls = remove_at k s.calls }) xs h
      go false = h

  process_mailbox-Saw :
      (s : Loop A) (xs : List (StashedMessage A)) → Saw s xs → Saw (process_mailbox s) xs
  unfolding process_mailbox
  process_mailbox-Saw s xs h = go (s.immediates == 0)
    where
      t : Loop A
      t = record s { immediates = s.immediates - 1 }

      begun :
          (b : Bool)
          → Saw
              (if b
                then record t { processing = true; batches = t.batches ++ (at_test 0 ∷ []) }
                else record t { scheduled = false })
              xs
      begun true = h
      begun false = h

      go : (b : Bool) → Saw (if b then s else start_batch t) xs
      go true = h
      go false = begun (runnable t)

  pause_mailbox-Saw :
      (s : Loop A) (xs : List (StashedMessage A)) → Saw s xs → Saw (pause_mailbox s) xs
  unfolding pause_mailbox
  pause_mailbox-Saw s xs h = go s.alive
    where
      go : (b : Bool) → Saw (if b then record s { paused = true } else s) xs
      go true = h
      go false = h

  resume_mailbox-Saw :
      (s : Loop A) (xs : List (StashedMessage A)) → Saw s xs → Saw (resume_mailbox s) xs
  unfolding resume_mailbox
  resume_mailbox-Saw s xs h = go (s.alive && s.paused)
    where
      go : (b : Bool) → Saw (if b then schedule (record s { paused = false }) else s) xs
      go true = schedule-Saw (record s { paused = false }) xs h
      go false = h

  run-Saw :
      (actions : List (Action A)) (s : Loop A) (xs : List (StashedMessage A))
      → Orderly actions
      → Saw s xs
      → Saw (run actions s) (xs ++ sent actions)
  unfolding run step
  run-Saw [] s xs o h = rw (append-nil xs) h
  run-Saw (send_cast msg ∷ actions) s xs o h =
      rw⁻¹ (append_assoc xs (msg ∷ []) (sent actions))
        (run-Saw actions (dispatch_cast msg s) (xs ++ (msg ∷ [])) o (dispatch_cast-Saw msg s xs h))
  run-Saw (send_call msg ∷ actions) s xs o h =
      rw⁻¹ (append_assoc xs (msg ∷ []) (sent actions))
        (run-Saw actions (dispatch_call msg s) (xs ++ (msg ∷ [])) o (dispatch_call-Saw msg s xs h))
  run-Saw (cast_now msg promise ∷ actions) s xs o h = absurd o
  run-Saw (promise_ends k ∷ actions) s xs o h = run-Saw actions (end_detached k s) xs o h
  run-Saw (call_ends k ∷ actions) s xs o h =
      run-Saw actions (end_call k s) xs o (end_call-Saw k s xs h)
  run-Saw (immediate_runs ∷ actions) s xs o h =
      run-Saw actions (process_mailbox s) xs o (process_mailbox-Saw s xs h)
  run-Saw (batch_tests k ∷ actions) s xs o h =
      run-Saw actions (continue_batch k s) xs o (continue_batch-Saw k s xs h)
  run-Saw (handler_ends k threw ∷ actions) s xs o h =
      run-Saw actions (end_handler k threw s) xs o (end_handler-Saw k threw s xs h)
  run-Saw (pauses ∷ actions) s xs o h =
      run-Saw actions (pause_mailbox s) xs o (pause_mailbox-Saw s xs h)
  run-Saw (resumes ∷ actions) s xs o h =
      run-Saw actions (resume_mailbox s) xs o (resume_mailbox-Saw s xs h)
  run-Saw (injects messages ∷ actions) s xs o h = absurd o
  run-Saw (drains ∷ actions) s xs o h = absurd o
  run-Saw (is_removed ∷ actions) s xs o h = absurd o

  -- Messages are given to handlers in the order in which they were sent, calls of the fast path
  -- included, and none is lost or doubled: those that were started, in order, and then those in the
  -- mailbox are all that were sent since the actor was spawned. The mailbox has no limit, the actor
  -- was not removed, and no message was injected, drained, or cast past the mailbox.
  pub run-spawned-Saw :
      (strategy : OverflowStrategy) (actions : List (Action A))
      → Orderly actions
      → reversed (run actions (spawned none strategy)).started
          ++ (run actions (spawned none strategy)).mailbox
        ≡ sent actions
  run-spawned-Saw strategy actions o =
      (run-Saw actions (spawned none strategy) [] o (refl, refl, refl)).2
