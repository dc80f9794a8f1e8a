-- ===== src/MessageLoop/Wakeups.antt =====
-- The message loop of src/actor_system.ts does not fall asleep over a message.
use libeam.Shared.{
  ℕ, zero, suc, ◌+◌, ◌-◌, ◌<◌, Bool, true, false, not, ◌&&◌, ◌||◌, List, [], ◌∷◌, ◌++◌, Option,
  none, some, ◌≡◌, refl, arith, length, get_elem?, ltb, ◌==◌, if◌then◌else◌, length-append,
}
use libeam.Mailbox.{StashedMessage, OverflowStrategy, Answer, accepted, refused, mailbox_full}
use libeam.Mailbox.Queue.{offer}
use libeam.MessageLoop.{
  batch_size, Batch, at_test, awaiting, Loop, is_empty, set_at, remove_at, schedule, put_cast,
  dispatch_cast, put_call, sync_local_call, sync_local_cast, end_detached, promise_ends,
  dispatch_call, runnable, settle, end_call, start_batch, process_mailbox, take_up, end_batch,
  test_batch, continue_batch, crashes, finish_handler, end_handler, Action, send_cast, send_call,
  cast_now, call_ends, immediate_runs, batch_tests, handler_ends, pauses, resumes, injects, drains,
  is_removed, step, run, spawned,
}

pub length-set_at {ℓ} :
    {A : Type ℓ} (k : ℕ) (y : A) (xs : List A) → length (set_at k y xs) ≡ length xs
length-set_at k y [] = refl
length-set_at zero y (x ∷ xs) = refl
length-set_at (suc k) y (x ∷ xs) = omega (arith, length-set_at k y xs)

pub get_elem?-nonempty {ℓ} :
    {A : Type ℓ} (xs : List A) (k : ℕ) (x : A) → get_elem? xs k ≡ some x → 0 < length xs
get_elem?-nonempty [] k x e = absurd (cc)
get_elem?-nonempty (y ∷ xs) k x e = omega arith

module _ {A : Type 0} where
  -- What can still lead to a run of the mailbox.
  abbrev pub sources : Loop A → ℕ
  sources s = s.immediates + length s.batches + length s.calls

  -- Something is under way where the flag says so, and where there is a message to take up.
  abbrev pub Woken : Loop A → Type 0
  Woken s = ((s.scheduled ≡ true) → 0 < sources s) × ((runnable s ≡ true) → 0 < sources s)

  positive-Woken : (s : Loop A) → 0 < sources s → Woken s
  positive-Woken s h = (λ e. h, λ e. h)

  schedule-Woken : (s : Loop A) → ((s.scheduled ≡ true) → 0 < sources s) → Woken (schedule s)
  unfolding schedule
  schedule-Woken s h = (λ e. ground (arith, e, h), λ e. ground (arith, e, h))

  settle-Woken : (s : Loop A) → Woken (settle s)
  unfolding settle
  settle-Woken s = (λ e. ground (arith, e), λ e. ground (arith, e))

  dispatch_cast-Woken :
      (msg : StashedMessage A) (s : Loop A) → Woken s → Woken (dispatch_cast msg s)
  unfolding dispatch_cast
  dispatch_cast-Woken msg s w = go s.alive (offer s.limit s.strategy msg s.mailbox)
    where
      put : (x : List (StashedMessage A) × Answer × List (StashedMessage A)) → Woken (put_cast x s)
      put (xs, accepted, r) = schedule-Woken (record s { mailbox = xs }) w.0
      put (xs, refused, r) = schedule-Woken (record s { mailbox = xs }) w.0
      put (xs, mailbox_full, r) = w

      go :
          (b : Bool) (x : List (StashedMessage A) × Answer × List (StashedMessage A))
          → Woken (if b then put_cast x s else s)
      go true x = put x
      go false x = w

  dispatch_call-Woken :
      (msg : StashedMessage A) (s : Loop A) → Woken s → Woken (dispatch_call msg s)
  unfolding dispatch_call
  dispatch_call-Woken msg s w =
      go s.alive (not s.processing && not s.paused && is_empty s.mailbox)
        (offer s.limit s.strategy msg s.mailbox)
    where
      put : (x : List (StashedMessage A) × Answer × List (StashedMessage A)) → Woken (put_call x s)
      put (xs, accepted, r) = schedule-Woken (record s { mailbox = xs }) w.0
      put (xs, refused, r) = w
      put (xs, mailbox_full, r) = w

      go :
          (b fast : Bool) (x : List (StashedMessage A) × Answer × List (StashedMessage A))
          → Woken (if b then (if fast then sync_local_call msg s else put_call x s) else s)
      go true true x =
          positive-Woken (sync_local_call msg s) (omega (arith, length-append s.calls (msg ∷ [])))
      go true false x = put x
      go false fast x = w

  end_call-Woken : (k : ℕ) (s : Loop A) → Woken s → Woken (end_call k s)
  unfolding end_call
  end_call-Woken k s w = go (ltb k (length s.calls))
    where
      go : (b : Bool) → Woken (if b then settle (record s { calls = remove_at k s.calls }) else s)
      go true = settle-Woken (record s { calls = remove_at k s.calls })
      go false = w

  process_mailbox-Woken : (s : Loop A) → Woken s → Woken (process_mailbox s)
  unfolding process_mailbox
  process_mailbox-Woken s w = go (s.immediates == 0)
    where
      t : Loop A
      t = record s { immediates = s.immediates - 1 }

      started_batch : (b : Bool) → runnable t ≡ b → Woken (start_batch t)
      started_batch true e = rw (e) (
          positive-Woken (record t { processing = true; batches = t.batches ++ (at_test 0 ∷ []) })
            (omega (arith, length-append t.batches (at_test 0 ∷ []))))
      started_batch false e = rw (e) ((λ f. absurd (cc), λ f. absurd (cc)))

      go : (b : Bool) → Woken (if b then s else start_batch t)
      go true = w
      go false = started_batch (runnable t) refl

  continue_batch-Woken : (k : ℕ) (s : Loop A) → Woken s → Woken (continue_batch k s)
  unfolding continue_batch
  continue_batch-Woken k s w = go (get_elem? s.batches k) refl
    where
      taken :
          (n : ℕ) (xs : List (StashedMessage A)) → 0 < length s.batches → Woken (take_up k n xs s)
      taken n [] l = w
      taken n (msg ∷ rest) l =
          positive-Woken (take_up k n (msg ∷ rest) s)
            (omega (arith, length-set_at k (awaiting n msg) s.batches))

      tested :
          (n : ℕ) (b : Bool)
          → 0 < length s.batches
          → Woken (if b then take_up k n s.mailbox s else end_batch k s)
      tested n true l = taken n s.mailbox l
      tested n false l = settle-Woken (record s { batches = remove_at k s.batches })

      go : (o : Option (Batch A)) → get_elem? s.batches k ≡ o → Woken (test_batch k o s)
      go none e = w
      go (some (awaiting n msg)) e = w
      go (some (at_test n)) e =
          tested n (ltb n batch_size && runnable s) (get_elem?-nonempty s.batches k (at_test n) e)

  end_handler-Woken : (k : ℕ) (threw : Bool) (s : Loop A) → Woken s → Woken (end_handler k threw s)
  unfolding end_handler
  end_handler-Woken k threw s w = go (get_elem? s.batches k) refl
    where
      ready : ℕ → Batch A
      ready n = at_test (n + 1)

      ended :
          (n : ℕ) (b : Bool)
          → 0 < length s.batches
          → Woken (
              if b
              then end_batch k s
              else record s { batches = set_at k (at_test (n + 1)) s.batches })
      ended n true l = settle-Woken (record s { batches = remove_at k s.batches })
      ended n false l =
          positive-Woken (record s { batches = set_at k (at_test (n + 1)) s.batches })
            (omega (arith, length-set_at k (ready n) s.batches))

      go : (o : Option (Batch A)) → get_elem? s.batches k ≡ o → Woken (finish_handler k threw o s)
      go none e = w
      go (some (at_test n)) e = w
      go (some (awaiting n msg)) e =
          ended n (crashes msg threw) (get_elem?-nonempty s.batches k (awaiting n msg) e)

  sync_local_cast-Woken :
      (promise : Bool) (msg : StashedMessage A) (s : Loop A)
      → Woken s
      → Woken (sync_local_cast promise msg s).0
  unfolding sync_local_cast
  sync_local_cast-Woken promise msg s w = go promise (not s.alive || s.paused || s.processing)
    where
      answer : Bool → Bool → Loop A × Bool
      answer p b =
          if b
          then (s, false)
          else (if p
              then (
                record s { detached = s.detached ++ (msg ∷ []); started = msg ∷ s.started },
                false,
              )
              else (record s { started = msg ∷ s.started }, true))

      go : (p b : Bool) → Woken (answer p b).0
      go p true = w
      go true false = w
      go false false = w

  step-Woken : (a : Action A) (s : Loop A) → Woken s → Woken (step a s)
  unfolding step end_detached
  step-Woken (send_cast msg) s w = dispatch_cast-Woken msg s w
  step-Woken (send_call msg) s w = dispatch_call-Woken msg s w
  step-Woken (cast_now msg promise) s w = sync_local_cast-Woken promise msg s w
  step-Woken (promise_ends k) s w = w
  step-Woken (call_ends k) s w = end_call-Woken k s w
  step-Woken immediate_runs s w = process_mailbox-Woken s w
  step-Woken (batch_tests k) s w = continue_batch-Woken k s w
  step-Woken (handler_ends k threw) s w = end_handler-Woken k threw s w
  step-Woken pauses s w = go s.alive
    where
      go : (b : Bool) → Woken (if b then record s { paused = true } else s)
      go true = (w.0, λ e. absurd (ground (arith, e)))
      go false = w
  step-Woken resumes s w = go (s.alive && s.paused)
    where
      go : (b : Bool) → Woken (if b then schedule (record s { paused = false }) else s)
      go true = schedule-Woken (record s { paused = false }) w.0
      go false = w
  step-Woken (injects messages) s w = go s.alive
    where
      go :
          (b : Bool)
          → Woken (if b then schedule (record s { mailbox = messages ++ s.mailbox }) else s)
      go true = schedule-Woken (record s { mailbox = messages ++ s.mailbox }) w.0
      go false = w
  step-Woken drains s w = (w.0, λ e. absurd (ground (arith, e)))
  step-Woken is_removed s w = (λ e. absurd (cc), λ e. absurd (cc))

  run-Woken : (actions : List (Action A)) (s : Loop A) → Woken s → Woken (run actions s)
  unfolding run
  run-Woken [] s w = w
  run-Woken (a ∷ actions) s w = run-Woken actions (step a s) (step-Woken a s w)

  -- No message is left lying: whatever has happened to an actor since it was spawned, where it is
  -- alive and not paused and a message is in its mailbox, a callback that takes up messages is
  -- pending, or a batch or a call of the fast path is under way, each of which looks at the mailbox
  -- again when it ends.
  pub run-spawned-Woken :
      (limit : Option ℕ) (strategy : OverflowStrategy) (actions : List (Action A))
      → runnable (run actions (spawned limit strategy)) ≡ true
      → 0 < sources (run actions (spawned limit strategy))
  run-spawned-Woken limit strategy actions h =
      (run-Woken actions (spawned limit strategy) (λ e. omega arith, λ e. omega arith)).1 h
