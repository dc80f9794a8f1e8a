-- ===== src/MessageLoop.antt =====
-- src/actor_system.ts: how the messages of one actor are taken up, with `dispatchCast`,
-- `dispatchCall`, `processMailbox` and the flags that keep them apart. Between the points where
-- the code awaits, other callbacks run: each action of `step` is one stretch of code, and the
-- actions come in any order. A handler that does not await starts and ends with nothing between.
-- The mailbox is the queue that BoundedMailbox implements.
pub mod Wakeups
pub mod Order
pub mod Exclusion
pub mod Overlap
use libeam.Shared.{
  ℕ, zero, suc, ◌+◌, ◌-◌, Bool, true, false, not, ◌&&◌, ◌||◌, List, [], ◌∷◌, ◌++◌, Option, none,
  some, length, get_elem?, ltb, ◌==◌, if◌then◌else◌,
}
use libeam.Mailbox.{
  MessageType, cast, call, StashedMessage, OverflowStrategy, Answer, accepted, refused,
  mailbox_full,
}
use libeam.Mailbox.Queue.{offer}

abbrev pub batch_size : ℕ
batch_size = 64

-- A run of `processMailbox`: at the test of its loop, or awaiting a handler, with the number of
-- messages processed.
pub data Batch (A : Type 0) : Type 0 where
  at_test : ℕ → Batch A
  awaiting : ℕ → StashedMessage A → Batch A

-- `immediates` counts the callbacks of `setImmediate` that have not run, `calls` are the messages of
-- the fast path whose handlers have not ended, `detached` the messages of `_syncLocalCast` whose
-- handlers answered a promise that is not settled, and `started` the messages given to a handler, the
-- latest first.
pub record Loop (A : Type 0) : Type 0 where
  pub limit : Option ℕ
  pub strategy : OverflowStrategy
  pub mailbox : List (StashedMessage A)
  pub alive : Bool
  pub scheduled : Bool
  pub paused : Bool
  pub processing : Bool
  pub immediates : ℕ
  pub batches : List (Batch A)
  pub calls : List (StashedMessage A)
  pub detached : List (StashedMessage A)
  pub started : List (StashedMessage A)

abbrev pub is_empty {ℓ} : {A : Type ℓ} → List A → Bool
is_empty [] = true
is_empty (x ∷ xs) = false

abbrev pub set_at {ℓ} : {A : Type ℓ} → ℕ → A → List A → List A
set_at k y [] = []
set_at zero y (x ∷ xs) = y ∷ xs
set_at (suc k) y (x ∷ xs) = x ∷ set_at k y xs

abbrev pub remove_at {ℓ} : {A : Type ℓ} → ℕ → List A → List A
remove_at k [] = []
remove_at zero (x ∷ xs) = xs
remove_at (suc k) (x ∷ xs) = x ∷ remove_at k xs

-- Whether an error of the handler is a crash: for a cast, or a call that nobody waits for.
abbrev pub unanswered : MessageType → Bool → Bool
unanswered cast has_reject = true
unanswered call has_reject = not has_reject

module _ {A : Type 0} where
  unfoldable pub schedule : Loop A → Loop A
  schedule s =
      if s.scheduled || s.paused || not s.alive
      then s
      else record s { scheduled = true; immediates = s.immediates + 1 }

  -- A message that the queue took, or refused without an exception.
  abbrev pub put_cast : List (StashedMessage A) × Answer × List (StashedMessage A) → Loop A → Loop A
  put_cast (xs, mailbox_full, rejected) s = s
  put_cast (xs, accepted, rejected) s = schedule (record s { mailbox = xs })
  put_cast (xs, refused, rejected) s = schedule (record s { mailbox = xs })

  unfoldable pub dispatch_cast : StashedMessage A → Loop A → Loop A
  unfolding schedule
  dispatch_cast msg s = if s.alive then put_cast (offer s.limit s.strategy msg s.mailbox) s else s

  abbrev pub put_call : List (StashedMessage A) × Answer × List (StashedMessage A) → Loop A → Loop A
  put_call (xs, mailbox_full, rejected) s = s
  put_call (xs, accepted, rejected) s = schedule (record s { mailbox = xs })
  put_call (xs, refused, rejected) s = s

  -- The start of `_syncLocalCall`, which sets both flags.
  abbrev pub sync_local_call : StashedMessage A → Loop A → Loop A
  sync_local_call msg s = record s {
    processing = true;
    scheduled = true;
    calls = s.calls ++ (msg ∷ []);
    started = msg ∷ s.started;
  }

  -- The fast path where the actor is idle, and else the queue.
  unfoldable pub dispatch_call : StashedMessage A → Loop A → Loop A
  unfolding schedule
  dispatch_call msg s =
      if s.alive
      then (if not s.processing && not s.paused && is_empty s.mailbox
          then sync_local_call msg s
          else put_call (offer s.limit s.strategy msg s.mailbox) s)
      else s

  abbrev pub runnable : Loop A → Bool
  runnable s = s.alive && not s.paused && not (is_empty s.mailbox)

  -- What a batch and a call of the fast path end with.
  unfoldable pub settle : Loop A → Loop A
  settle s =
      if runnable s
      then record s { processing = false; immediates = s.immediates + 1 }
      else record s { processing = false; scheduled = false }

  -- The end of `_syncLocalCall`, of the `k`th that has not ended.
  unfoldable pub end_call : ℕ → Loop A → Loop A
  unfolding settle
  end_call k s =
      if ltb k (length s.calls) then settle (record s { calls = remove_at k s.calls }) else s

  -- `_syncLocalCast`, and whether it says that the message was processed. A handler that answers a
  -- promise has started, and goes on when the flag is cleared again; one that does not await, or
  -- throws, has ended then.
  unfoldable pub sync_local_cast : Bool → StashedMessage A → Loop A → Loop A × Bool
  sync_local_cast promise msg s =
      if not s.alive || s.paused || s.processing
      then (s, false)
      else (if promise
          then (record s { detached = s.detached ++ (msg ∷ []); started = msg ∷ s.started }, false)
          else (record s { started = msg ∷ s.started }, true))

  -- The `k`th promise is settled, which nobody waits for.
  unfoldable pub end_detached : ℕ → Loop A → Loop A
  end_detached k s = record s { detached = remove_at k s.detached }

  abbrev pub start_batch : Loop A → Loop A
  start_batch s =
      if runnable s
      then record s { processing = true; batches = s.batches ++ (at_test 0 ∷ []) }
      else record s { scheduled = false }

  -- A callback of `setImmediate` runs: the start of `processMailbox`.
  unfoldable pub process_mailbox : Loop A → Loop A
  process_mailbox s =
      if s.immediates == 0 then s else start_batch (record s { immediates = s.immediates - 1 })

  -- The first message goes to its handler.
  abbrev pub take_up : ℕ → ℕ → List (StashedMessage A) → Loop A → Loop A
  take_up k n [] s = s
  take_up k n (msg ∷ rest) s = record s {
    mailbox = rest;
    batches = set_at k (awaiting n msg) s.batches;
    started = msg ∷ s.started;
  }

  abbrev pub end_batch : ℕ → Loop A → Loop A
  end_batch k s = settle (record s { batches = remove_at k s.batches })

  abbrev pub test_batch : ℕ → Option (Batch A) → Loop A → Loop A
  test_batch k none s = s
  test_batch k (some (awaiting n msg)) s = s
  test_batch k (some (at_test n)) s =
      if ltb n batch_size && runnable s then take_up k n s.mailbox s else end_batch k s

  -- The test of the loop of the `k`th batch.
  unfoldable pub continue_batch : ℕ → Loop A → Loop A
  unfolding settle
  continue_batch k s = test_batch k (get_elem? s.batches k) s

  abbrev pub crashes : StashedMessage A → Bool → Bool
  crashes msg threw = threw && unanswered msg.type msg.has_reject

  abbrev pub finish_handler : ℕ → Bool → Option (Batch A) → Loop A → Loop A
  finish_handler k threw none s = s
  finish_handler k threw (some (at_test n)) s = s
  finish_handler k threw (some (awaiting n msg)) s =
      if crashes msg threw
      then end_batch k s
      else record s { batches = set_at k (at_test (n + 1)) s.batches }

  -- The handler that the `k`th batch awaits ends, or throws.
  unfoldable pub end_handler : ℕ → Bool → Loop A → Loop A
  unfolding settle
  end_handler k threw s = finish_handler k threw (get_elem? s.batches k) s

  unfoldable pub pause_mailbox : Loop A → Loop A
  pause_mailbox s = if s.alive then record s { paused = true } else s

  unfoldable pub resume_mailbox : Loop A → Loop A
  unfolding schedule
  resume_mailbox s = if s.alive && s.paused then schedule (record s { paused = false }) else s

  unfoldable pub inject_messages : List (StashedMessage A) → Loop A → Loop A
  unfolding schedule
  inject_messages messages s =
      if s.alive then schedule (record s { mailbox = messages ++ s.mailbox }) else s

  -- The end of `drainMailbox`, which has paused the mailbox before.
  unfoldable pub drain : Loop A → Loop A
  drain s = record s { mailbox = [] }

  -- What `stop` deletes of an actor.
  unfoldable pub remove : Loop A → Loop A
  remove s = record s { alive = false; mailbox = []; scheduled = false }

pub data Action (A : Type 0) : Type 0 where
  send_cast : StashedMessage A → Action A
  send_call : StashedMessage A → Action A
  cast_now : StashedMessage A → Bool → Action A
  promise_ends : ℕ → Action A
  call_ends : ℕ → Action A
  immediate_runs : Action A
  batch_tests : ℕ → Action A
  handler_ends : ℕ → Bool → Action A
  pauses : Action A
  resumes : Action A
  injects : List (StashedMessage A) → Action A
  drains : Action A
  is_removed : Action A

module _ {A : Type 0} where
  unfoldable pub step : Action A → Loop A → Loop A
  unfolding dispatch_cast dispatch_call sync_local_cast end_detached end_call process_mailbox
      continue_batch end_handler pause_mailbox resume_mailbox inject_messages drain remove
  step (send_cast msg) s = dispatch_cast msg s
  step (send_call msg) s = dispatch_call msg s
  step (cast_now msg promise) s = (sync_local_cast promise msg s).0
  step (promise_ends k) s = end_detached k s
  step (call_ends k) s = end_call k s
  step immediate_runs s = process_mailbox s
  step (batch_tests k) s = continue_batch k s
  step (handler_ends k threw) s = end_handler k threw s
  step pauses s = pause_mailbox s
  step resumes s = resume_mailbox s
  step (injects messages) s = inject_messages messages s
  step drains s = drain s
  step is_removed s = remove s

  unfoldable pub run : List (Action A) → Loop A → Loop A
  unfolding step
  run [] s = s
  run (a ∷ actions) s = run actions (step a s)

  -- An actor as `spawn` leaves it: its mailbox is empty, and a run of it is scheduled.
  abbrev pub spawned : Option ℕ → OverflowStrategy → Loop A
  spawned limit strategy = record {
    limit = limit;
    strategy = strategy;
    mailbox = [];
    alive = true;
    scheduled = true;
    paused = false;
    processing = false;
    immediates = 1;
    batches = [];
    calls = [];
    detached = [];
    started = [];
  }
