-- ===== src/MessageLoop/Overlap.antt =====
-- When two handlers of an actor in src/actor_system.ts are under way at once.
use libeam.Shared.{
  ℕ, ◌+◌, Bool, true, false, List, [], ◌∷◌, ◌++◌, none, ◌≡◌, refl, sym, subst, arith, ◌==◌,
  length-append,
}
use libeam.Mailbox.{StashedMessage, OverflowStrategy}
use libeam.MessageLoop.{
  Loop, schedule, dispatch_cast, dispatch_call, settle, process_mailbox, continue_batch,
  end_handler, send_cast, send_call, immediate_runs, batch_tests, handler_ends, step, run,
}
use libeam.MessageLoop.Exclusion.{under_way}

module _ {A : Type 0} where
  -- An idle actor with an empty mailbox without a limit.
  abbrev idle_loop :
      OverflowStrategy
      → Bool
      → ℕ
      → List (StashedMessage A)
      → List (StashedMessage A)
      → List (StashedMessage A)
      → Loop A
  idle_loop strategy scheduled immediates calls detached started = record {
    limit = none;
    strategy = strategy;
    mailbox = [];
    alive = true;
    scheduled = scheduled;
    paused = false;
    processing = false;
    immediates = immediates;
    batches = [];
    calls = calls;
    detached = detached;
    started = started;
  }

  idle-eq :
      (s : Loop A)
      → s.alive ≡ true
      → s.paused ≡ false
      → s.processing ≡ false
      → s.mailbox ≡ []
      → s.batches ≡ []
      → s.limit ≡ none
      → s ≡ idle_loop s.strategy s.scheduled s.immediates s.calls s.detached s.started
  idle-eq s up running idle empty none_left free = λ i. record {
    limit = free i;
    strategy = s.strategy;
    mailbox = empty i;
    alive = up i;
    scheduled = s.scheduled;
    paused = running i;
    processing = idle i;
    immediates = s.immediates;
    batches = none_left i;
    calls = s.calls;
    detached = s.detached;
    started = s.started;
  }

  Overlaps : StashedMessage A → StashedMessage A → StashedMessage A → Loop A → Type 0
  Overlaps called next again s =
      let t = run (send_call called ∷ send_cast next ∷ immediate_runs ∷ batch_tests 0 ∷ []) s in
      let u = run (handler_ends 0 false ∷ batch_tests 0 ∷ send_call again ∷ []) t in
      (under_way t ≡ under_way s + 2)
      × (t.started ≡ next ∷ called ∷ s.started)
      × (u.calls ≡ (s.calls ++ (called ∷ [])) ++ (again ∷ []))
      × (u.started ≡ again ∷ next ∷ called ∷ s.started)

  idle-Overlaps :
      (called next again : StashedMessage A) (strategy : OverflowStrategy) (scheduled : Bool)
      (immediates : ℕ) (calls detached started : List (StashedMessage A))
      → (immediates == 0) ≡ false
      → Overlaps called next again (idle_loop strategy scheduled immediates calls detached started)
  unfolding Overlaps run step dispatch_call dispatch_cast process_mailbox continue_batch end_handler
      schedule settle
  idle-Overlaps called next again strategy scheduled immediates calls detached started pending =
      rw (pending) (omega (arith, length-append calls (called ∷ [])), refl, refl, refl)

  -- A call on the fast path does not keep the batches away. In any state in which an actor with a
  -- mailbox without a limit is idle, its mailbox is empty and a callback is pending, as `spawn`
  -- leaves it: when it is called and another message is cast, the callback gives that message to
  -- its handler while the call's handler is under way; and when that handler has ended, the flag is
  -- cleared, so that a second call is started while the first is still under way.
  pub run-overlap :
      (called next again : StashedMessage A) (s : Loop A)
      → s.alive ≡ true
      → s.paused ≡ false
      → s.processing ≡ false
      → s.mailbox ≡ []
      → s.batches ≡ []
      → s.limit ≡ none
      → (s.immediates == 0) ≡ false
      → let t = run (send_call called ∷ send_cast next ∷ immediate_runs ∷ batch_tests 0 ∷ []) s in
        let u = run (handler_ends 0 false ∷ batch_tests 0 ∷ send_call again ∷ []) t in
        (under_way t ≡ under_way s + 2)
        × (t.started ≡ next ∷ called ∷ s.started)
        × (u.calls ≡ (s.calls ++ (called ∷ [])) ++ (again ∷ []))
        × (u.started ≡ again ∷ next ∷ called ∷ s.started)
  unfolding Overlaps
  run-overlap called next again s up running idle empty none_left free pending =
      subst (Overlaps called next again) (sym (idle-eq s up running idle empty none_left free)) (
        idle-Overlaps called next again s.strategy s.scheduled s.immediates s.calls s.detached
          s.started pending)
