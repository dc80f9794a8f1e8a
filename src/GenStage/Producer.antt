-- ===== src/GenStage/Producer.antt =====
-- src/gen_stage.ts: the class ProducerStageActor, over any dispatcher. An exception that a
-- dispatcher throws ends the handler and is `none`; the actor then
-- crashes, and what it has sent until then is not written down. The user's callback
-- `handleDemand` is a parameter.
pub mod Dispatchers
pub mod Buffer
use libeam.Shared.{
  ℕ, zero, suc, ◌+◌, ◌-◌, ◌≤◌, String, Bool, true, false, List, [], ◌∷◌, ◌++◌, Option, none, some,
  ◌>>=◌, ltb, ◌==◌, if◌then◌else◌, length, take, drop,
}
use libeam.GenStage.{ProducerSub, Delivery, DispatchResult}

-- The interface `Dispatcher`.
pub record Dispatcher {ℓ κ} (A : Type ℓ) (D : Type κ) : Type (ℓ ⊔ κ) where
  pub subscribe : String → ProducerSub → Option ℕ → D → Option D
  pub cancel : String → D → D
  pub ask : String → ℕ → D → D × ℕ
  pub dispatch : List A → D → D × Option (DispatchResult A)
  pub has_subscribers : D → Bool

-- What the producer relies on: a dispatch ends without an exception and leaves no more events over
-- than it was given.
abbrev pub LeavesLess {ℓ} : {A : Type ℓ} → List A → Option (DispatchResult A) → Type 0
LeavesLess events none = ⊥
LeavesLess events (some r) = length r.remaining ≤ length events

pub data BufferKeep : Type 0 where
  first : BufferKeep
  last : BufferKeep

pub data DemandMode : Type 0 where
  accumulate : DemandMode
  forward : DemandMode

pub record Producer {ℓ κ} (A S : Type ℓ) (D : Type κ) : Type (ℓ ⊔ κ) where
  pub dispatcher : D
  pub buffer : List A
  pub buffer_size : ℕ
  pub buffer_keep : BufferKeep
  pub demand_mode : DemandMode
  pub accumulated_demand : ℕ
  pub user_state : S

module _ {ℓ} {A : Type ℓ} where
  abbrev pub keep_last : ℕ → List A → List A
  keep_last most all = if ltb most (length all) then drop (length all - most) all else all

  abbrev pub keep_first : ℕ → List A → List A → List A
  keep_first space buffer events = if ltb 0 space then buffer ++ take space events else buffer

  abbrev pub kept : BufferKeep → ℕ → List A → List A → List A
  kept last most buffer events = keep_last most (buffer ++ events)
  kept first most buffer events = keep_first (most - length buffer) buffer events

module _ {ℓ κ} {A S : Type ℓ} {D : Type κ} where
  unfoldable pub add_to_buffer : List A → Producer A S D → Producer A S D
  add_to_buffer events s = record s { buffer = kept s.buffer_keep s.buffer_size s.buffer events }

  module _ (ops : Dispatcher A D) (handle_demand : ℕ → S → List A × S) where
    unfoldable pub handle_subscribe :
        String → ProducerSub → Option ℕ → Producer A S D → Option (Producer A S D)
    handle_subscribe tag sub partition s = do
      dispatcher ← ops.subscribe tag (record sub { demand = 0 }) partition s.dispatcher
      some (record s { dispatcher = dispatcher })

    unfoldable pub handle_cancel : String → Producer A S D → Producer A S D
    handle_cancel tag s = record s { dispatcher = ops.cancel tag s.dispatcher }

    abbrev buffer_rest : List A → Producer A S D → Producer A S D
    unfolding add_to_buffer
    buffer_rest [] s = s
    buffer_rest (event ∷ events) s = add_to_buffer (event ∷ events) s

    unfoldable pub dispatch_or_buffer :
        List A → Producer A S D → Option (Producer A S D × List (Delivery A))
    unfolding add_to_buffer buffer_rest
    dispatch_or_buffer events s =
        let (dispatcher, result) = ops.dispatch events s.dispatcher in
        if ops.has_subscribers s.dispatcher
        then (do
          r ← result
          some (buffer_rest r.remaining (record s { dispatcher = dispatcher }), r.dispatched))
        else some (add_to_buffer events s, [])

    -- What the callback gives is dispatched, if there is any.
    abbrev dispatch_new : List A → Producer A S D → Option (Producer A S D × List (Delivery A))
    unfolding dispatch_or_buffer
    dispatch_new [] s = some (s, [])
    dispatch_new (event ∷ events) s = dispatch_or_buffer (event ∷ events) s

    unfoldable pub produce : ℕ → Producer A S D → Option (Producer A S D × List (Delivery A))
    unfolding dispatch_new
    produce demand s =
        let (events, user_state) = handle_demand demand s.user_state in
        dispatch_new events (record s { user_state = user_state })

    -- Demand that the dispatcher passes upstream.
    unfoldable pub forward_demand :
        DemandMode → ℕ → Producer A S D → Option (Producer A S D × List (Delivery A))
    unfolding produce
    forward_demand mode zero s = some (s, [])
    forward_demand accumulate (suc n) s =
        some (record s { accumulated_demand = s.accumulated_demand + suc n }, [])
    forward_demand forward (suc n) s = produce (suc n) s

    -- The buffer is offered to the dispatcher first.
    unfoldable pub handle_ask :
        String → ℕ → Producer A S D → Option (Producer A S D × List (Delivery A))
    unfolding forward_demand
    handle_ask tag demand s =
        let (asked, upstream) = ops.ask tag demand s.dispatcher in
        let (dispatcher, result) = ops.dispatch s.buffer asked in
        if demand == 0 then some (s, []) else (do
          r ← result
          (s', out) ←
              forward_demand s.demand_mode upstream
                (record s { dispatcher = dispatcher; buffer = r.remaining })
          some (s', r.dispatched ++ out))

    -- `switchDemandMode`, whose only mode is "forward".
    unfoldable pub switch_demand_mode : Producer A S D → Option (Producer A S D × List (Delivery A))
    unfolding forward_demand
    switch_demand_mode s =
        forward_demand forward s.accumulated_demand
          (record s { demand_mode = forward; accumulated_demand = 0 })
