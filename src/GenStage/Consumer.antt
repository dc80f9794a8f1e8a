-- ===== src/GenStage/Consumer.antt =====
-- src/gen_stage.ts: the class ConsumerStageActor. The user's callback `handleEvents` is a parameter,
-- and what goes out to the producers is part of the result. `minDemand` is meant to be at most
-- `maxDemand`, and the demand in flight is too, so that the amount asked for is a natural number.
pub mod Flow
use libeam.Shared.{
  ℕ, ◌+◌, ◌-◌, ◌*◌, ◌/◌, String, Bool, true, false, List, [], ◌∷◌, ◌++◌, Option, none, some, leb,
  if◌then◌else◌, length, or_else,
}
use libeam.Shared.Dict.{Dict, lookup, insert, delete}

pub data CancelPolicy : Type 0 where
  permanent : CancelPolicy
  transient : CancelPolicy
  temporary : CancelPolicy

pub record ConsumerSub : Type 0 where
  pub producer_ref : String
  pub pending_demand : ℕ
  pub max_demand : ℕ
  pub min_demand : ℕ
  pub cancel : CancelPolicy

pub record SubscriptionOptions : Type 0 where
  pub max_demand : Option ℕ
  pub min_demand : Option ℕ
  pub cancel : Option CancelPolicy

pub record Consumer {ℓ} (S : Type ℓ) : Type ℓ where
  pub subscriptions : Dict ConsumerSub
  pub user_state : S

-- A message to a producer.
pub data StageCast : Type 0 where
  asks : String → String → ℕ → StageCast
  cancels : String → String → String → StageCast

cancel_each : String → Dict ConsumerSub → List StageCast
cancel_each reason [] = []
cancel_each reason ((tag, sub) ∷ subs) =
    cancels sub.producer_ref tag reason ∷ cancel_each reason subs

module _ {ℓ} {S : Type ℓ} where
  -- `tag` is the name made up from the time and a random number.
  unfoldable pub subscribe_to_producer :
      String → String → SubscriptionOptions → Consumer S → Consumer S
  subscribe_to_producer tag producer_ref options s =
      let max_demand = or_else options.max_demand 1000 in
      record s {
        subscriptions =
            insert tag
              (record {
                producer_ref = producer_ref;
                pending_demand = 0;
                max_demand = max_demand;
                min_demand = or_else options.min_demand (max_demand * 3 / 4);
                cancel = or_else options.cancel temporary;
              })
              s.subscriptions;
      }

  unfoldable pub ask_producer : String → ConsumerSub → ℕ → Consumer S → Consumer S × List StageCast
  ask_producer tag sub demand s = (
    record s {
      subscriptions =
          insert tag (record sub { pending_demand = sub.pending_demand + demand }) s.subscriptions;
    },
    asks sub.producer_ref tag demand ∷ [],
  )

  -- Also what the deferred message of `scheduleInitialDemand` does.
  unfoldable pub send_initial_demand : String → Consumer S → Consumer S × List StageCast
  unfolding ask_producer
  send_initial_demand tag s = elim (lookup tag s.subscriptions) [
    | none ↦ (s, [])
    | some sub ↦ ask_producer tag sub sub.max_demand s
  ]

  unfoldable pub cancel_subscription : String → String → Consumer S → Consumer S × List StageCast
  cancel_subscription tag reason s = elim (lookup tag s.subscriptions) [
    | none ↦ (s, [])
    | some sub ↦ (
      record s { subscriptions = delete tag s.subscriptions },
      cancels sub.producer_ref tag reason ∷ [],
    )
  ]

  pub cancel_all : String → Consumer S → Consumer S × List StageCast
  unfolding cancel_each
  cancel_all reason s = (record s { subscriptions = [] }, cancel_each reason s.subscriptions)

  unfoldable pub handle_cancel_from_producer : String → Consumer S → Consumer S
  handle_cancel_from_producer tag s = record s { subscriptions = delete tag s.subscriptions }

  module _ {κ} {A : Type κ} (handle : List A → String → S → S) where
    -- The end of `handleEvents`, for a subscription that is known.
    unfoldable pub receive :
        String → ConsumerSub → List A → Consumer S → Consumer S × List StageCast
    unfolding ask_producer
    receive tag sub events s =
        let got = record sub { pending_demand = sub.pending_demand - length events } in
        let s' = record s {
          subscriptions = insert tag got s.subscriptions;
          user_state = handle events tag s.user_state;
        } in
        if leb got.pending_demand sub.min_demand
        then ask_producer tag got (sub.max_demand - got.pending_demand) s'
        else (s', [])

    unfoldable pub handle_events : String → List A → Consumer S → Consumer S × List StageCast
    unfolding receive
    handle_events tag events s = elim (lookup tag s.subscriptions) [
      | none ↦ (s, [])
      | some sub ↦ receive tag sub events s
    ]
