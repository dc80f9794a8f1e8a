-- ===== src/GenStage/Demand.antt =====
-- src/gen_stage.ts: the class DemandDispatcher. Its state is the map of subscribers.
pub mod Accounts
pub mod Shares
use libeam.Shared.{
  ℕ, zero, suc, ◌+◌, ◌-◌, min, String, Bool, List, [], ◌∷◌, Option, none, some, ltb, ◌==◌,
  if◌then◌else◌, length, take, drop,
}
use libeam.Shared.Dict.{lookup, insert, delete, size, has}
use libeam.GenStage.{ProducerSub, Subscribers, Delivery, DispatchResult}

pub subscribe : String → ProducerSub → Subscribers → Subscribers
subscribe tag sub s = insert tag sub s

pub cancel : String → Subscribers → Subscribers
cancel tag s = delete tag s

unfoldable pub total_demand : Subscribers → ℕ
total_demand [] = 0
total_demand ((tag, sub) ∷ s) = sub.demand + total_demand s

pub ask : String → ℕ → Subscribers → Subscribers × ℕ
ask tag demand s = elim (lookup tag s) [
  | none ↦ (s, total_demand s)
  | some sub ↦
      let s' = insert tag (record sub { demand = sub.demand + demand }) s in (s', total_demand s')
]

-- The subscriber of the highest demand above a bound, the first of them.
unfoldable pub best_from :
    Option (String × ProducerSub) → ℕ → Subscribers → Option (String × ProducerSub)
best_from best best_demand [] = best
best_from best best_demand ((tag, sub) ∷ s) =
    if ltb best_demand sub.demand
    then best_from (some (tag, sub)) sub.demand s
    else best_from best best_demand s

abbrev pub served : ProducerSub → ℕ → ProducerSub
served sub count = record sub { demand = sub.demand - count }

module _ {ℓ} {A : Type ℓ} where
  -- One batch for a subscriber, in front of what is dispatched after it.
  abbrev pub with_batch :
      String
      → ProducerSub
      → List A
      → Subscribers × DispatchResult A
      → Subscribers × DispatchResult A
  with_batch tag sub batch (s, r) = (
    s,
    record r {
      dispatched =
          record { consumer_ref = sub.consumer_ref; tag = tag; events = batch } ∷ r.dispatched;
    },
  )

  -- The loop over the events that are left. A round hands out one event at least, so that the
  -- number of events is enough fuel.
  unfoldable pub dispatch_loop : ℕ → List A → Subscribers → Subscribers × DispatchResult A
  dispatch_loop zero events s = (s, record { dispatched = []; remaining = events })
  dispatch_loop (suc fuel) [] s = (s, record { dispatched = []; remaining = [] })
  dispatch_loop (suc fuel) (event ∷ more) s = elim (best_from none 0 s) [
    | none ↦ (s, record { dispatched = []; remaining = event ∷ more })
    | some (tag, sub) ↦
        let count = min sub.demand (suc (length more)) in
        with_batch tag sub (take count (event ∷ more))
          (dispatch_loop fuel (drop count (event ∷ more)) (insert tag (served sub count) s))
  ]

  -- The fast path for one subscriber.
  unfoldable pub dispatch_single : List A → String → ProducerSub → Subscribers × DispatchResult A
  dispatch_single events tag sub =
      let count = min sub.demand (length events) in
      if ltb 0 sub.demand
      then with_batch tag sub (take count events)
          ((tag, served sub count) ∷ [], record { dispatched = []; remaining = drop count events })
      else ((tag, sub) ∷ [], record { dispatched = []; remaining = events })

  unfoldable pub dispatch : List A → Subscribers → Subscribers × DispatchResult A
  unfolding dispatch_loop dispatch_single
  dispatch events ((tag, sub) ∷ []) = dispatch_single events tag sub
  dispatch events s = dispatch_loop (length events) events s

pub has_subscribers : Subscribers → Bool
has_subscribers s = ltb 0 (size s)
