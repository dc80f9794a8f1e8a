-- ===== src/GenStage/Broadcast.antt =====
-- src/gen_stage.ts: the class BroadcastDispatcher. `waiting` is the demand that all subscribers
-- share, already taken off each, and `requested` what the producer has been asked for of it.
pub mod Credit
pub mod Bounds
use libeam.Shared.{
  ℕ, ◌+◌, ◌-◌, min, String, Bool, true, false, ◌||◌, List, [], ◌∷◌, Option, none, some, ltb, leb,
  ◌==◌, if◌then◌else◌, length, take, drop,
}
use libeam.Shared.Dict.{lookup, insert, delete, size}
use libeam.GenStage.{ProducerSub, Subscribers, Delivery, DispatchResult}

pub record Broadcast : Type 0 where
  pub subscribers : Subscribers
  pub waiting : ℕ
  pub requested : ℕ

unfoldable pub init : Broadcast
init = record { subscribers = []; waiting = 0; requested = 0 }

-- `existingSub.demand += n`, and `sub.demand -= n`, for every subscriber.
unfoldable pub raise_all : ℕ → Subscribers → Subscribers
raise_all n [] = []
raise_all n ((tag, sub) ∷ s) = (tag, record sub { demand = sub.demand + n }) ∷ raise_all n s

unfoldable pub lower_all : ℕ → Subscribers → Subscribers
lower_all n [] = []
lower_all n ((tag, sub) ∷ s) = (tag, record sub { demand = sub.demand - n }) ∷ lower_all n s

unfoldable pub lowest_from : ℕ → Subscribers → ℕ
lowest_from least [] = least
lowest_from least ((tag, sub) ∷ s) = lowest_from (min least sub.demand) s

-- The minimum, which starts at `Infinity`: there is a first subscriber where it is asked for.
unfoldable pub lowest : Subscribers → ℕ
lowest [] = 0
lowest ((tag, sub) ∷ s) = lowest_from sub.demand s

unfoldable pub sync_demands : Broadcast → Broadcast × ℕ
sync_demands b =
    let least = lowest b.subscribers in
    let waiting = b.waiting + least in
    let request = waiting - b.requested in
    if leb least 0 then (b, 0) else (
      record {
        subscribers = lower_all least b.subscribers;
        waiting = waiting;
        requested = b.requested + request;
      },
      request,
    )

unfoldable pub subscribe : String → ProducerSub → Broadcast → Broadcast
subscribe tag sub b =
    let existing = if ltb 0 b.waiting then raise_all b.waiting b.subscribers else b.subscribers in
    record b { subscribers = insert tag sub existing; waiting = 0 }

unfoldable pub cancel : String → Broadcast → Broadcast
cancel tag b =
    let left = delete tag b.subscribers in
    if size left == 0
    then record { subscribers = left; waiting = 0; requested = 0 }
    else (sync_demands (record b { subscribers = left })).0

unfoldable pub ask : String → ℕ → Broadcast → Broadcast × ℕ
ask tag demand b = elim (lookup tag b.subscribers) [
  | none ↦ (b, 0)
  | some sub ↦ sync_demands (record b {
    subscribers = insert tag (record sub { demand = sub.demand + demand }) b.subscribers;
  })
]

module _ {ℓ} {A : Type ℓ} where
  -- The same events for every subscriber.
  unfoldable pub to_all : List A → Subscribers → List (Delivery A)
  to_all events [] = []
  to_all events ((tag, sub) ∷ s) =
      record { consumer_ref = sub.consumer_ref; tag = tag; events = events } ∷ to_all events s

  unfoldable pub dispatch : List A → Broadcast → Broadcast × DispatchResult A
  dispatch events b =
      let count = min (length events) b.waiting in
      if b.waiting == 0 || size b.subscribers == 0
      then (b, record { dispatched = []; remaining = events })
      else (
        record b { waiting = b.waiting - count; requested = b.requested - count },
        record {
          dispatched = to_all (take count events) b.subscribers;
          remaining = drop count events;
        },
      )
