-- ===== src/Examples/Stages.antt =====
-- Runs of the stages of src/gen_stage.ts.
use libeam.Shared.{ℕ, ◌+◌, ◌%◌, min, ◌≡◌, refl, List, [], ◌∷◌, ◌++◌, none, some, arith, length}
use libeam.Shared.Dict.{lookup}
use libeam.GenStage.{ProducerSub, Subscribers}
use libeam.GenStage.Delivered.{delivered, delivered_to}
use libeam.GenStage.Demand.{total_demand}
use libeam.GenStage.Demand.Accounts.{dispatch_accounts}
use libeam.GenStage.Broadcast.{Broadcast}
use libeam.GenStage.Broadcast.Credit.{dispatches, step, credit, step-credit}
use libeam.GenStage.Partition.{HashResult, partition, Partition}
use libeam.GenStage.Producer.{Producer, last, forward, handle_ask, switch_demand_mode}
use libeam.GenStage.Producer.Dispatchers.{demand_dispatcher, demand_dispatcher-LeavesLess}
use libeam.GenStage.Producer.Buffer.{handle_ask-IsBounded, Ends}
use libeam.GenStage.Consumer.{ConsumerSub, Consumer, temporary}
use libeam.GenStage.Demand

abbrev asking : ℕ → ProducerSub
asking n = record { consumer_ref = "c"; demand = n; max_demand = 10; min_demand = 7 }

abbrev three : Subscribers
three = ("a", asking 2) ∷ ("b", asking 3) ∷ ("c", asking 1) ∷ []

abbrev events : List ℕ
events = 1 ∷ 2 ∷ 3 ∷ 4 ∷ []

dispatch_accounts_example :
    (delivered (Demand.dispatch events three).1.dispatched
        ++ (Demand.dispatch events three).1.remaining
      ≡ events)
    × (length (delivered (Demand.dispatch events three).1.dispatched) ≡ min 6 4)
    × (total_demand (Demand.dispatch events three).0 ≡ 2)
unfolding total_demand lookup
dispatch_accounts_example = dispatch_accounts events three (refl, (refl, (refl, tt)))

abbrev shared : Broadcast
shared = record { subscribers = ("a", asking 1) ∷ ("b", asking 0) ∷ []; waiting = 3; requested = 3 }

step-credit_example :
    credit "a" (step (dispatches events) shared).0
      + length (delivered_to "a" (step (dispatches events) shared).1)
    ≡ 4
unfolding lookup
step-credit_example = step-credit "a" (dispatches events) shared (refl, (refl, tt)) refl refl

abbrev held : Partition ℕ
held = record { taken_by = some ("a", asking 2); buffer = []; bucket = [] }

abbrev free : Partition ℕ
free = record { taken_by = none; buffer = 9 ∷ []; bucket = [] }

abbrev parity : ℕ → HashResult
parity n = partition (n % 2)

abbrev producer : Producer ℕ ℕ Subscribers
producer = record {
  dispatcher = three;
  buffer = 7 ∷ 8 ∷ [];
  buffer_size = 3;
  buffer_keep = last;
  demand_mode = forward;
  accumulated_demand = 0;
  user_state = 0;
}

abbrev counting : ℕ → ℕ → List ℕ × ℕ
counting demand next = (next ∷ (next + 1) ∷ [], next + 2)

handle_ask-IsBounded_example :
    Ends (handle_ask demand_dispatcher counting "a" 5 producer)
    × Ends (switch_demand_mode demand_dispatcher counting producer)
handle_ask-IsBounded_example =
    handle_ask-IsBounded demand_dispatcher counting demand_dispatcher-LeavesLess "a" 5 producer
      (omega arith)

abbrev source : ConsumerSub
source = record {
  producer_ref = "p";
  pending_demand = 9;
  max_demand = 10;
  min_demand = 7;
  cancel = temporary;
}

abbrev consumer : Consumer ℕ
consumer = record { subscriptions = ("s", source) ∷ []; user_state = 0 }
