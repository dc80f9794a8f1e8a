-- ===== src/GenStage.antt =====
-- src/gen_stage.ts: what the dispatchers of a producer share. Events are of any type, and an actor
-- reference is the text of its identifier.
pub mod Demand
pub mod Delivered
pub mod Broadcast
pub mod Partition
pub mod Producer
pub mod Consumer
use libeam.Shared.{ℕ, String, Option, List, [], ◌∷◌, ◌++◌, str_eq, if◌then◌else◌}
use libeam.Shared.Dict.{Dict}

-- What a producer keeps of a consumer.
pub record ProducerSub : Type 0 where
  pub consumer_ref : String
  pub demand : ℕ
  pub max_demand : ℕ
  pub min_demand : ℕ

abbrev pub Subscribers : Type 0
Subscribers = Dict ProducerSub

-- Events for one consumer.
pub record Delivery {ℓ} (A : Type ℓ) : Type ℓ where
  pub consumer_ref : String
  pub tag : String
  pub events : List A

pub record DispatchResult {ℓ} (A : Type ℓ) : Type ℓ where
  pub dispatched : List (Delivery A)
  pub remaining : List A
