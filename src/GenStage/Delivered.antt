-- ===== src/GenStage/Delivered.antt =====
-- What the dispatchers of src/gen_stage.ts hand out, in all and to one consumer, and what one
-- consumer has asked for.
use libeam.Shared.{ℕ, Option, none, some, String, List, [], ◌∷◌, ◌++◌, str_eq, if◌then◌else◌}
use libeam.Shared.Dict.{lookup}
use libeam.GenStage.{ProducerSub, Subscribers, Delivery}

abbrev pub demand_of? : Option ProducerSub → ℕ
demand_of? none = 0
demand_of? (some sub) = sub.demand

abbrev pub demand_of : String → Subscribers → ℕ
demand_of tag s = demand_of? (lookup tag s)

module _ {ℓ} {A : Type ℓ} where
  abbrev pub delivered : List (Delivery A) → List A
  delivered [] = []
  delivered (d ∷ ds) = d.events ++ delivered ds

  abbrev pub delivered_to : String → List (Delivery A) → List A
  delivered_to tag [] = []
  delivered_to tag (d ∷ ds) =
      if str_eq d.tag tag then d.events ++ delivered_to tag ds else delivered_to tag ds
