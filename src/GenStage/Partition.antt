-- ===== src/GenStage/Partition.antt =====
-- src/gen_stage.ts: the class PartitionDispatcher. A partition has a place for a subscriber and a
-- buffer of its own, so the three arrays of the source are one list. An exception in the middle of
-- `dispatch` leaves what has been done; the events that were to come are lost with the batches.
pub mod Order
use libeam.Shared.{
  ℕ, zero, suc, ◌+◌, ◌-◌, ◌*◌, ◌%◌, ◌^◌, min, String, Bool, true, false, ◌&&◌, ◌||◌, List, [], ◌∷◌,
  ◌++◌, Option, none, some, ltb, leb, ◌==◌, if◌then◌else◌, length, get_elem?, take, drop, replicate,
}
use libeam.Shared.Text.{units}
use libeam.Shared.Dict.{Dict, lookup, insert, delete}
use libeam.GenStage.{ProducerSub, Delivery, DispatchResult}

-- What a hash function gives: `null`, a partition, or a number that is none, below zero or broken.
pub data HashResult : Type 0 where
  discard : HashResult
  partition : ℕ → HashResult
  invalid : HashResult

pub record Partition {ℓ} (A : Type ℓ) : Type ℓ where
  pub taken_by : Option (String × ProducerSub)
  pub buffer : List A
  -- The events that this dispatch hands out.
  pub bucket : List A

pub record Partitions {ℓ} (A : Type ℓ) : Type ℓ where
  pub partitions : List (Partition A)
  pub tag_to_partition : Dict ℕ

abbrev pub demand_at : Option (String × ProducerSub) → ℕ
demand_at none = 0
demand_at (some (tag, sub)) = sub.demand

abbrev pub add_to : ℕ → Option (String × ProducerSub) → Option (String × ProducerSub)
add_to n none = none
add_to n (some (tag, sub)) = some (tag, record sub { demand = sub.demand + n })

abbrev pub lowered : ℕ → Option (String × ProducerSub) → Option (String × ProducerSub)
lowered n none = none
lowered n (some (tag, sub)) = some (tag, record sub { demand = sub.demand - n })

module _ {ℓ} {A : Type ℓ} where
  pub init : ℕ → Partitions A
  init count = record {
    partitions = replicate count (record { taken_by = none; buffer = []; bucket = [] });
    tag_to_partition = [];
  }

  -- A write to an array, inside its bounds.
  unfoldable pub update_at :
      ℕ → (Partition A → Partition A) → List (Partition A) → List (Partition A)
  update_at i f [] = []
  update_at zero f (p ∷ ps) = f p ∷ ps
  update_at (suc i) f (p ∷ ps) = p ∷ update_at i f ps

  -- The demand of whoever holds the partition, or zero.
  abbrev pub open_demand : Partition A → ℕ
  open_demand p = demand_at p.taken_by

  abbrev taken : Option (Partition A) → Bool
  taken none = false
  taken (some p) = elim p.taken_by [ none ↦ false | some owner ↦ true ]

  -- An exception, for a partition that is missing, out of range or taken, is `none`.
  pub subscribe : String → ProducerSub → Option ℕ → Partitions A → Option (Partitions A)
  unfolding update_at
  subscribe tag sub none d = none
  subscribe tag sub (some p) d =
      if leb (length d.partitions) p || taken (get_elem? d.partitions p)
      then none
      else some (record {
        partitions =
            update_at p (λ place. record place { taken_by = some (tag, sub) }) d.partitions;
        tag_to_partition = insert tag p d.tag_to_partition;
      })

  pub cancel : String → Partitions A → Partitions A
  unfolding update_at
  cancel tag d = elim (lookup tag d.tag_to_partition) [
    | none ↦ d
    | some p ↦ record {
      partitions = update_at p (λ place. record place { taken_by = none }) d.partitions;
      tag_to_partition = delete tag d.tag_to_partition;
    }
  ]

  pub ask : String → ℕ → Partitions A → Partitions A × ℕ
  unfolding update_at
  ask tag demand d = elim (lookup tag d.tag_to_partition) [
    | none ↦ (d, 0)
    | some p ↦
        if taken (get_elem? d.partitions p)
        then (
          record d {
            partitions =
                update_at p (λ place. record place { taken_by = add_to demand place.taken_by })
                  d.partitions;
          },
          demand,
        )
        else (d, 0)
  ]

  -- One event for its partition: into the bucket where there is demand, else into the buffer.
  unfoldable pub place_event : A → Partition A → Partition A
  place_event event p =
      if leb (open_demand p) 0
      then record p { buffer = p.buffer ++ event ∷ [] }
      else record p { taken_by = lowered 1 p.taken_by; bucket = p.bucket ++ event ∷ [] }

  -- The loop over the events; it ends with `true` unless a hash was invalid.
  unfoldable pub place_all :
      (A → HashResult) → List A → List (Partition A) → List (Partition A) × Bool
  place_all hash [] ps = (ps, true)
  place_all hash (event ∷ events) ps = elim (hash event) [
    | discard ↦ place_all hash events ps
    | invalid ↦ (ps, false)
    | partition p ↦
        let rest = place_all hash events (update_at p (place_event event) ps) in
        if leb (length ps) p then (ps, false) else rest
  ]

  -- What is left of the demand goes to the buffer, behind the new events.
  unfoldable pub drain : Partition A → Partition A
  drain p =
      let count = min (open_demand p) (length p.buffer) in
      record {
        taken_by = lowered count p.taken_by;
        buffer = drop count p.buffer;
        bucket = p.bucket ++ take count p.buffer;
      }

  unfoldable pub drain_all : List (Partition A) → List (Partition A)
  drain_all [] = []
  drain_all (p ∷ ps) = drain p ∷ drain_all ps

  abbrev batch : Option (String × ProducerSub) → List A → List (Delivery A)
  batch owner [] = []
  batch none (event ∷ events) = []
  batch (some (tag, sub)) (event ∷ events) =
      record { consumer_ref = sub.consumer_ref; tag = tag; events = event ∷ events } ∷ []

  unfoldable pub batches : List (Partition A) → List (Delivery A)
  batches [] = []
  batches (p ∷ ps) = batch p.taken_by p.bucket ++ batches ps

  -- The buckets are new in each call.
  unfoldable pub emptied : List (Partition A) → List (Partition A)
  emptied [] = []
  emptied (p ∷ ps) = record p { bucket = [] } ∷ emptied ps

  -- `none` in place of a result is an exception.
  pub dispatch : (A → HashResult) → List A → Partitions A → Partitions A × Option (DispatchResult A)
  unfolding place_all drain_all batches emptied
  dispatch hash events d =
      let (placed, valid) = place_all hash events (emptied d.partitions) in
      let drained = drain_all placed in
      if valid
      then (
        record d { partitions = emptied drained },
        some (record { dispatched = batches drained; remaining = [] }),
      )
      else (record d { partitions = emptied placed }, none)

-- djb2. The value stays below 2 ^ 32 and stands for the signed 32-bit number of `| 0`.
unfoldable pub hash_units : ℕ → List ℕ → ℕ
hash_units hash [] = hash
hash_units hash (c ∷ cs) = hash_units ((hash * 32 + hash + c) % 2 ^ 32) cs

pub simple_hash : String → ℕ
unfolding hash_units
simple_hash str = hash_units 5381 (units str)

-- `Math.abs` of a signed 32-bit number.
abbrev pub magnitude : ℕ → ℕ
magnitude w = if ltb w (2 ^ 31) then w else 2 ^ 32 - w

-- What the default hash makes of an event: a whole number, below zero or not, a text, an object
-- whose key is one of these, or something else.
pub data HashKey : Type 0 where
  number : ℕ → HashKey
  negative : ℕ → HashKey
  text : String → HashKey
  other : HashKey

-- `event % partitions` has the sign of the event. `negative n` is the number `-n`.
pub default_hash : ℕ → HashKey → HashResult
unfolding simple_hash
default_hash partitions (number n) = partition (n % partitions)
default_hash partitions (negative n) = if n % partitions == 0 then partition 0 else invalid
default_hash partitions (text str) = partition (magnitude (simple_hash str) % partitions)
default_hash partitions other = partition 0
