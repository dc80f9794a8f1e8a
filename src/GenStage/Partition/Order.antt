-- ===== src/GenStage/Partition/Order.antt =====
-- In which order the PartitionDispatcher of src/gen_stage.ts hands out the events of a partition.
use libeam.Shared.{ℕ, ◌≡◌, ◌⊎◌, Bool, false, List, [], ◌∷◌, ◌==◌, if◌then◌else◌}
use libeam.GenStage.Partition.{
  HashResult, discard, partition, invalid, Partition, open_demand, place_event, drain,
}

abbrev is_for : ℕ → HashResult → Bool
is_for i discard = false
is_for i invalid = false
is_for i (partition p) = p == i

module _ {ℓ} {A : Type ℓ} where
  -- The events whose hash is this partition.
  unfoldable pub events_for : (A → HashResult) → ℕ → List A → List A
  events_for hash i [] = []
  events_for hash i (event ∷ events) =
      if is_for i (hash event) then event ∷ events_for hash i events else events_for hash i events

  -- Either nobody is owed an event or none waits.
  abbrev pub Settled : Partition A → Type ℓ
  Settled p = (p.buffer ≡ []) ⊎ (open_demand p ≡ 0)

  -- Events placed one after the other.
  place_each : List A → Partition A → Partition A
  place_each [] p = p
  place_each (event ∷ events) p = place_each events (place_event event p)

  -- What a partition is after the events have been placed and the buffers drained.
  unfoldable pub dispatched_in : (A → HashResult) → List A → ℕ → Partition A → Partition A
  unfolding place_each
  dispatched_in hash events i p = drain (place_each (events_for hash i events) p)
