-- ===== src/GenStage/Consumer/Flow.antt =====
-- The demand that a consumer of src/gen_stage.ts has in flight.
use libeam.Shared.{
  ℕ, ◌+◌, ◌-◌, ◌≤◌, ◌<◌, ◌≡◌, refl, ◌⊎◌, inl, inr, String, List, [], ◌∷◌, some, arith, leb, length,
  Bool-cases,
}
use libeam.Shared.Dict.{lookup, lookup-insert_self}
use libeam.GenStage.Consumer.{
  ConsumerSub, Consumer, StageCast, asks, cancels, ask_producer, receive, handle_events,
}

-- The demand that messages carry to the producers.
unfoldable pub asked : List StageCast → ℕ
asked [] = 0
asked (asks producer_ref tag demand ∷ out) = demand + asked out
asked (cancels producer_ref tag reason ∷ out) = asked out

-- A subscription as it stands after events have come: what it waits for is what it waited for, less
-- the events, and what it has asked for now; it never waits for more than `max_demand`, and it waits
-- for more than `min_demand` or for the whole of `max_demand`.
pub record Flows {ℓ} {S : Type ℓ} (tag : String) (sub : ConsumerSub) (count : ℕ)
    (r : Consumer S × List StageCast) : Type ℓ where
  pub after : ConsumerSub
  pub found : lookup tag r.0.subscriptions ≡ some after
  pub same_max : after.max_demand ≡ sub.max_demand
  pub counted : after.pending_demand ≡ (sub.pending_demand - count) + asked r.1
  pub at_most : after.pending_demand ≤ sub.max_demand
  pub kept_up : (sub.min_demand < after.pending_demand) ⊎ (after.pending_demand ≡ sub.max_demand)

module _ {ℓ κ} {S : Type ℓ} {A : Type κ} (handle : List A → String → S → S) where
  receive_lem :
      (tag : String) (sub : ConsumerSub) (events : List A) (s : Consumer S)
      → sub.pending_demand ≤ sub.max_demand
      → Flows tag sub (length events) (receive handle tag sub events s)
  unfolding receive ask_producer asked
  receive_lem tag sub events s h =
      elim (Bool-cases (leb (sub.pending_demand - length events) sub.min_demand)) [
        | inl low ↦
            rw (receive, low)
              (record {
                after = record sub {
                  pending_demand =
                      (sub.pending_demand - length events)
                      + (sub.max_demand - (sub.pending_demand - length events));
                };
                found = lookup-insert_self tag _ _;
                same_max = refl;
                counted = omega arith;
                at_most = omega arith;
                kept_up = inr (omega arith);
              })
        | inr high ↦
            rw (receive, high)
              (record {
                after = record sub { pending_demand = sub.pending_demand - length events };
                found = lookup-insert_self tag _ _;
                same_max = refl;
                counted = omega arith;
                at_most = omega arith;
                kept_up = inl (ground arith);
              })
      ]

  -- Events for a subscription that is known, and in which no more than `max_demand` is in flight, leave it so:
  -- what is in flight is counted right, stays within `max_demand`, and is filled up to it when it
  -- has come down to `min_demand`.
  pub handle_events-Flows :
      (tag : String) (sub : ConsumerSub) (events : List A) (s : Consumer S)
      → lookup tag s.subscriptions ≡ some sub
      → sub.pending_demand ≤ sub.max_demand
      → Flows tag sub (length events) (handle_events handle tag events s)
  unfolding handle_events
  handle_events-Flows tag sub events s e h = rw (handle_events, e) (receive_lem tag sub events s h)
