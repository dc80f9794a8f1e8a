-- ===== src/GenStage/Producer/Dispatchers.antt =====
-- src/gen_stage.ts: the three dispatchers as implementations of the interface `Dispatcher`, and what
-- the bound on the producer's buffer needs of them.
use libeam.Shared.{
  ℕ, zero, suc, ◌≤◌, min, ◌≡◌, refl, inl, inr, String, ◌||◌, List, [], ◌∷◌, Option, none, some,
  arith, ltb, ◌==◌, length, drop, length-drop, Bool-cases,
}
use libeam.Shared.Dict.{size, insert}
use libeam.GenStage.{ProducerSub, Subscribers}
use libeam.GenStage.Demand
use libeam.GenStage.Broadcast.{Broadcast}
use libeam.GenStage.Broadcast
use libeam.GenStage.Producer.{Dispatcher, LeavesLess}

abbrev pub demand_dispatcher {ℓ} : {A : Type ℓ} → Dispatcher A Subscribers
demand_dispatcher = record {
  subscribe = λ tag sub partition d. some (Demand.subscribe tag sub d);
  cancel = Demand.cancel;
  ask = Demand.ask;
  dispatch = λ events d. ((Demand.dispatch events d).0, some (Demand.dispatch events d).1);
  has_subscribers = Demand.has_subscribers;
}

abbrev pub broadcast_dispatcher {ℓ} : {A : Type ℓ} → Dispatcher A Broadcast
broadcast_dispatcher = record {
  subscribe = λ tag sub partition d. some (Broadcast.subscribe tag sub d);
  cancel = Broadcast.cancel;
  ask = Broadcast.ask;
  dispatch = λ events d. ((Broadcast.dispatch events d).0, some (Broadcast.dispatch events d).1);
  has_subscribers = λ d. ltb 0 (size d.subscribers);
}

dispatch_loop-le {ℓ} :
    {A : Type ℓ} (fuel : ℕ) (events : List A) (s : Subscribers)
    → length (Demand.dispatch_loop fuel events s).1.remaining ≤ length events
unfolding Demand.dispatch_loop
dispatch_loop-le zero events s = omega arith
dispatch_loop-le (suc fuel) [] s = omega arith
dispatch_loop-le (suc fuel) (event ∷ more) s =
    go (λ count own. dispatch_loop-le fuel (drop count (event ∷ more)) own)
      (Demand.best_from none 0 s) refl
  where
    go :
        ((count : ℕ) (own : Subscribers)
          → length (Demand.dispatch_loop fuel (drop count (event ∷ more)) own).1.remaining
            ≤ length (drop count (event ∷ more)))
        → (best : Option (String × ProducerSub)) → Demand.best_from none 0 s ≡ best
        → length (Demand.dispatch_loop (suc fuel) (event ∷ more) s).1.remaining ≤ suc (length more)
    go ih none e = rw (Demand.dispatch_loop, e) (omega arith)
    go ih (some (tag, sub)) e =
        rw (Demand.dispatch_loop, e)
          (omega (
            arith,
            ih (min sub.demand (suc (length more)))
                (insert tag (Demand.served sub (min sub.demand (suc (length more)))) s),
            length-drop (min sub.demand (suc (length more))) (event ∷ more),
          ))

dispatch_single-le {ℓ} :
    {A : Type ℓ} (events : List A) (tag : String) (sub : ProducerSub)
    → length (Demand.dispatch_single events tag sub).1.remaining ≤ length events
unfolding Demand.dispatch_single
dispatch_single-le events tag sub = elim (Bool-cases (ltb 0 sub.demand)) [
  | inl some_demand ↦
      rw (Demand.dispatch_single, some_demand)
        (omega (arith, length-drop (min sub.demand (length events)) events))
  | inr none_left ↦ rw (Demand.dispatch_single, none_left) (omega arith)
]

demand-leaves_less {ℓ} :
    {A : Type ℓ} (events : List A) (s : Subscribers)
    → length (Demand.dispatch events s).1.remaining ≤ length events
unfolding Demand.dispatch
demand-leaves_less events [] = dispatch_loop-le (length events) events []
demand-leaves_less events ((tag, sub) ∷ []) = dispatch_single-le events tag sub
demand-leaves_less events (a ∷ b ∷ s) = dispatch_loop-le (length events) events (a ∷ b ∷ s)

broadcast-leaves_less {ℓ} :
    {A : Type ℓ} (events : List A) (b : Broadcast)
    → length (Broadcast.dispatch events b).1.remaining ≤ length events
unfolding Broadcast.dispatch
broadcast-leaves_less events b = elim (Bool-cases (b.waiting == 0 || size b.subscribers == 0)) [
  | inl nothing ↦ rw (Broadcast.dispatch, nothing) (omega arith)
  | inr owed ↦
      rw (Broadcast.dispatch, owed)
        (omega (arith, length-drop (min (length events) b.waiting) events))
]

-- The law that the producer's buffer needs holds of the two dispatchers without buffers of their own.
pub demand_dispatcher-LeavesLess {ℓ} :
    {A : Type ℓ} (events : List A) (d : Subscribers)
    → LeavesLess events (demand_dispatcher.dispatch events d).1
demand_dispatcher-LeavesLess events d = demand-leaves_less events d

pub broadcast_dispatcher-LeavesLess {ℓ} :
    {A : Type ℓ} (events : List A) (d : Broadcast)
    → LeavesLess events (broadcast_dispatcher.dispatch events d).1
broadcast_dispatcher-LeavesLess events d = broadcast-leaves_less events d
