-- ===== src/GenStage/Demand/Shares.antt =====
-- No subscriber of the DemandDispatcher of src/gen_stage.ts gets more than it asked for.
use libeam.Shared.{
  ℕ, zero, suc, ◌+◌, ◌≤◌, min, ◌≡◌, subst, inl, inr, String, str_eq, eq_iff, List, [], ◌∷◌, none,
  some, arith, ltb, if◌then◌else◌, length, take, drop, length-append, length-take, Bool-cases,
}
use libeam.Shared.Dict.{lookup, insert, Unique, Unique-insert, lookup-insert}
use libeam.GenStage.{ProducerSub, Subscribers, DispatchResult}
use libeam.GenStage.Delivered.{delivered_to, demand_of}
use libeam.GenStage.Demand.{served, dispatch_loop, dispatch_single, dispatch, with_batch}
use libeam.GenStage.Demand.Accounts.{nobody, found, best_from_lem, insert_only, lookup_only}

demand_of-served :
    (own tag : String) (sub : ProducerSub) (count : ℕ) (s : Subscribers)
    → lookup tag s ≡ some sub
    → count ≤ sub.demand
    → demand_of own (insert tag (served sub count) s) + (if str_eq tag own then count else 0)
      ≡ demand_of own s
demand_of-served own tag sub count s k l =
    ground (arith, lookup-insert tag own (served sub count) s, eq_iff tag own, k, l)

share_batch {ℓ} :
    {A : Type ℓ} (own tag : String) (sub : ProducerSub) (count : ℕ) (events : List A)
    (s : Subscribers) (later : Subscribers × DispatchResult A)
    → lookup tag s ≡ some sub
    → count ≤ sub.demand
    → count ≤ length events
    → length (delivered_to own later.1.dispatched) + demand_of own later.0
      ≡ demand_of own (insert tag (served sub count) s)
    → length (delivered_to own (with_batch tag sub (take count events) later).1.dispatched)
        + demand_of own (with_batch tag sub (take count events) later).0
      ≡ demand_of own s
share_batch own tag sub count events s later k l l' h = elim (Bool-cases (str_eq tag own)) [
  | inl same ↦ rw (same) (
      omega (
        arith,
        length-append (take count events) (delivered_to own later.1.dispatched),
        length-take count events,
        h,
        subst
            (λ b.
              demand_of own (insert tag (served sub count) s) + (if b then count else 0)
              ≡ demand_of own s)
            same (demand_of-served own tag sub count s k l),
      ))
  | inr other ↦ rw (other) (
      omega (
        arith,
        h,
        subst
            (λ b.
              demand_of own (insert tag (served sub count) s) + (if b then count else 0)
              ≡ demand_of own s)
            other (demand_of-served own tag sub count s k l),
      ))
]

share_loop {ℓ} :
    {A : Type ℓ} (own : String) (fuel : ℕ) (events : List A) (s : Subscribers)
    → Unique s
    → length (delivered_to own (dispatch_loop fuel events s).1.dispatched)
        + demand_of own (dispatch_loop fuel events s).0
      ≡ demand_of own s
unfolding dispatch_loop
share_loop own zero events s u = omega arith
share_loop own (suc fuel) [] s u = omega arith
share_loop own (suc fuel) (event ∷ more) s u = elim (best_from_lem none 0 s u) [
  | nobody e l ↦ rw (dispatch_loop, e) (omega arith)
  | found tag sub e k l ↦
      rw (dispatch_loop, e)
        (share_batch own tag sub (min sub.demand (suc (length more))) (event ∷ more) s
          (dispatch_loop fuel (drop (min sub.demand (suc (length more))) (event ∷ more))
            (insert tag (served sub (min sub.demand (suc (length more)))) s))
          k (omega arith) (omega arith)
          (share_loop own fuel (drop (min sub.demand (suc (length more))) (event ∷ more)) _
            (Unique-insert _ _ _ u)))
]

share_single {ℓ} :
    {A : Type ℓ} (own : String) (events : List A) (tag : String) (sub : ProducerSub)
    → length (delivered_to own (dispatch_single events tag sub).1.dispatched)
        + demand_of own (dispatch_single events tag sub).0
      ≡ demand_of own ((tag, sub) ∷ [])
unfolding dispatch_single
share_single own events tag sub = elim (Bool-cases (ltb 0 sub.demand)) [
  | inl some_demand ↦
      rw (dispatch_single, some_demand)
        (share_batch own tag sub (min sub.demand (length events)) events ((tag, sub) ∷ [])
          (
            (tag, served sub (min sub.demand (length events))) ∷ [],
            record { dispatched = []; remaining = drop (min sub.demand (length events)) events },
          )
          (lookup_only tag sub) (omega arith) (omega arith)
          (rw (insert_only tag sub (served sub (min sub.demand (length events)))) (omega arith)))
  | inr no_demand ↦ rw (dispatch_single, no_demand) (omega arith)
]

-- Where the subscribers have different tags, what one of them gets in a dispatch is taken off its own demand, event by event, so that it
-- never gets more than it has asked for and not yet got.
pub dispatch_shares {ℓ} :
    {A : Type ℓ} (own : String) (events : List A) (s : Subscribers)
    → Unique s
    → length (delivered_to own (dispatch events s).1.dispatched)
        + demand_of own (dispatch events s).0
      ≡ demand_of own s
unfolding dispatch
dispatch_shares own events [] u = share_loop own (length events) events [] u
dispatch_shares own events ((tag, sub) ∷ []) u = share_single own events tag sub
dispatch_shares own events (a ∷ b ∷ s) u = share_loop own (length events) events (a ∷ b ∷ s) u
