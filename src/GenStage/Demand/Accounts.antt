-- ===== src/GenStage/Demand/Accounts.antt =====
-- What the DemandDispatcher of src/gen_stage.ts hands out, against the demand of its subscribers.
use libeam.Shared.{
  ℕ, zero, suc, ◌+◌, ◌-◌, ◌≤◌, ◌<◌, min, ◌≡◌, refl, sym, ap, ◌∙◌, ◌⊎◌, inl, inr, String, eq_iff,
  eq_refl, List, [], ◌∷◌, ◌++◌, append_assoc, Option, none, some, arith, ltb, length, take, drop,
  take-append-drop, drop_all, length-append, length-take, length-drop, Bool-cases,
}
use libeam.Shared.Dict.{lookup, insert, Unique, Unique-insert}
use libeam.GenStage.{ProducerSub, Subscribers, DispatchResult}
use libeam.GenStage.Delivered.{delivered}
use libeam.GenStage.Demand.{
  total_demand, best_from, served, dispatch_loop, dispatch_single, dispatch, with_batch,
}

abbrev pub AtMost : ℕ → Subscribers → Type 0
AtMost bound [] = Unit
AtMost bound ((tag, sub) ∷ s) = (sub.demand ≤ bound) × AtMost bound s

AtMost-none : (s : Subscribers) → AtMost 0 s → total_demand s ≡ 0
unfolding total_demand
AtMost-none [] h = refl
AtMost-none ((tag, sub) ∷ s) (h, hs) = omega (arith, AtMost-none s hs)

-- The subscriber found has a demand above the bound; where none is found, nobody has.
pub data Best (best : Option (String × ProducerSub)) (bound : ℕ) (s : Subscribers) : Type 0 where
  nobody : best_from best bound s ≡ best → AtMost bound s → Best best bound s
  found :
      (tag : String) (sub : ProducerSub)
      → best_from best bound s ≡ some (tag, sub)
      → lookup tag s ≡ some sub
      → bound < sub.demand
      → Best best bound s

-- An entry further down keeps its place in the search.
further :
    (own tag : String) (first sub : ProducerSub) (s : Subscribers)
    → lookup own s ≡ none
    → lookup tag s ≡ some sub
    → lookup tag ((own, first) ∷ s) ≡ some sub
unfolding lookup
further own tag first sub s fresh h = ground (arith, eq_iff own tag, fresh, h)

pub best_from_lem :
    (best : Option (String × ProducerSub)) (bound : ℕ) (s : Subscribers)
    → Unique s
    → Best best bound s
unfolding best_from lookup
best_from_lem best bound [] u = nobody refl tt
best_from_lem best bound ((tag, sub) ∷ s) (fresh, u) = elim (Bool-cases (ltb bound sub.demand)) [
  | inl above ↦ elim (best_from_lem (some (tag, sub)) sub.demand s u) [
    | nobody e h ↦ found tag sub (rw (above) e) (rw (eq_refl tag) refl) (ground arith)
    | found t b e h l ↦ found t b (rw (above) e) (further tag t sub b s fresh h) (ground arith)
  ]
  | inr below ↦ elim (best_from_lem best bound s u) [
    | nobody e h ↦ nobody (rw (below) e) (ground arith, h)
    | found t b e h l ↦ found t b (rw (below) e) (further tag t sub b s fresh h) l
  ]
]

total_demand-served :
    (tag : String) (sub : ProducerSub) (count : ℕ) (s : Subscribers)
    → lookup tag s ≡ some sub
    → count ≤ sub.demand
    → total_demand (insert tag (served sub count) s) + count ≡ total_demand s
unfolding total_demand insert lookup
total_demand-served tag sub count [] h l = cc
total_demand-served tag sub count ((own, first) ∷ s) h l =
    ground (arith, total_demand-served tag sub count s, h, l)

-- The account of a dispatch: every event is handed out or left over, in order; what is handed out
-- is taken off the demand; and nothing is left over unless there is no demand.
record Account {ℓ} {A : Type ℓ} (events : List A) (s s' : Subscribers) (r : DispatchResult A)
    : Type ℓ where
  all_there : delivered r.dispatched ++ r.remaining ≡ events
  taken_off : length (delivered r.dispatched) + total_demand s' ≡ total_demand s
  no_rest : (r.remaining ≡ []) ⊎ (total_demand s' ≡ 0)

batch_order {ℓ} :
    {A : Type ℓ} (count : ℕ) (events : List A) (later : DispatchResult A)
    → delivered later.dispatched ++ later.remaining ≡ drop count events
    → (take count events ++ delivered later.dispatched) ++ later.remaining ≡ events
batch_order count events later h =
    append_assoc (take count events) (delivered later.dispatched) later.remaining
    ∙ ap (λ rest. take count events ++ rest) h
    ∙ take-append-drop count events

with_batch-Account {ℓ} :
    {A : Type ℓ} (tag : String) (sub : ProducerSub) (count : ℕ) (events : List A) (s : Subscribers)
    (later : Subscribers × DispatchResult A)
    → lookup tag s ≡ some sub
    → count ≤ sub.demand
    → count ≤ length events
    → Account (drop count events) (insert tag (served sub count) s) later.0 later.1
    → Account events s
        (with_batch tag sub (take count events) later).0
        (with_batch tag sub (take count events) later).1
with_batch-Account tag sub count events s later k l l' a = record {
  all_there = batch_order count events later.1 a.all_there;
  taken_off = omega (
    arith,
    length-append (take count events) (delivered later.1.dispatched),
    length-take count events,
    a.taken_off,
    total_demand-served tag sub count s k l,
  );
  no_rest = a.no_rest;
}

dispatch_loop-Account {ℓ} :
    {A : Type ℓ} (fuel : ℕ) (events : List A) (s : Subscribers)
    → length events ≤ fuel
    → Unique s
    → Account events s (dispatch_loop fuel events s).0 (dispatch_loop fuel events s).1
unfolding dispatch_loop
dispatch_loop-Account zero [] s h u = record {
  all_there = refl;
  taken_off = omega arith;
  no_rest = inl refl;
}
dispatch_loop-Account zero (event ∷ more) s h u = absurd (omega arith)
dispatch_loop-Account (suc fuel) [] s h u = record {
  all_there = refl;
  taken_off = omega arith;
  no_rest = inl refl;
}
dispatch_loop-Account (suc fuel) (event ∷ more) s h u = elim (best_from_lem none 0 s u) [
  | nobody e l ↦
      rw (dispatch_loop, e)
        (record { all_there = refl; taken_off = omega arith; no_rest = inr (AtMost-none s l) })
  | found tag sub e k l ↦
      rw (dispatch_loop, e)
        (with_batch-Account tag sub (min sub.demand (suc (length more))) (event ∷ more) s _ k
          (omega arith) (omega arith)
          (dispatch_loop-Account fuel (drop (min sub.demand (suc (length more))) (event ∷ more)) _
            (omega (arith, length-drop (min sub.demand (suc (length more))) (event ∷ more), h, l))
            (Unique-insert _ _ _ u)))
]

pub insert_only :
    (tag : String) (old new : ProducerSub) → insert tag new ((tag, old) ∷ []) ≡ (tag, new) ∷ []
unfolding insert
insert_only tag old new = rw (eq_refl tag) refl

pub lookup_only : (tag : String) (sub : ProducerSub) → lookup tag ((tag, sub) ∷ []) ≡ some sub
unfolding lookup
lookup_only tag sub = rw (eq_refl tag) refl

-- After the only batch of the fast path, the events or the demand are used up.
used_up {ℓ} :
    {A : Type ℓ} (events : List A) (tag : String) (sub : ProducerSub)
    → (drop (min sub.demand (length events)) events ≡ [])
      ⊎ (total_demand ((tag, served sub (min sub.demand (length events))) ∷ []) ≡ 0)
unfolding total_demand
used_up events tag sub = elim (Bool-cases (ltb sub.demand (length events))) [
  | inl fewer ↦ inr (ground arith)
  | inr enough ↦ inl (drop_all (min sub.demand (length events)) events (ground arith))
]

dispatch_single-Account {ℓ} :
    {A : Type ℓ} (events : List A) (tag : String) (sub : ProducerSub)
    → Account events
        ((tag, sub) ∷ [])
        (dispatch_single events tag sub).0
        (dispatch_single events tag sub).1
unfolding dispatch_single total_demand
dispatch_single-Account events tag sub = elim (Bool-cases (ltb 0 sub.demand)) [
  | inl some_demand ↦
      rw (dispatch_single, some_demand)
        (with_batch-Account tag sub (min sub.demand (length events)) events ((tag, sub) ∷ []) _
          (lookup_only tag sub) (omega arith) (omega arith)
          (rw (insert_only tag sub (served sub (min sub.demand (length events)))) (record {
            all_there = refl;
            taken_off = omega arith;
            no_rest = used_up events tag sub;
          })))
  | inr no_demand ↦
      rw (dispatch_single, no_demand)
        (record { all_there = refl; taken_off = omega arith; no_rest = inr (ground arith) })
]

dispatch-Account {ℓ} :
    {A : Type ℓ} (events : List A) (s : Subscribers)
    → Unique s
    → Account events s (dispatch events s).0 (dispatch events s).1
unfolding dispatch
dispatch-Account events [] u = dispatch_loop-Account (length events) events [] (omega arith) u
dispatch-Account events ((tag, sub) ∷ []) u = dispatch_single-Account events tag sub
dispatch-Account events (a ∷ b ∷ s) u =
    dispatch_loop-Account (length events) events (a ∷ b ∷ s) (omega arith) u

empty_rest {ℓ} :
    {A : Type ℓ} {rest : List A} {left : ℕ}
    → (rest ≡ []) ⊎ (left ≡ 0)
    → (length rest ≡ 0) ⊎ (left ≡ 0)
empty_rest (inl e) = inl (ap length e)
empty_rest (inr e) = inr e

balance :
    (out rest left total n : ℕ)
    → out + rest ≡ n
    → out + left ≡ total
    → (rest ≡ 0) ⊎ (left ≡ 0)
    → (out ≡ min total n) × (left ≡ total - n)
balance out rest left total n h l (inl e) = (omega arith, omega arith)
balance out rest left total n h l (inr e) = (omega arith, omega arith)

-- Where the subscribers have different tags, each event is handed out or left over, and in order; the number handed out is the number of
-- events or the whole demand, whichever is less; and it is taken off the demand.
pub dispatch_accounts {ℓ} :
    {A : Type ℓ} (events : List A) (s : Subscribers)
    → Unique s
    → (delivered (dispatch events s).1.dispatched ++ (dispatch events s).1.remaining ≡ events)
      × (length (delivered (dispatch events s).1.dispatched) ≡ min (total_demand s) (length events))
      × (total_demand (dispatch events s).0 ≡ total_demand s - length events)
dispatch_accounts events s u =
    let a = dispatch-Account events s u in
    let (count, left) =
      balance (length (delivered (dispatch events s).1.dispatched))
        (length (dispatch events s).1.remaining) (total_demand (dispatch events s).0)
        (total_demand s) (length events)
        (sym (
            length-append (delivered (dispatch events s).1.dispatched)
              (dispatch events s).1.remaining)
          ∙ ap length a.all_there)
        a.taken_off (empty_rest a.no_rest) in
    (a.all_there, count, left)
