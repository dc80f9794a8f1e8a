-- ===== src/GenStage/Broadcast/Credit.antt =====
-- What each subscriber of the BroadcastDispatcher of src/gen_stage.ts is owed, in every operation.
use libeam.Shared.{
  ℕ, ◌+◌, ◌-◌, ◌≤◌, min, ◌≡◌, refl, ap, subst, ◌∙◌, inl, inr, String, str_eq, eq_iff, Bool, true,
  false, List, [], ◌∷◌, ◌++◌, append-nil, Option, none, some, arith, ◌==◌, if◌then◌else◌, length,
  take, length-take, Bool-cases,
}
use libeam.Shared.Dict.{
  lookup, insert, delete, has, is_some, size, Unique, lookup-insert, lookup-delete,
}
use libeam.GenStage.{ProducerSub, Subscribers, Delivery}
use libeam.GenStage.Delivered.{delivered_to, demand_of?, demand_of}
use libeam.GenStage.Broadcast.{
  Broadcast, raise_all, lower_all, lowest_from, lowest, sync_demands, subscribe, cancel, ask,
  to_all, dispatch,
}

demand_of-raise_all :
    (own : String) (n : ℕ) (s : Subscribers)
    → has own s ≡ true
    → demand_of own (raise_all n s) ≡ demand_of own s + n
unfolding raise_all lookup
demand_of-raise_all own n [] h = cc
demand_of-raise_all own n ((tag, sub) ∷ s) h = ground (arith, demand_of-raise_all own n s, h)

demand_of-lower_all :
    (own : String) (n : ℕ) (s : Subscribers) → demand_of own (lower_all n s) ≡ demand_of own s - n
unfolding lower_all lookup
demand_of-lower_all own n [] = omega arith
demand_of-lower_all own n ((tag, sub) ∷ s) = ground (arith, demand_of-lower_all own n s)

has-lower_all : (own : String) (n : ℕ) (s : Subscribers) → has own (lower_all n s) ≡ has own s
unfolding lower_all lookup
has-lower_all own n [] = refl
has-lower_all own n ((tag, sub) ∷ s) = ground (arith, has-lower_all own n s)

has-raise_all : (own : String) (n : ℕ) (s : Subscribers) → has own (raise_all n s) ≡ has own s
unfolding raise_all lookup
has-raise_all own n [] = refl
has-raise_all own n ((tag, sub) ∷ s) = ground (arith, has-raise_all own n s)

lowest_from-le :
    (own : String) (least : ℕ) (s : Subscribers)
    → (lowest_from least s ≤ least) × (has own s ≡ true → lowest_from least s ≤ demand_of own s)
unfolding lowest_from lookup
lowest_from-le own least [] = (omega arith, λ h. absurd cc)
lowest_from-le own least ((tag, sub) ∷ s) =
    let (here, there) = lowest_from-le own (min least sub.demand) s in
    (omega (arith, here), λ h. ground (arith, here, there, h))

lowest-le : (own : String) (s : Subscribers) → has own s ≡ true → lowest s ≤ demand_of own s
unfolding lowest lookup
lowest-le own [] h = cc
lowest-le own ((tag, sub) ∷ s) h =
    let (here, there) = lowest_from-le own sub.demand s in ground (arith, here, there, h)

-- What the subscriber may still get.
abbrev pub credit : String → Broadcast → ℕ
credit own b = demand_of own b.subscribers + b.waiting

credit-sync_demands :
    (own : String) (b : Broadcast)
    → has own b.subscribers ≡ true
    → credit own (sync_demands b).0 ≡ credit own b
unfolding sync_demands
credit-sync_demands own b h = ground (
  arith,
  lowest-le own b.subscribers h,
  demand_of-lower_all own (lowest b.subscribers) b.subscribers,
)

credit-subscribe :
    (own tag : String) (sub : ProducerSub) (b : Broadcast)
    → has own b.subscribers ≡ true
    → str_eq tag own ≡ false
    → credit own (subscribe tag sub b) ≡ credit own b
unfolding subscribe
credit-subscribe own tag sub b h other = ground (
  arith,
  lookup-insert tag own sub b.subscribers,
  lookup-insert tag own sub (raise_all b.waiting b.subscribers),
  demand_of-raise_all own b.waiting b.subscribers h,
  other,
)

size-has : (own : String) (s : Subscribers) → has own s ≡ true → (size s == 0) ≡ false
unfolding lookup
size-has own [] h = cc
size-has own ((tag, sub) ∷ s) h = ground arith

credit-cancel :
    (own tag : String) (b : Broadcast)
    → has own b.subscribers ≡ true
    → str_eq tag own ≡ false
    → credit own (cancel tag b) ≡ credit own b
unfolding cancel
credit-cancel own tag b h other =
    let same =
      subst
        (λ c.
          lookup own (delete tag b.subscribers) ≡ (if c then none else lookup own b.subscribers))
        other (lookup-delete tag own b.subscribers) in
    let left = ap is_some same ∙ h in
    rw (size-has own (delete tag b.subscribers) left) (
      credit-sync_demands own (record b { subscribers = delete tag b.subscribers }) left
      ∙ ap (λ o. demand_of? o + b.waiting) same)

has-insert :
    (own tag : String) (sub : ProducerSub) (s : Subscribers)
    → has own s ≡ true
    → has own (insert tag sub s) ≡ true
has-insert own tag sub s h = ground (arith, lookup-insert tag own sub s, h)

demand_of-asked :
    (own tag : String) (demand : ℕ) (sub : ProducerSub) (b : Broadcast)
    → lookup tag b.subscribers ≡ some sub
    → demand_of own (insert tag (record sub { demand = sub.demand + demand }) b.subscribers)
        + b.waiting
      ≡ credit own b + (if str_eq tag own then demand else 0)
demand_of-asked own tag demand sub b e = ground (
  arith,
  lookup-insert tag own (record sub { demand = sub.demand + demand }) b.subscribers,
  eq_iff tag own,
  e,
)

credit-ask :
    (own tag : String) (demand : ℕ) (b : Broadcast)
    → has own b.subscribers ≡ true
    → credit own (ask tag demand b).0 ≡ credit own b + (if str_eq tag own then demand else 0)
unfolding ask
credit-ask own tag demand b h = go (lookup tag b.subscribers) refl
  where
    go :
        (o : Option ProducerSub)
        → lookup tag b.subscribers ≡ o
        → credit own (ask tag demand b).0 ≡ credit own b + (if str_eq tag own then demand else 0)
    go none e = rw (ask, e) (ground (arith, eq_iff tag own, e, h))
    go (some sub) e =
        rw (ask, e)
          (credit-sync_demands own _ (has-insert own tag _ b.subscribers h)
            ∙ demand_of-asked own tag demand sub b e)

delivered_to-to_all-none {ℓ} :
    {A : Type ℓ} (own : String) (events : List A) (s : Subscribers)
    → lookup own s ≡ none
    → delivered_to own (to_all events s) ≡ []
unfolding to_all lookup
delivered_to-to_all-none own events [] h = refl
delivered_to-to_all-none own events ((tag, sub) ∷ s) h =
    ground (arith, delivered_to-to_all-none own events s, h)

delivered_to-to_all {ℓ} :
    {A : Type ℓ} (own : String) (events : List A) (s : Subscribers)
    → Unique s
    → has own s ≡ true
    → delivered_to own (to_all events s) ≡ events
unfolding to_all lookup
delivered_to-to_all own events [] u h = cc
delivered_to-to_all own events ((tag, sub) ∷ s) (fresh, u) h = elim (Bool-cases (str_eq tag own)) [
  | inl same ↦ rw (same) (
      ap (λ more. events ++ more)
        (delivered_to-to_all-none own events s (ground (arith, eq_iff tag own, fresh, same)))
      ∙ append-nil events)
  | inr other ↦ rw (other) (delivered_to-to_all own events s u (ground (arith, other, h)))
]

credit-dispatch {ℓ} :
    {A : Type ℓ} (own : String) (events : List A) (b : Broadcast)
    → Unique b.subscribers
    → has own b.subscribers ≡ true
    → credit own (dispatch events b).0 + length (delivered_to own (dispatch events b).1.dispatched)
      ≡ credit own b
unfolding dispatch
credit-dispatch own events b u h = elim (Bool-cases (b.waiting == 0)) [
  | inl nothing ↦ rw (nothing) (omega arith)
  | inr owed ↦
      rw
        (
          owed,
          size-has own b.subscribers h,
          delivered_to-to_all own (take (min (length events) b.waiting) events) b.subscribers u h,
        )
        (omega (arith, length-take (min (length events) b.waiting) events))
]

-- One operation of the dispatcher.
pub data Call {ℓ} (A : Type ℓ) : Type ℓ where
  subscribes : String → ProducerSub → Call A
  cancels : String → Call A
  asks : String → ℕ → Call A
  dispatches : List A → Call A

module _ {ℓ} {A : Type ℓ} where
  unfoldable pub step : Call A → Broadcast → Broadcast × List (Delivery A)
  step (subscribes tag sub) b = (subscribe tag sub b, [])
  step (cancels tag) b = (cancel tag b, [])
  step (asks tag demand) b = ((ask tag demand b).0, [])
  step (dispatches events) b = let (b', r) = dispatch events b in (b', r.dispatched)

  -- Whether a call takes a subscriber's entry away or puts another in its place.
  abbrev pub ends : String → Call A → Bool
  ends own (subscribes tag sub) = str_eq tag own
  ends own (cancels tag) = str_eq tag own
  ends own (asks tag demand) = false
  ends own (dispatches events) = false

  abbrev pub asked_by : String → Call A → ℕ
  asked_by own (asks tag demand) = if str_eq tag own then demand else 0
  asked_by own (subscribes tag sub) = 0
  asked_by own (cancels tag) = 0
  asked_by own (dispatches events) = 0

-- Whatever the dispatcher does for others, what a subscriber is owed grows by what it asks for and
-- shrinks by what it gets, and by nothing else: no demand is lost when others come, go or ask. The
-- subscribers have different tags, this one is among them, and the call is not its own cancellation
-- or a new subscription under its tag.
pub step-credit {ℓ} :
    {A : Type ℓ} (own : String) (call : Call A) (b : Broadcast)
    → Unique b.subscribers
    → has own b.subscribers ≡ true
    → ends own call ≡ false
    → credit own (step call b).0 + length (delivered_to own (step call b).1)
      ≡ credit own b + asked_by own call
unfolding step
step-credit own (subscribes tag sub) b u h e = omega (arith, credit-subscribe own tag sub b h e)
step-credit own (cancels tag) b u h e = omega (arith, credit-cancel own tag b h e)
step-credit own (asks tag demand) b u h e = omega (arith, credit-ask own tag demand b h)
step-credit own (dispatches events) b u h e = omega (arith, credit-dispatch own events b u h)
