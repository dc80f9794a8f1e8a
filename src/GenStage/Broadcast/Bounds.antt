-- ===== src/GenStage/Broadcast/Bounds.antt =====
-- What the BroadcastDispatcher of src/gen_stage.ts keeps of its counters in every run.
use libeam.Shared.{
  ℕ, ◌≤◌, ◌≡◌, refl, inl, inr, String, ◌||◌, List, [], ◌∷◌, Option, none, some, arith, ltb, leb,
  ◌==◌, Bool-cases,
}
use libeam.Shared.Dict.{lookup, delete, size, Unique, Unique-insert, Unique-delete}
use libeam.GenStage.{ProducerSub, Subscribers}
use libeam.GenStage.Broadcast.{
  Broadcast, init, raise_all, lower_all, lowest, sync_demands, subscribe, cancel, ask, dispatch,
}
use libeam.GenStage.Broadcast.Credit.{Call, subscribes, cancels, asks, dispatches, step}

-- The subscribers have different tags, and no more waits to be handed out than the producer has
-- been asked for.
pub record IsBroadcast (b : Broadcast) : Type 0 where
  pub unique : Unique b.subscribers
  pub covered : b.waiting ≤ b.requested

lookup-lower_all-none :
    (own : String) (n : ℕ) (s : Subscribers)
    → lookup own s ≡ none
    → lookup own (lower_all n s) ≡ none
unfolding lower_all lookup
lookup-lower_all-none own n [] h = refl
lookup-lower_all-none own n ((tag, sub) ∷ s) h = ground (arith, lookup-lower_all-none own n s, h)

lookup-raise_all-none :
    (own : String) (n : ℕ) (s : Subscribers)
    → lookup own s ≡ none
    → lookup own (raise_all n s) ≡ none
unfolding raise_all lookup
lookup-raise_all-none own n [] h = refl
lookup-raise_all-none own n ((tag, sub) ∷ s) h = ground (arith, lookup-raise_all-none own n s, h)

Unique-lower_all : (n : ℕ) (s : Subscribers) → Unique s → Unique (lower_all n s)
unfolding lower_all lookup
Unique-lower_all n [] u = tt
Unique-lower_all n ((tag, sub) ∷ s) (fresh, u) =
    (lookup-lower_all-none tag n s fresh, Unique-lower_all n s u)

Unique-raise_all : (n : ℕ) (s : Subscribers) → Unique s → Unique (raise_all n s)
unfolding raise_all lookup
Unique-raise_all n [] u = tt
Unique-raise_all n ((tag, sub) ∷ s) (fresh, u) =
    (lookup-raise_all-none tag n s fresh, Unique-raise_all n s u)

sync_demands-IsBroadcast : (b : Broadcast) → IsBroadcast b → IsBroadcast (sync_demands b).0
unfolding sync_demands
sync_demands-IsBroadcast b i = elim (Bool-cases (leb (lowest b.subscribers) 0)) [
  | inl nothing ↦ rw (sync_demands, nothing) i
  | inr shared ↦
      rw (sync_demands, shared)
        (record {
          unique = Unique-lower_all (lowest b.subscribers) b.subscribers i.unique;
          covered = omega arith;
        })
]

subscribe-IsBroadcast :
    (tag : String) (sub : ProducerSub) (b : Broadcast)
    → IsBroadcast b
    → IsBroadcast (subscribe tag sub b)
unfolding subscribe
subscribe-IsBroadcast tag sub b i = elim (Bool-cases (ltb 0 b.waiting)) [
  | inl some_waiting ↦
      rw (subscribe, some_waiting)
        (record {
          unique = Unique-insert tag sub _ (Unique-raise_all b.waiting b.subscribers i.unique);
          covered = omega arith;
        })
  | inr none_waiting ↦
      rw (subscribe, none_waiting)
        (record { unique = Unique-insert tag sub _ i.unique; covered = omega arith })
]

cancel-IsBroadcast : (tag : String) (b : Broadcast) → IsBroadcast b → IsBroadcast (cancel tag b)
unfolding cancel
cancel-IsBroadcast tag b i = elim (Bool-cases (size (delete tag b.subscribers) == 0)) [
  | inl last ↦
      rw (cancel, last)
        (record { unique = Unique-delete tag b.subscribers i.unique; covered = omega arith })
  | inr others ↦
      rw (cancel, others)
        (sync_demands-IsBroadcast _
          (record { unique = Unique-delete tag b.subscribers i.unique; covered = i.covered }))
]

ask-IsBroadcast :
    (tag : String) (demand : ℕ) (b : Broadcast) → IsBroadcast b → IsBroadcast (ask tag demand b).0
unfolding ask
ask-IsBroadcast tag demand b i = go (lookup tag b.subscribers) refl
  where
    go : (o : Option ProducerSub) → lookup tag b.subscribers ≡ o → IsBroadcast (ask tag demand b).0
    go none e = rw (ask, e) i
    go (some sub) e =
        rw (ask, e)
          (sync_demands-IsBroadcast _
            (record { unique = Unique-insert tag _ b.subscribers i.unique; covered = i.covered }))

module _ {ℓ} {A : Type ℓ} where
  dispatch-IsBroadcast :
      (events : List A) (b : Broadcast) → IsBroadcast b → IsBroadcast (dispatch events b).0
  unfolding dispatch
  dispatch-IsBroadcast events b i = elim (Bool-cases (b.waiting == 0 || size b.subscribers == 0)) [
    | inl nothing ↦ rw (dispatch, nothing) i
    | inr owed ↦
        rw (dispatch, owed) (record { unique = i.unique; covered = omega (arith, i.covered) })
  ]

  step-IsBroadcast : (call : Call A) (b : Broadcast) → IsBroadcast b → IsBroadcast (step call b).0
  unfolding step
  step-IsBroadcast (subscribes tag sub) b i = subscribe-IsBroadcast tag sub b i
  step-IsBroadcast (cancels tag) b i = cancel-IsBroadcast tag b i
  step-IsBroadcast (asks tag demand) b i = ask-IsBroadcast tag demand b i
  step-IsBroadcast (dispatches events) b i = dispatch-IsBroadcast events b i

  unfoldable pub run : List (Call A) → Broadcast → Broadcast
  run [] b = b
  run (call ∷ calls) b = run calls (step call b).0

  run-IsBroadcast :
      (calls : List (Call A)) (b : Broadcast) → IsBroadcast b → IsBroadcast (run calls b)
  unfolding run
  run-IsBroadcast [] b i = i
  run-IsBroadcast (call ∷ calls) b i =
      run-IsBroadcast calls (step call b).0 (step-IsBroadcast call b i)

-- In every run of the dispatcher from its start the subscribers have different tags, and the demand
-- that waits for events is never more than the producer has been asked for.
pub run-init-IsBroadcast {ℓ} : {A : Type ℓ} (calls : List (Call A)) → IsBroadcast (run calls init)
unfolding init
run-init-IsBroadcast calls =
    run-IsBroadcast calls init (record { unique = tt; covered = omega arith })
