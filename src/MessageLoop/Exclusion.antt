-- ===== src/MessageLoop/Exclusion.antt =====
-- When the handlers of an actor in src/actor_system.ts run one after the other.
use libeam.Shared.{ℕ, suc, ◌+◌, ◌≤◌, Bool, true, false, List, [], ◌∷◌, ◌≡◌, refl, arith, length}
use libeam.MessageLoop.{Batch, at_test, awaiting, Loop, Action, send_call, cast_now}

abbrev pub flag : Bool → ℕ
flag true = 1
flag false = 0

flag-true : (b : Bool) → 1 ≤ flag b → b ≡ true
flag-true true h = refl
flag-true false h = absurd (no h)
  where
    no : 1 ≤ 0 → ⊥
    no h = omega arith

module _ {A : Type 0} where
  -- Nothing is called, and what is cast past the mailbox goes to handlers that answer no promise.
  abbrev pub Uncalled : List (Action A) → Type 0
  Uncalled [] = Unit
  Uncalled (send_call msg ∷ actions) = ⊥
  Uncalled (cast_now msg true ∷ actions) = ⊥
  Uncalled (_ ∷ actions) = Uncalled actions

  -- At most one callback or batch, none that the flag `scheduled` does not stand for while the
  -- actor is alive, and no batch that the flag `processing` does not stand for.
  abbrev pub Single : Loop A → Type 0
  Single s =
      (s.calls ≡ [])
      × (s.immediates + length s.batches ≤ 1)
      × ((s.alive ≡ true) → s.immediates + length s.batches ≤ flag s.scheduled)
      × (length s.batches ≤ flag s.processing)
      × (s.detached ≡ [])

  -- How many handlers are under way: those that batches await, those of calls on the fast path, and
  -- those of casts past the mailbox that answered a promise.
  abbrev pub awaited : List (Batch A) → ℕ
  awaited [] = 0
  awaited (at_test n ∷ batches) = awaited batches
  awaited (awaiting n msg ∷ batches) = suc (awaited batches)

  abbrev pub under_way : Loop A → ℕ
  under_way s = awaited s.batches + length s.calls + length s.detached
