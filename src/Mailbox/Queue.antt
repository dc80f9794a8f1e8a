-- ===== src/Mailbox/Queue.antt =====
-- The ring of src/mailbox.ts as a queue: what each method does to the list of the messages held.
use libeam.Shared.{
  ℕ, zero, suc, ◌+◌, ◌-◌, ◌<◌, ◌≡◌, refl, ap, ◌≢◌, inl, inr, true, false, List, [], ◌∷◌, ◌++◌,
  Option, none, some, arith, length, drop, ◌==◌, if◌then◌else◌, Bool-cases,
}
use libeam.Mailbox.{
  StashedMessage, OverflowStrategy, drop_newest, drop_oldest, error, Mailbox, Answer, accepted,
  refused, mailbox_full, at_least, grow, drop_head, rejection, enqueue_room, overflow, enqueue,
}
use libeam.Mailbox.Ring.{length-write_inside}
use libeam.Mailbox.Held.{
  Represents, size-length, length-grow, grow-Represents, placed-Represents, same_ring, nonempty,
  split_content, behead-Represents,
}

-- The first of a list, if it has one.
abbrev pub first {ℓ} : {A : Type ℓ} → List A → Option A
first [] = none
first (x ∷ xs) = some x

full_nonempty : (n : ℕ) (limit : Option ℕ) → limit ≢ some 0 → at_least n limit ≡ true → 0 < n
full_nonempty n none h e = cc
full_nonempty n (some zero) h e = absurd (h refl)
full_nonempty n (some (suc l)) h e = ground arith

module _ {A : Type 0} where
  -- What a queue with a limit answers to a new message: the list after it, the answer, and the
  -- messages whose calls are rejected.
  abbrev pub offer_full :
      OverflowStrategy
      → StashedMessage A
      → List (StashedMessage A)
      → List (StashedMessage A) × Answer × List (StashedMessage A)
  offer_full drop_newest msg xs = (xs, refused, [])
  offer_full drop_oldest msg xs = (drop 1 xs ++ msg ∷ [], accepted, rejection (first xs))
  offer_full error msg xs = (xs, mailbox_full, [])

  abbrev pub offer :
      Option ℕ
      → OverflowStrategy
      → StashedMessage A
      → List (StashedMessage A)
      → List (StashedMessage A) × Answer × List (StashedMessage A)
  offer limit strategy msg xs =
      if at_least (length xs) limit
      then offer_full strategy msg xs
      else (xs ++ msg ∷ [], accepted, [])

  enqueue_room-Represents :
      (m : Mailbox A) (xs : List (StashedMessage A)) (msg : StashedMessage A)
      → Represents m xs
      → Represents (enqueue_room msg m) (xs ++ msg ∷ [])
  unfolding enqueue_room
  enqueue_room-Represents m xs msg r = elim (Bool-cases (m.size == length m.buf)) [
    | inl e ↦ rw e (
        placed-Represents (grow m) xs msg (grow-Represents m xs r)
          (omega (arith, length-grow m r.fits, r.fits, r.room)))
    | inr e ↦ rw e (placed-Represents m xs msg r (ground (arith, r.fits)))
  ]

  overflow-oldest :
      (m : Mailbox A) (x : StashedMessage A) (xs : List (StashedMessage A)) (msg : StashedMessage A)
      → Represents m (x ∷ xs)
      → Represents (overflow drop_oldest msg m).0 (xs ++ msg ∷ [])
  unfolding overflow
  overflow-oldest m x xs msg r = same_ring _ _ _ refl refl refl (omega (arith, nonempty m x xs r)) (
      placed-Represents (record (drop_head m) { size = m.size - 1 }) xs msg
        (behead-Represents m x xs r)
        (omega
          (arith, nonempty m x xs r, r.fits, length-write_inside m.buf m.head none r.head_inside)))

  -- What a mailbox and its list have to do with each other after a call.
  abbrev pub Agrees :
      Mailbox A × Answer × List (StashedMessage A)
      → List (StashedMessage A) × Answer × List (StashedMessage A)
      → Type 0
  Agrees r s = Represents r.0 s.0 × (r.1 ≡ s.1) × (r.2 ≡ s.2)

  overflow-Agrees :
      (strategy : OverflowStrategy) (m : Mailbox A) (xs : List (StashedMessage A))
      (msg : StashedMessage A)
      → Represents m xs
      → 0 < length xs
      → Agrees (overflow strategy msg m) (offer_full strategy msg xs)
  unfolding overflow
  overflow-Agrees drop_newest m xs msg r h = (r, refl, refl)
  overflow-Agrees error m xs msg r h = (r, refl, refl)
  overflow-Agrees drop_oldest m [] msg r h = absurd (omega arith)
  overflow-Agrees drop_oldest m (x ∷ xs) msg r h =
      (overflow-oldest m x xs msg r, refl, ap rejection (split_content m x xs r).0)

  enqueue_full :
      (m : Mailbox A) (msg : StashedMessage A)
      → at_least m.size m.max_size ≡ true
      → enqueue msg m
        ≡ overflow m.overflow_strategy msg (record m { dropped_count = m.dropped_count + 1 })
  unfolding enqueue
  enqueue_full m msg h = rw h

  enqueue_free :
      (m : Mailbox A) (msg : StashedMessage A)
      → at_least m.size m.max_size ≡ false
      → enqueue msg m ≡ (enqueue_room msg m, accepted, [])
  unfolding enqueue
  enqueue_free m msg h = rw h

  -- `enqueue` does to the messages held what the limit and the strategy say: with room the message
  -- goes to the end, and on an overflow the new one is refused, the oldest gives way (its call is
  -- rejected), or the call throws and nothing moves. The limit is not 0.
  pub enqueue-offer :
      (m : Mailbox A) (xs : List (StashedMessage A)) (msg : StashedMessage A)
      → Represents m xs
      → m.max_size ≢ some 0
      → Agrees (enqueue msg m) (offer m.max_size m.overflow_strategy msg xs)
  unfolding enqueue
  enqueue-offer m xs msg r positive = elim (Bool-cases (at_least (length xs) m.max_size)) [
    | inl full ↦
        rw (full, enqueue_full m msg (rw (size-length m xs r) full))
          (overflow-Agrees m.overflow_strategy (record m { dropped_count = m.dropped_count + 1 }) xs
            msg (same_ring m _ xs refl refl refl refl r)
            (full_nonempty (length xs) m.max_size positive full))
    | inr free ↦
        rw (free, enqueue_free m msg (rw (size-length m xs r) free))
          (enqueue_room-Represents m xs msg r, refl, refl)
  ]
