-- ===== src/Mailbox/Bulk.antt =====
-- The methods of src/mailbox.ts that take, put back or drop messages: dequeue, unshift, clear and
-- drain.
use native.Mathlib.Nat.{mod-add-mod, mod-lt, add-mod_right, mod-eq_of_lt}
use native.Mathlib.Numerals.{add-one}
use libeam.Shared.{
  ℕ, zero, suc, ◌+◌, ◌-◌, ◌%◌, ◌≤◌, ◌<◌, ◌≡◌, refl, sym, ap, ◌∙◌, inl, inr, List, [], ◌∷◌, ◌++◌,
  map, Option, none, some, arith, length, length-replicate, ltb, ◌==◌, Bool-cases,
}
use libeam.Mailbox.{
  StashedMessage, Mailbox, write, slots_from, init, Config, grow, dequeue, ensure_space, prepend,
  prepend_all, unshift, clear, to_array, drain,
}
use libeam.Mailbox.Ring.{length-write_inside, slots_from-prepend, front_next}
use libeam.Mailbox.Held.{
  Represents, size-length, length-grow, grow-Represents, nonempty, split_content, behead-Represents,
}

module _ {A : Type 0} where
  -- A new mailbox holds nothing.
  pub init-Represents : (config : Config) → Represents {A = A} (init config) []
  unfolding init slots_from
  init-Represents config = record {
    room = omega arith;
    head_inside = omega arith;
    fits = omega arith;
    tail_next = refl;
    content = refl;
  }

  abbrev pub Taken : List (StashedMessage A) → Mailbox A → Type 0
  Taken [] m = dequeue m ≡ (none, m)
  Taken (x ∷ xs) m = ((dequeue m).0 ≡ some x) × Represents (dequeue m).1 xs

  -- `dequeue` answers with the oldest message and takes it off; an empty mailbox answers with
  -- nothing and stays as it is.
  pub dequeue-Taken : (m : Mailbox A) (xs : List (StashedMessage A)) → Represents m xs → Taken xs m
  unfolding dequeue
  dequeue-Taken m [] r = rw (size-length m [] r)
  dequeue-Taken m (x ∷ xs) r = elim (Bool-cases (m.size == 0)) [
    | inl e ↦ absurd (ground (arith, nonempty m x xs r))
    | inr e ↦ rw e ((split_content m x xs r).0, behead-Represents m x xs r)
  ]

  prepend-Represents :
      (m : Mailbox A) (xs : List (StashedMessage A)) (msg : StashedMessage A)
      → Represents m xs
      → m.size < length m.buf
      → Represents (prepend msg m) (msg ∷ xs)
  unfolding prepend
  prepend-Represents m xs msg r free = record {
    room = omega (arith, len);
    head_inside = omega (arith, len, inside);
    fits = omega (arith, len);
    tail_next = rw len (r.tail_next ∙ turn);
    content =
        rw (add-one, ← r.content)
          (slots_from-prepend m.buf front m.head m.size (some msg) inside next free);
  }
    where
      front : ℕ
      front = (m.head + length m.buf - 1) % length m.buf

      around : m.head + length m.buf - 1 + (m.size + 1) ≡ m.head + m.size + length m.buf
      around = omega (arith, r.room)

      inside : front < length m.buf
      inside = mod-lt (m.head + length m.buf - 1) r.room

      next : (front + 1) % length m.buf ≡ m.head % length m.buf
      next = front_next m.head (length m.buf) r.room

      turn : (m.head + m.size) % length m.buf ≡ (front + (m.size + 1)) % length m.buf
      turn = sym (
          mod-add-mod (m.head + length m.buf - 1) (length m.buf) (m.size + 1)
          ∙ (ap (λ t. t % length m.buf) around ∙ add-mod_right (m.head + m.size) (length m.buf)))

      len : length (write m.buf front (some msg)) ≡ length m.buf
      len = length-write_inside m.buf front (some msg) inside

  -- Doubling as often as the fuel says is enough, and each doubling keeps the messages.
  ensure_space-Represents :
      (fuel needed : ℕ) (m : Mailbox A) (xs : List (StashedMessage A))
      → Represents m xs
      → needed < length m.buf + fuel
      → Represents (ensure_space fuel needed m) xs
        × (needed ≤ length (ensure_space fuel needed m).buf)
        × ((ensure_space fuel needed m).size ≡ m.size)
  unfolding ensure_space
  ensure_space-Represents zero needed m xs r h = (r, omega arith, refl)
  ensure_space-Represents (suc fuel) needed m xs r h =
      elim (Bool-cases (ltb (length m.buf) needed)) [
        | inl e ↦ rw e (
            ensure_space-Represents fuel needed (grow m) xs (grow-Represents m xs r)
              (omega (arith, length-grow m r.fits, r.room)))
        | inr e ↦ rw e (r, ground arith, refl)
      ]

  length-prepend :
      (m : Mailbox A) (xs : List (StashedMessage A)) (msg : StashedMessage A)
      → Represents m xs
      → (length (prepend msg m).buf ≡ length m.buf) × ((prepend msg m).size ≡ m.size + 1)
  unfolding prepend
  length-prepend m xs msg r =
      (length-write_inside m.buf _ (some msg) (mod-lt (m.head + length m.buf - 1) r.room), refl)

  prepend_all-Represents :
      (m : Mailbox A) (xs msgs : List (StashedMessage A))
      → Represents m xs
      → m.size + length msgs ≤ length m.buf
      → Represents (prepend_all msgs m) (msgs ++ xs)
        × (length (prepend_all msgs m).buf ≡ length m.buf)
        × ((prepend_all msgs m).size ≡ m.size + length msgs)
  unfolding prepend_all
  prepend_all-Represents m xs [] r h = (r, refl, omega arith)
  prepend_all-Represents m xs (msg ∷ msgs) r h =
      let (held, len, count) = prepend_all-Represents m xs msgs r (omega arith) in
      let (len', count') = length-prepend (prepend_all msgs m) (msgs ++ xs) msg held in
      (
        prepend-Represents (prepend_all msgs m) (msgs ++ xs) msg held (omega arith),
        omega arith,
        omega arith,
      )

  -- `unshift` puts the messages in front, in their order, whatever the limit says.
  pub unshift-Represents :
      (m : Mailbox A) (xs msgs : List (StashedMessage A))
      → Represents m xs
      → Represents (unshift msgs m) (msgs ++ xs) × ((unshift msgs m).size ≡ length msgs + length xs)
  unfolding unshift
  unshift-Represents m xs msgs r =
      let needed : ℕ = m.size + length msgs in
      let (held, enough, same) =
        ensure_space-Represents needed needed m xs r (omega (arith, r.room)) in
      let (all, _, count) =
        prepend_all-Represents (ensure_space needed needed m) xs msgs held (omega arith) in
      (all, omega (arith, size-length m xs r))

  -- `clear` leaves an empty mailbox, on the same slots.
  clear-Represents :
      (m : Mailbox A) (xs : List (StashedMessage A)) → Represents m xs → Represents (clear m) []
  unfolding clear slots_from
  clear-Represents m xs r =
      let blank = length-replicate {A = Option (StashedMessage A)} (length m.buf) none in
      record {
        room = omega (arith, blank, r.room);
        head_inside = omega (arith, blank, r.room);
        fits = omega arith;
        tail_next = sym (mod-eq_of_lt (omega (arith, blank, r.room)));
        content = refl;
      }

  -- `drain` hands over the messages in order, with no hole among them, and leaves none; `toArray`
  -- gives the same list.
  pub drain-Represents :
      (m : Mailbox A) (xs : List (StashedMessage A))
      → Represents m xs
      → ((drain m).0 ≡ map some xs) × (to_array m ≡ map some xs) × Represents (drain m).1 []
  unfolding drain
  drain-Represents m xs r = (r.content, r.content, clear-Represents m xs r)
