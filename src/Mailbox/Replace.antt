-- ===== src/Mailbox/Replace.antt =====
-- `replaceWith` of src/mailbox.ts, and the case in which it leaves the tail past the array's end.
use native.Mathlib.Nat.{zero-add, mod-eq_of_lt, mod_self}
use libeam.Shared.{
  ℕ, zero, suc, ◌+◌, ◌-◌, ◌%◌, ◌≤◌, ◌<◌, ◌≡◌, refl, sym, ap, subst, ◌∙◌, ◌≢◌, inl, inr, false, List,
  [], map, Option, none, some, arith, length, replicate, length-replicate, length-map, ◌==◌,
  Bool-cases,
}
use libeam.Mailbox.{
  StashedMessage, Mailbox, read, write, slots_from, dequeue, enqueue, at_least, append_tail,
  accepted, replace_with, replace_capacity,
}
use libeam.Mailbox.Ring.{read-write, length-write_inside, length-fill, slots_from-fill}
use libeam.Mailbox.Held.{Represents}

module _ {A : Type 0} where
  length-replaced :
      (m : Mailbox A) (msgs : List (StashedMessage A))
      → length msgs ≤ replace_capacity m msgs
      → length (replace_with msgs m).buf ≡ replace_capacity m msgs
  unfolding replace_with
  length-replaced m msgs h =
      let blank = length-replicate {A = Option (StashedMessage A)} (replace_capacity m msgs) none in
      length-fill (replicate (replace_capacity m msgs) none) 0 (map some msgs)
        (omega (arith, blank, length-map {0, 0} some msgs))
      ∙ blank

  -- With a slot to spare, `replaceWith` leaves exactly the given messages, in their order.
  pub replace_with-Represents :
      (m : Mailbox A) (msgs : List (StashedMessage A))
      → length msgs < replace_capacity m msgs
      → Represents (replace_with msgs m) msgs
  unfolding replace_with
  replace_with-Represents m msgs h =
      let len = length-replaced m msgs (omega arith) in
      record {
        room = omega (arith, len);
        head_inside = omega (arith, len);
        fits = omega (arith, len);
        tail_next = sym (rw zero-add (mod-eq_of_lt (omega (arith, len))));
        content =
            subst (λ n. slots_from (replace_with msgs m).buf 0 n ≡ map some msgs)
              (length-map some msgs)
              (slots_from-fill (replicate (replace_capacity m msgs) none) 0 (map some msgs) (
                omega (
                  arith,
                  length-replicate {A = Option (StashedMessage A)} (replace_capacity m msgs) none,
                  length-map {0, 0} some msgs,
                )));
      }

  pub dequeue_times : ℕ → Mailbox A → Mailbox A
  dequeue_times zero m = m
  dequeue_times (suc n) m = (dequeue (dequeue_times n m)).1

  -- The mailbox after so many messages were taken from a ring that was filled to the last slot.
  record Emptying (limit : Option ℕ) (n k : ℕ) (m : Mailbox A) : Type 0 where
    same_limit : m.max_size ≡ limit
    len : length m.buf ≡ n
    head_at : m.head ≡ k % n
    tail_out : m.tail ≡ n
    left : m.size ≡ n - k
    cleared : 0 < k → read m.buf 0 ≡ none

  dequeue-Emptying :
      (limit : Option ℕ) (n k : ℕ) (m : Mailbox A)
      → suc k ≤ n
      → Emptying limit n k m
      → Emptying limit n (suc k) (dequeue m).1
  unfolding dequeue
  dequeue-Emptying limit n k m h e = elim (Bool-cases (m.size == 0)) [
    | inl z ↦ absurd (ground (arith, e.left))
    | inr z ↦ rw z (record {
      same_limit = e.same_limit;
      len = len ∙ e.len;
      head_at = rw (len, e.len, at) (ap (λ t. t % n) (omega arith));
      tail_out = e.tail_out;
      left = omega (arith, e.left);
      cleared = λ _. first_cleared;
    })
  ]
    where
      at : m.head ≡ k
      at = e.head_at ∙ mod-eq_of_lt h

      len : length (write m.buf m.head none) ≡ length m.buf
      len = length-write_inside m.buf m.head none (omega (arith, at, e.len))

      first_cleared : read (write m.buf m.head none) 0 ≡ none
      first_cleared = ground (arith, at, e.cleared, read-write m.buf m.head 0 none)

  Emptying-times :
      (limit : Option ℕ) (n k : ℕ) (m : Mailbox A)
      → k ≤ n
      → Emptying limit n 0 m
      → Emptying limit n k (dequeue_times k m)
  unfolding dequeue_times
  Emptying-times limit n zero m h e = e
  Emptying-times limit n (suc k) m h e =
      dequeue-Emptying limit n k (dequeue_times k m) h (Emptying-times limit n k m (omega arith) e)

  replaced-Emptying :
      (m : Mailbox A) (msgs : List (StashedMessage A))
      → length msgs ≡ replace_capacity m msgs
      → Emptying m.max_size (length msgs) 0 (replace_with msgs m)
  unfolding replace_with
  replaced-Emptying m msgs h = record {
    same_limit = refl;
    len = omega (arith, length-replaced m msgs (omega arith));
    head_at = omega arith;
    tail_out = refl;
    left = omega arith;
    cleared = λ lt. absurd (omega arith);
  }

  enqueue_room_left :
      (m : Mailbox A) (msg : StashedMessage A)
      → at_least m.size m.max_size ≡ false
      → (m.size == length m.buf) ≡ false
      → enqueue msg m ≡ (record (append_tail msg m) { size = m.size + 1 }, accepted, [])
  unfolding enqueue
  enqueue_room_left m msg h k = rw (h, k)

  dequeue_some :
      (m : Mailbox A)
      → 0 < m.size
      → ((dequeue m).0 ≡ read m.buf m.head) × ((dequeue m).1.size ≡ m.size - 1)
  unfolding dequeue
  dequeue_some m h = ground arith

  -- A message written past the array's end is not where the head is.
  astray :
      (n : ℕ) (m : Mailbox A) (msg : StashedMessage A) (limit : Option ℕ)
      → 0 < n
      → Emptying limit n n m
      → let m' = record (append_tail msg m) { size = m.size + 1 } in
        ((dequeue m').0 ≡ none) × ((dequeue m').1.size ≡ 0)
  unfolding append_tail
  astray n m msg limit pos e =
      let (answer, left) =
        dequeue_some (record (append_tail msg m) { size = m.size + 1 }) (omega arith) in
      (answer ∙ hole, omega (arith, e.left))
    where
      at : m.head ≡ 0
      at = e.head_at ∙ mod_self n

      hole : read (write m.buf m.tail (some msg)) m.head ≡ none
      hole = ground (arith, at, e.tail_out, e.cleared, read-write m.buf m.tail 0 (some msg))

  not_full : (m : Mailbox A) → m.max_size ≢ some 0 → at_least 0 m.max_size ≡ false
  not_full m h = ground arith

  -- When `replaceWith` is given exactly as many messages as the array has slots and all of them are
  -- taken, the next message is lost: `enqueue` accepts it, the next `dequeue` answers with nothing,
  -- and the mailbox is empty. (A limit of 0 is excepted: there `enqueue` does not let it in.)
  pub replace_with_loses :
      (m : Mailbox A) (msgs : List (StashedMessage A)) (msg : StashedMessage A)
      → length msgs ≡ replace_capacity m msgs
      → 0 < length msgs
      → m.max_size ≢ some 0
      → let emptied = dequeue_times (length msgs) (replace_with msgs m) in
        let sent = enqueue msg emptied in
        (sent.1 ≡ accepted) × ((dequeue sent.0).0 ≡ none) × ((dequeue sent.0).1.size ≡ 0)
  replace_with_loses m msgs msg exact nonempty positive =
      let (nothing, none_held) = astray (length msgs) emptied msg m.max_size nonempty e in
      rw sent (refl, nothing, none_held)
    where
      emptied : Mailbox A
      emptied = dequeue_times (length msgs) (replace_with msgs m)

      e : Emptying m.max_size (length msgs) (length msgs) emptied
      e =
          Emptying-times m.max_size (length msgs) (length msgs) (replace_with msgs m) (omega arith)
            (replaced-Emptying m msgs exact)

      none_left : emptied.size ≡ 0
      none_left = omega (arith, e.left)

      sent :
          enqueue msg emptied
          ≡ (record (append_tail msg emptied) { size = emptied.size + 1 }, accepted, [])
      sent =
          enqueue_room_left emptied msg (rw (none_left, e.same_limit) (not_full m positive))
            (ground (arith, none_left, e.len))
