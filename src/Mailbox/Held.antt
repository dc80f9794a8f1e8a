-- ===== src/Mailbox/Held.antt =====
-- The messages that a ring of src/mailbox.ts holds, and what its single steps do to them.
use native.Mathlib.Nat.{mod-add-mod, mod-lt, mod-eq_of_lt, zero-add}
use mathlib.Core.List.{map-append}
use libeam.Shared.{
  suc, ◌+◌, ◌-◌, ◌*◌, ◌%◌, ◌≤◌, ◌<◌, ◌≡◌, sym, ap, subst, ◌∙◌, List, [], ◌∷◌, ◌++◌, map, Option,
  none, some, arith, length, replicate, length-replicate, length-map,
}
use libeam.Mailbox.{StashedMessage, Mailbox, read, write, slots_from, grow, append_tail, drop_head}
use libeam.Mailbox.Ring.{
  length-write_inside, length-slots_from, length-fill, slots_from-fill, slots_from-append,
  slots_from-behead,
}
use native.Mathlib.Numerals.{add-one}

-- The ring is well formed and its slots, from the head on, hold these messages.
pub record Represents {A : Type 0} (m : Mailbox A) (xs : List (StashedMessage A)) : Type 0 where
  pub room : 0 < length m.buf
  pub head_inside : m.head < length m.buf
  pub fits : m.size ≤ length m.buf
  pub tail_next : m.tail ≡ (m.head + m.size) % length m.buf
  pub content : slots_from m.buf m.head m.size ≡ map some xs

module _ {A : Type 0} where
  pub size-length :
      (m : Mailbox A) (xs : List (StashedMessage A)) → Represents m xs → m.size ≡ length xs
  size-length m xs r =
      omega (
        arith,
        ap length r.content,
        length-slots_from m.buf m.head m.size,
        length-map {0, 0} some xs,
      )

  pub length-grow : (m : Mailbox A) → m.size ≤ length m.buf → length (grow m).buf ≡ length m.buf * 2
  unfolding grow
  length-grow m h =
      let blank : length (replicate {A = Option (StashedMessage A)} (length m.buf * 2) none)
          ≡ length m.buf * 2 =
        length-replicate (length m.buf * 2) none in
      length-fill (replicate (length m.buf * 2) none) 0 (slots_from m.buf m.head m.size)
        (omega (arith, blank, length-slots_from m.buf m.head m.size))
      ∙ blank

  -- Doubling the ring keeps the messages and their order.
  pub grow-Represents :
      (m : Mailbox A) (xs : List (StashedMessage A)) → Represents m xs → Represents (grow m) xs
  unfolding grow
  grow-Represents m xs r = record {
    room = omega (arith, length-grow m r.fits);
    head_inside = omega (arith, length-grow m r.fits);
    fits = omega (arith, length-grow m r.fits);
    tail_next = sym (rw zero-add (mod-eq_of_lt (omega (arith, length-grow m r.fits))));
    content = copied ∙ r.content;
  }
    where
      old : List (Option (StashedMessage A))
      old = slots_from m.buf m.head m.size

      copied : slots_from (grow m).buf 0 m.size ≡ old
      copied =
          subst (λ n. slots_from (grow m).buf 0 n ≡ old) (length-slots_from m.buf m.head m.size)
            (slots_from-fill (replicate (length m.buf * 2) none) 0 old (
              omega (
                arith,
                length-replicate {A = Option (StashedMessage A)} (length m.buf * 2) none,
                length-slots_from m.buf m.head m.size,
              )))

  map_snoc :
      (xs : List (StashedMessage A)) (msg : StashedMessage A)
      → map some (xs ++ msg ∷ []) ≡ map some xs ++ some msg ∷ []
  map_snoc xs msg = map-append some xs (msg ∷ [])

  -- A message put at the tail of a ring with a free slot is the last of the list.
  pub placed-Represents :
      (m : Mailbox A) (xs : List (StashedMessage A)) (msg : StashedMessage A)
      → Represents m xs
      → m.size < length m.buf
      → Represents (record (append_tail msg m) { size = m.size + 1 }) (xs ++ msg ∷ [])
  unfolding append_tail
  placed-Represents m xs msg r free = record {
    room = omega (arith, len);
    head_inside = omega (arith, len);
    fits = omega (arith, len);
    tail_next =
        rw (len, r.tail_next)
          (mod-add-mod (m.head + m.size) (length m.buf) 1
            ∙ ap (λ t. t % length m.buf) (omega arith));
    content =
        rw (r.tail_next, add-one, map_snoc xs msg, ← r.content)
          (slots_from-append m.buf m.head m.size (some msg) free);
  }
    where
      len : length (write m.buf m.tail (some msg)) ≡ length m.buf
      len =
          length-write_inside m.buf m.tail (some msg)
            (rw r.tail_next (mod-lt (m.head + m.size) r.room))

  -- Only the ring counts for what a mailbox holds.
  pub same_ring :
      (m m' : Mailbox A) (xs : List (StashedMessage A))
      → m.buf ≡ m'.buf
      → m.head ≡ m'.head
      → m.tail ≡ m'.tail
      → m.size ≡ m'.size
      → Represents m xs
      → Represents m' xs
  same_ring m m' xs b h t s r = record {
    room = rw (← b) r.room;
    head_inside = rw (← b, ← h) r.head_inside;
    fits = rw (← b, ← s) r.fits;
    tail_next = rw (← b, ← h, ← s, ← t) r.tail_next;
    content = rw (← b, ← h, ← s) r.content;
  }

  pub nonempty :
      (m : Mailbox A) (x : StashedMessage A) (xs : List (StashedMessage A))
      → Represents m (x ∷ xs)
      → m.size ≡ suc (length xs)
  nonempty m x xs r = size-length m (x ∷ xs) r

  pub split_content :
      (m : Mailbox A) (x : StashedMessage A) (xs : List (StashedMessage A))
      → Represents m (x ∷ xs)
      → (read m.buf m.head ≡ some x) × (slots_from m.buf (m.head + 1) (length xs) ≡ map some xs)
  unfolding slots_from
  split_content m x xs r =
      let c : slots_from m.buf m.head (suc (length xs)) ≡ some x ∷ map some xs =
        subst (λ n. slots_from m.buf m.head n ≡ some x ∷ map some xs) (nonempty m x xs r)
          r.content in
      (cc (c, mod-eq_of_lt r.head_inside), cc c)

  -- Clearing the head's slot takes the oldest message off.
  pub behead-Represents :
      (m : Mailbox A) (x : StashedMessage A) (xs : List (StashedMessage A))
      → Represents m (x ∷ xs)
      → Represents (record (drop_head m) { size = m.size - 1 }) xs
  unfolding drop_head
  behead-Represents m x xs r = record {
    room = omega (arith, len);
    head_inside = rw len (mod-lt (m.head + 1) r.room);
    fits = omega (arith, len);
    tail_next =
        rw (len, r.tail_next)
          (ap (λ t. t % length m.buf) shifted
            ∙ sym (mod-add-mod (m.head + 1) (length m.buf) (m.size - 1)));
    content =
        rw (len, fewer)
          (slots_from-behead m.buf m.head (length xs) none r.head_inside
              (omega (arith, r.fits, nonempty m x xs r))
            ∙ (split_content m x xs r).1);
  }
    where
      len : length (write m.buf m.head none) ≡ length m.buf
      len = length-write_inside m.buf m.head none r.head_inside

      shifted : m.head + m.size ≡ m.head + 1 + (m.size - 1)
      shifted = omega (arith, nonempty m x xs r)

      fewer : m.size - 1 ≡ length xs
      fewer = omega (arith, nonempty m x xs r)
