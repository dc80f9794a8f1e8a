-- ===== src/Mailbox/Ring.antt =====
-- The ring of src/mailbox.ts: reads and writes of a growing array at indices modulo its length.
use native.Mathlib.Nat.{
  mod-add-mod, add-mod_right, mod-lt, div-add-mod, mod-eq_of_lt, add-zero, mod-mod,
}
use mathlib.Core.Path.{ap₂}
use libeam.Shared.{
  ℕ, zero, suc, ◌+◌, ◌-◌, ◌%◌, ◌≤◌, ◌<◌, max, ◌≡◌, refl, sym, ap, subst, ◌∙◌, ◌≢◌, List, [], ◌∷◌,
  ◌++◌, Option, none, arith, length, replicate, ◌==◌, if◌then◌else◌,
}
use libeam.Mailbox.{StashedMessage, Slots, read, write, fill, slots_from}

-- Two slots less than one round apart are different.
pub mod_ne : (a b n : ℕ) → a < b → b < a + n → a % n ≢ b % n
mod_ne a b n h k e = grind (arith, div-add-mod a n, div-add-mod b n)

pub suc_mod_congr : (a b n : ℕ) → a % n ≡ b % n → (a + 1) % n ≡ (b + 1) % n
suc_mod_congr a b n e = cc (mod-add-mod a n 1, mod-add-mod b n 1)

-- The slot behind the one before the head is the head's.
pub front_next : (head n : ℕ) → 0 < n → ((head + n - 1) % n + 1) % n ≡ head % n
front_next head n h =
    mod-add-mod (head + n - 1) n 1 ∙ (ap (λ t. t % n) (omega arith) ∙ add-mod_right head n)

module _ {A : Type 0} where
  pub read-write :
      (b : Slots A) (i j : ℕ) (v : Option (StashedMessage A))
      → read (write b i v) j ≡ (if i == j then v else read b j)
  unfolding read write
  read-write [] zero zero v = refl
  read-write [] zero (suc j) v = ground arith
  read-write [] (suc i) zero v = ground arith
  read-write [] (suc i) (suc j) v = ground (arith, read-write [] i j v)
  read-write (x ∷ b) zero zero v = refl
  read-write (x ∷ b) zero (suc j) v = ground arith
  read-write (x ∷ b) (suc i) zero v = ground arith
  read-write (x ∷ b) (suc i) (suc j) v = ground (arith, read-write b i j v)

  pub length-write :
      (b : Slots A) (i : ℕ) (v : Option (StashedMessage A))
      → length (write b i v) ≡ max (length b) (i + 1)
  unfolding write
  length-write [] zero v = omega arith
  length-write [] (suc i) v = omega (arith, length-write [] i v)
  length-write (x ∷ b) zero v = omega arith
  length-write (x ∷ b) (suc i) v = omega (arith, length-write b i v)

  pub length-write_inside :
      (b : Slots A) (i : ℕ) (v : Option (StashedMessage A))
      → i < length b
      → length (write b i v) ≡ length b
  length-write_inside b i v h = omega (arith, length-write b i v)

  pub length-slots_from : (b : Slots A) (at n : ℕ) → length (slots_from b at n) ≡ n
  unfolding slots_from
  length-slots_from b at zero = refl
  length-slots_from b at (suc n) = ap suc (length-slots_from b (at + 1) n)

  -- The slots that a loop reads depend on the start modulo the length only.
  pub slots_from_mod :
      (b : Slots A) (at at' n : ℕ)
      → at % length b ≡ at' % length b
      → slots_from b at n ≡ slots_from b at' n
  unfolding slots_from
  slots_from_mod b at at' zero e = refl
  slots_from_mod b at at' (suc n) e =
      cc (e, slots_from_mod b (at + 1) (at' + 1) n (suc_mod_congr at at' (length b) e))

  pub slots_from_snoc :
      (b : Slots A) (at n : ℕ)
      → slots_from b at (suc n) ≡ slots_from b at n ++ read b ((at + n) % length b) ∷ []
  unfolding slots_from
  slots_from_snoc b at zero = rw add-zero
  slots_from_snoc b at (suc n) =
      let e : at + 1 + n ≡ at + suc n = omega arith in
      ap (◌∷◌ (read b (at % length b))) (rw (← e) (slots_from_snoc b (at + 1) n))

  read-write_ne :
      (b : Slots A) (i j : ℕ) (v : Option (StashedMessage A))
      → i ≢ j
      → read (write b i v) j ≡ read b j
  read-write_ne b i j v h = ground (arith, read-write b i j v)

  -- A write to a slot outside the run leaves the run as it was.
  pub slots_from-write :
      (b : Slots A) (at n t : ℕ) (v : Option (StashedMessage A))
      → 0 < length b
      → at + n ≤ t
      → t < at + length b
      → slots_from (write b (t % length b) v) at n ≡ slots_from b at n
  unfolding slots_from
  slots_from-write b at zero t v pos lo hi = refl
  slots_from-write b at (suc n) t v pos lo hi = cc (
    length-write_inside b (t % length b) v (mod-lt t pos),
    slots_from-write b (at + 1) n t v pos (omega arith) (omega arith),
    read-write_ne b (t % length b) (at % length b) v
        (λ e. mod_ne at t (length b) (omega arith) hi (sym e)),
  )

  pub read-write_self :
      (b : Slots A) (i : ℕ) (v : Option (StashedMessage A)) → read (write b i v) i ≡ v
  read-write_self b i v = ground (arith, read-write b i i v)

  pub read-replicate-none : (n j : ℕ) → read {A = A} (replicate n none) j ≡ none
  unfolding read
  read-replicate-none zero j = refl
  read-replicate-none (suc n) zero = refl
  read-replicate-none (suc n) (suc j) = read-replicate-none n j

  -- `fill` writes one slot for each value.
  pub read-fill_below :
      (b : Slots A) (i j : ℕ) (xs : List (Option (StashedMessage A)))
      → j < i
      → read (fill b i xs) j ≡ read b j
  unfolding fill
  read-fill_below b i j [] h = refl
  read-fill_below b i j (x ∷ xs) h =
      read-fill_below (write b i x) (i + 1) j xs (omega arith) ∙ ground (arith, read-write b i j x)

  pub length-fill :
      (b : Slots A) (i : ℕ) (xs : List (Option (StashedMessage A)))
      → i + length xs ≤ length b
      → length (fill b i xs) ≡ length b
  unfolding fill
  length-fill b i [] h = refl
  length-fill b i (x ∷ xs) h = omega (
    arith,
    length-write b i x,
    length-fill (write b i x) (i + 1) xs (omega (arith, length-write b i x)),
  )

  -- Read back from where it starts, a run that `fill` wrote is the list.
  pub slots_from-fill :
      (b : Slots A) (i : ℕ) (xs : List (Option (StashedMessage A)))
      → i + length xs ≤ length b
      → slots_from (fill b i xs) i (length xs) ≡ xs
  unfolding slots_from fill
  slots_from-fill b i [] h = refl
  slots_from-fill b i (x ∷ xs) h =
      let room : i + 1 + length xs ≤ length (write b i x) = omega (arith, length-write b i x) in
      let whole : length (fill (write b i x) (i + 1) xs) ≡ length b =
        omega (arith, length-fill (write b i x) (i + 1) xs room, length-write b i x) in
      let start : i % length (fill (write b i x) (i + 1) xs) ≡ i = mod-eq_of_lt (omega arith) in
      cc (
        start,
        read-fill_below (write b i x) (i + 1) i xs (omega arith),
        read-write_self b i x,
        slots_from-fill (write b i x) (i + 1) xs room,
      )

  -- A value written behind a run of the ring makes the run longer by that value.
  pub slots_from-append :
      (b : Slots A) (at n : ℕ) (v : Option (StashedMessage A))
      → n < length b
      → slots_from (write b ((at + n) % length b) v) at (suc n) ≡ slots_from b at n ++ v ∷ []
  slots_from-append b at n v h = cc (
    slots_from_snoc (write b ((at + n) % length b) v) at n,
    length-write_inside b ((at + n) % length b) v (mod-lt (at + n) (omega arith)),
    slots_from-write b at n (at + n) v (omega arith) (omega arith) (omega arith),
    read-write_self b ((at + n) % length b) v,
  )

  -- Clearing the head's slot and moving the head takes the first value off the run.
  pub slots_from-behead :
      (b : Slots A) (head n : ℕ) (v : Option (StashedMessage A))
      → head < length b
      → suc n ≤ length b
      → slots_from (write b head v) ((head + 1) % length b) n ≡ slots_from b (head + 1) n
  slots_from-behead b head n v h room = cc (
    slots_from_mod (write b head v) ((head + 1) % length b) (head + 1) n
        (rw (length-write_inside b head v h) (mod-mod (head + 1) (length b))),
    slots_from-write b (head + 1) n (head + length b) v (omega arith) (omega arith) (omega arith),
    add-mod_right head (length b),
    mod-eq_of_lt h,
  )

  -- A value written in the slot in front of a run is the first of the longer run.
  pub slots_from-prepend :
      (b : Slots A) (front head n : ℕ) (v : Option (StashedMessage A))
      → front < length b
      → (front + 1) % length b ≡ head % length b
      → n < length b
      → slots_from (write b front v) front (suc n) ≡ v ∷ slots_from b head n
  unfolding slots_from
  slots_from-prepend b front head n v inside next h =
      ap₂ ◌∷◌ (cc (len, mod-eq_of_lt inside, read-write_self b front v)) (
        subst (λ i. slots_from (write b i v) (front + 1) n ≡ slots_from b head n) round
          (slots_from-write b (front + 1) n (front + length b) v (omega arith) (omega arith)
              (omega arith)
            ∙ slots_from_mod b (front + 1) head n next))
    where
      len : length (write b front v) ≡ length b
      len = length-write_inside b front v inside

      round : (front + length b) % length b ≡ front
      round = add-mod_right front (length b) ∙ mod-eq_of_lt inside
