-- ===== src/GenStage/Producer/Buffer.antt =====
-- The bound on the buffer of the producer in src/gen_stage.ts.
use libeam.Shared.{
  ℕ, zero, suc, ◌+◌, ◌-◌, ◌≤◌, min, ◌≡◌, refl, sym, ap, ◌∙◌, inl, inr, String, false, List, [], ◌∷◌,
  ◌++◌, append-nil, Option, none, some, ◌>>=◌, arith, ltb, ◌==◌, length, take, drop, length-append,
  length-take, length-drop, Bool-cases,
}
use libeam.GenStage.{Delivery, DispatchResult}
use libeam.GenStage.Producer.{
  Dispatcher, LeavesLess, BufferKeep, first, last, DemandMode, accumulate, forward, Producer, kept,
  add_to_buffer, buffer_rest, dispatch_or_buffer, dispatch_new, produce, forward_demand, handle_ask,
  switch_demand_mode,
}

nothing_over : (most n : ℕ) → ltb most n ≡ false → n - most ≡ 0
nothing_over most n h = ground (arith, h)

used_up : (most n : ℕ) → ltb 0 (most - n) ≡ false → most - n ≡ 0
used_up most n h = ground (arith, h)

module _ {ℓ} {A : Type ℓ} where
  take-append :
      (n : ℕ) (xs ys : List A) → length xs ≤ n → take n (xs ++ ys) ≡ xs ++ take (n - length xs) ys
  take-append n [] ys h = ap (λ k. take k ys) (omega arith)
  take-append zero (x ∷ xs) ys h = absurd (omega arith)
  take-append (suc n) (x ∷ xs) ys h =
      ap (λ zs. x ∷ zs)
        (take-append n xs ys (omega arith) ∙ ap (λ k. xs ++ take k ys) (omega arith))

  -- What the buffer holds after events are added to one that is within its size: the last of them
  -- all that fit, or the first, as the producer was told to keep.
  abbrev pub latest : BufferKeep → ℕ → List A → List A
  latest last most all = drop (length all - most) all
  latest first most all = take most all

  kept_lem :
      (keep : BufferKeep) (most : ℕ) (buffer events : List A)
      → length buffer ≤ most
      → kept keep most buffer events ≡ latest keep most (buffer ++ events)
  kept_lem last most buffer events h = elim (Bool-cases (ltb most (length (buffer ++ events)))) [
    | inl over ↦ rw (over) refl
    | inr fits ↦ rw (fits) (
        sym (
          ap (λ n. drop n (buffer ++ events)) (nothing_over most (length (buffer ++ events)) fits)))
  ]
  kept_lem first most buffer events h = elim (Bool-cases (ltb 0 (most - length buffer))) [
    | inl space ↦ rw (space) (sym (take-append most buffer events h))
    | inr full ↦
        rw (full, take-append most buffer events h)
          (sym (
            ap (λ k. buffer ++ take k events) (used_up most (length buffer) full)
            ∙ append-nil buffer))
  ]

  length-latest :
      (keep : BufferKeep) (most : ℕ) (all : List A)
      → length (latest keep most all) ≡ min most (length all)
  length-latest last most all = omega (arith, length-drop (length all - most) all)
  length-latest first most all = length-take most all

module _ {ℓ κ} {A S : Type ℓ} {D : Type κ} where
  abbrev pub IsBounded : Producer A S D → Type 0
  IsBounded s = length s.buffer ≤ s.buffer_size

  -- A buffer within its size takes in what fits and drops the rest: with `last` the oldest go, with
  -- `first` the newest; the number of events that are left is the size, or all of them.
  pub add_to_buffer_lem :
      (events : List A) (s : Producer A S D)
      → IsBounded s
      → ((add_to_buffer events s).buffer ≡ latest s.buffer_keep s.buffer_size (s.buffer ++ events))
        × (length (add_to_buffer events s).buffer
            ≡ min s.buffer_size (length s.buffer + length events))
  unfolding add_to_buffer
  add_to_buffer_lem events s h = (
    kept_lem s.buffer_keep s.buffer_size s.buffer events h,
    ap length (kept_lem s.buffer_keep s.buffer_size s.buffer events h)
        ∙ length-latest s.buffer_keep s.buffer_size (s.buffer ++ events)
        ∙ ap (min s.buffer_size) (length-append s.buffer events),
  )

  add_to_buffer-IsBounded :
      (events : List A) (s : Producer A S D) → IsBounded s → IsBounded (add_to_buffer events s)
  unfolding add_to_buffer
  add_to_buffer-IsBounded events s h =
      let (same, count) = add_to_buffer_lem events s h in omega (arith, count)

-- A handler ends without an exception, with a buffer within its size.
abbrev pub Ends {ℓ κ} :
    {A S : Type ℓ} {D : Type κ} → Option (Producer A S D × List (Delivery A)) → Type 0
Ends none = ⊥
Ends (some (s, out)) = IsBounded s

module _ {ℓ κ} {A S : Type ℓ} {D : Type κ} (ops : Dispatcher A D)
    (handle_demand : ℕ → S → List A × S)
    (leaves_less : (events : List A) (d : D) → LeavesLess events (ops.dispatch events d).1) where
  buffer_rest-IsBounded :
      (rest : List A) (s : Producer A S D)
      → IsBounded s
      → IsBounded (buffer_rest ops handle_demand rest s)
  unfolding buffer_rest
  buffer_rest-IsBounded [] s h = h
  buffer_rest-IsBounded (event ∷ rest) s h = add_to_buffer-IsBounded (event ∷ rest) s h

  dispatch_or_buffer-IsBounded :
      (events : List A) (s : Producer A S D)
      → IsBounded s
      → Ends (dispatch_or_buffer ops handle_demand events s)
  unfolding dispatch_or_buffer
  dispatch_or_buffer-IsBounded events s h = elim (Bool-cases (ops.has_subscribers s.dispatcher)) [
    | inl there ↦
        rw (there) (go (ops.dispatch events s.dispatcher).1 (leaves_less events s.dispatcher))
    | inr nobody ↦ rw (nobody) (add_to_buffer-IsBounded events s h)
  ]
    where
      go :
          (result : Option (DispatchResult A))
          → LeavesLess events result
          → Ends (
              result >>= (λ r. some (
                buffer_rest ops handle_demand r.remaining
                    (record s { dispatcher = (ops.dispatch events s.dispatcher).0 }),
                r.dispatched,
              )))
      go none l = absurd l
      go (some r) l = buffer_rest-IsBounded r.remaining _ h

  dispatch_new-IsBounded :
      (events : List A) (s : Producer A S D)
      → IsBounded s
      → Ends (dispatch_new ops handle_demand events s)
  unfolding dispatch_new
  dispatch_new-IsBounded [] s h = h
  dispatch_new-IsBounded (event ∷ events) s h = dispatch_or_buffer-IsBounded (event ∷ events) s h

  forward_demand-IsBounded :
      (mode : DemandMode) (n : ℕ) (s : Producer A S D)
      → IsBounded s
      → Ends (forward_demand ops handle_demand mode n s)
  unfolding forward_demand produce
  forward_demand-IsBounded mode zero s h = h
  forward_demand-IsBounded accumulate (suc n) s h = h
  forward_demand-IsBounded forward (suc n) s h =
      dispatch_new-IsBounded (handle_demand (suc n) s.user_state).0
        (record s { user_state = (handle_demand (suc n) s.user_state).1 }) h

  and_then :
      (before : List (Delivery A)) (o : Option (Producer A S D × List (Delivery A)))
      → Ends o
      → Ends (o >>= (λ r. some (r.0, before ++ r.1)))
  and_then before none h = absurd h
  and_then before (some r) h = h

  -- Whatever the callback gives, a call that asks for events ends without an exception and keeps the
  -- buffer within its size, over any dispatcher that throws none and leaves no more events over than
  -- it was given; so does the switch of the demand mode.
  pub handle_ask-IsBounded :
      (tag : String) (demand : ℕ) (s : Producer A S D)
      → IsBounded s
      → Ends (handle_ask ops handle_demand tag demand s)
        × Ends (switch_demand_mode ops handle_demand s)
  unfolding handle_ask switch_demand_mode
  handle_ask-IsBounded tag demand s h =
      (asked, forward_demand-IsBounded forward s.accumulated_demand _ h)
    where
      go :
          (result : Option (DispatchResult A))
          → LeavesLess s.buffer result
          → Ends (
              result >>= (λ r.
                forward_demand ops handle_demand s.demand_mode
                  (ops.ask tag demand s.dispatcher).1
                  (record s {
                    dispatcher = (ops.dispatch s.buffer (ops.ask tag demand s.dispatcher).0).0;
                    buffer = r.remaining;
                  })
                >>= (λ out. some (out.0, r.dispatched ++ out.1))))
      go none l = absurd l
      go (some r) l = and_then r.dispatched _ (
          forward_demand-IsBounded s.demand_mode (ops.ask tag demand s.dispatcher).1 _
            (omega (arith, l, h)))

      asked : Ends (handle_ask ops handle_demand tag demand s)
      asked = elim (Bool-cases (demand == 0)) [
        | inl nothing ↦ rw (handle_ask, nothing) h
        | inr some_demand ↦
            rw (handle_ask, some_demand)
              (go _ (leaves_less s.buffer (ops.ask tag demand s.dispatcher).0))
      ]
