-- ===== src/Examples/Mailboxes.antt =====
-- A ring of four slots whose two messages wrap round its end, and sixteen messages put back at once.
use libeam.Shared.{ℕ, ◌≡◌, refl, List, [], ◌∷◌, none, some, true, false, arith, replicate}
use libeam.Mailbox.{
  StashedMessage, Mailbox, cast, call, drop_oldest, enqueue, dequeue, unshift, accepted, read,
  slots_from, replace_with, replace_capacity,
}
use libeam.Mailbox.Held.{Represents}
use libeam.Mailbox.Queue.{Agrees, offer, enqueue-offer}
use libeam.Mailbox.Bulk.{Taken, dequeue-Taken, unshift-Represents}
use libeam.Mailbox.Replace.{replace_with_loses, dequeue_times}

abbrev first_call : StashedMessage ℕ
first_call = record { type = call; message = 7; has_reject = true }

abbrev second_cast : StashedMessage ℕ
second_cast = record { type = cast; message = 8; has_reject = false }

abbrev new_cast : StashedMessage ℕ
new_cast = record { type = cast; message = 9; has_reject = false }

abbrev ring : Mailbox ℕ
ring = record {
  max_size = some 2;
  overflow_strategy = drop_oldest;
  buf = some second_cast ∷ none ∷ none ∷ some first_call ∷ [];
  head = 3;
  tail = 1;
  size = 2;
  dropped_count = 0;
}

abbrev held : List (StashedMessage ℕ)
held = first_call ∷ second_cast ∷ []

ring-Represents : Represents ring held
unfolding slots_from read
ring-Represents = record {
  room = omega arith;
  head_inside = omega arith;
  fits = omega arith;
  tail_next = refl;
  content = refl;
}

enqueue-offer_example : Agrees (enqueue new_cast ring) (offer (some 2) drop_oldest new_cast held)
enqueue-offer_example = enqueue-offer ring held new_cast ring-Represents (λ e. cc e)

dequeue-Taken_example : Taken held ring
dequeue-Taken_example = dequeue-Taken ring held ring-Represents

unshift-Represents_example :
    Represents
      (unshift (new_cast ∷ new_cast ∷ new_cast ∷ []) ring)
      (new_cast ∷ new_cast ∷ new_cast ∷ held)
    × ((unshift (new_cast ∷ new_cast ∷ new_cast ∷ []) ring).size ≡ 5)
unshift-Represents_example =
    unshift-Represents ring held (new_cast ∷ new_cast ∷ new_cast ∷ []) ring-Represents

abbrev sixteen : List (StashedMessage ℕ)
sixteen = replicate 16 second_cast

replace_with_loses_example :
    let emptied = dequeue_times 16 (replace_with sixteen ring) in
    let sent = enqueue new_cast emptied in
    (sent.1 ≡ accepted) × ((dequeue sent.0).0 ≡ none) × ((dequeue sent.0).1.size ≡ 0)
unfolding replace_capacity
replace_with_loses_example = replace_with_loses ring sixteen new_cast refl (omega arith) (λ e. cc e)
