-- ===== src/Mailbox.antt =====
-- src/mailbox.ts: the class BoundedMailbox, a ring buffer in a JavaScript array that grows, and
-- the StashedMessage of src/actor.ts that it holds. A method returns the new mailbox with its
-- result; the calls that an overflow rejects are part of the result.
pub mod Ring
pub mod Held
pub mod Queue
pub mod Bulk
pub mod Replace
use Prim.Native.Nat.{bit_or}
use libeam.Shared.{
  ℕ, zero, suc, ◌+◌, ◌-◌, ◌*◌, ◌/◌, ◌%◌, ◌^◌, ◌≤◌, max, ◌≡◌, Bool, true, false, ◌&&◌, List, [], ◌∷◌,
  map, Option, none, some, length, replicate, ltb, leb, ◌==◌, if◌then◌else◌, or_else,
}

pub data MessageType : Type 0 where
  cast call : MessageType

-- The body is any value; of the functions `resolve` and `reject` only their presence is read.
pub record StashedMessage (A : Type 0) : Type 0 where
  pub type : MessageType
  pub message : A
  pub has_reject : Bool

pub data OverflowStrategy : Type 0 where
  drop_newest drop_oldest error : OverflowStrategy

pub record Config : Type 0 where
  pub max_size : Option ℕ
  pub overflow_strategy : Option OverflowStrategy

-- The array's slots: `none` is a slot that holds `undefined`.
abbrev pub Slots : Type 0 → Type 0
Slots A = List (Option (StashedMessage A))

pub record Mailbox (A : Type 0) : Type 0 where
  pub max_size : Option ℕ
  pub overflow_strategy : OverflowStrategy
  pub buf : Slots A
  pub head : ℕ
  pub tail : ℕ
  pub size : ℕ
  pub dropped_count : ℕ

-- `next_pow2 0` is 0: all the steps leave -1 as it is. The others are exact below 2 ^ 31.
unfoldable pub next_pow2 : ℕ → ℕ
next_pow2 zero = 0
next_pow2 (suc v) =
    let v1 = bit_or v (v / 2 ^ 1) in
    let v2 = bit_or v1 (v1 / 2 ^ 2) in
    let v4 = bit_or v2 (v2 / 2 ^ 4) in
    let v8 = bit_or v4 (v4 / 2 ^ 8) in let v16 = bit_or v8 (v8 / 2 ^ 16) in v16 + 1

-- `this.maxSize !== undefined && this.size >= this.maxSize`.
abbrev at_least : ℕ → Option ℕ → Bool
at_least n none = false
at_least n (some limit) = leb limit n

-- `accepted` and `refused` are the answers true and false; `mailbox_full` is the exception.
pub data Answer : Type 0 where
  accepted refused mailbox_full : Answer

module _ {A : Type 0} where
  -- `buf[i]`, which is `undefined` past the end.
  unfoldable pub read : Slots A → ℕ → Option (StashedMessage A)
  read [] i = none
  read (x ∷ xs) zero = x
  read (x ∷ xs) (suc i) = read xs i

  -- `buf[i] = v`. Past the end a JavaScript array grows up to the index.
  pub write : Slots A → ℕ → Option (StashedMessage A) → Slots A
  write [] zero v = v ∷ []
  write [] (suc i) v = none ∷ write [] i v
  write (x ∷ xs) zero v = v ∷ xs
  write (x ∷ xs) (suc i) v = x ∷ write xs i v

  -- A loop that writes a list into the slots from `i` on.
  pub fill : Slots A → ℕ → List (Option (StashedMessage A)) → Slots A
  fill b i [] = b
  fill b i (x ∷ xs) = fill (write b i x) (i + 1) xs

  -- The loop that reads `n` slots, at `(head + i) % buf.length`; `at` is `head + i`.
  unfoldable pub slots_from : Slots A → ℕ → ℕ → List (Option (StashedMessage A))
  slots_from b at zero = []
  slots_from b at (suc n) = read b (at % length b) ∷ slots_from b (at + 1) n

  pub init : Config → Mailbox A
  init config = record {
    max_size = config.max_size;
    overflow_strategy = or_else config.overflow_strategy drop_newest;
    buf = replicate 16 none;
    head = 0;
    tail = 0;
    size = 0;
    dropped_count = 0;
  }

  pub is_full : Mailbox A → Bool
  is_full m = at_least m.size m.max_size

  pub grow : Mailbox A → Mailbox A
  grow m = record m {
    buf = fill (replicate (length m.buf * 2) none) 0 (slots_from m.buf m.head m.size);
    head = 0;
    tail = m.size;
  }

  -- The three lines that put a message at the tail.
  pub append_tail : StashedMessage A → Mailbox A → Mailbox A
  append_tail msg m =
      let buf = write m.buf m.tail (some msg) in
      record m { buf = buf; tail = (m.tail + 1) % length buf }

  pub drop_head : Mailbox A → Mailbox A
  drop_head m =
      let buf = write m.buf m.head none in record m { buf = buf; head = (m.head + 1) % length buf }

  -- What an overflow rejects: the dropped message, if it is a call that has a `reject`.
  abbrev rejection : Option (StashedMessage A) → List (StashedMessage A)
  rejection none = []
  rejection (some msg) = elim msg.type [
    | cast ↦ []
    | call ↦ if msg.has_reject then msg ∷ [] else []
  ]

  enqueue_room : StashedMessage A → Mailbox A → Mailbox A
  unfolding append_tail grow
  enqueue_room msg m =
      let roomy = if m.size == length m.buf then grow m else m in
      let placed = append_tail msg roomy in record placed { size = roomy.size + 1 }

  overflow :
      OverflowStrategy → StashedMessage A → Mailbox A → Mailbox A × Answer × List (StashedMessage A)
  unfolding append_tail drop_head
  overflow drop_newest msg m = (m, refused, [])
  overflow drop_oldest msg m =
      (append_tail msg (drop_head m), accepted, rejection (read m.buf m.head))
  overflow error msg m = (m, mailbox_full, [])

  pub enqueue : StashedMessage A → Mailbox A → Mailbox A × Answer × List (StashedMessage A)
  unfolding is_full enqueue_room overflow
  enqueue msg m =
      if is_full m
      then overflow m.overflow_strategy msg (record m { dropped_count = m.dropped_count + 1 })
      else (enqueue_room msg m, accepted, [])

  pub dequeue : Mailbox A → Option (StashedMessage A) × Mailbox A
  unfolding drop_head
  dequeue m =
      let taken = drop_head m in
      if m.size == 0 then (none, m) else (read m.buf m.head, record taken { size = m.size - 1 })

  -- `while (size + msgs.length > buf.length) grow()`.
  pub ensure_space : ℕ → ℕ → Mailbox A → Mailbox A
  unfolding grow
  ensure_space zero needed m = m
  ensure_space (suc fuel) needed m =
      let rest = ensure_space fuel needed (grow m) in if ltb (length m.buf) needed then rest else m

  -- One round of the loop of `unshift`; `head - 1 + length` is written so that it stays in ℕ.
  pub prepend : StashedMessage A → Mailbox A → Mailbox A
  prepend msg m =
      let head = (m.head + length m.buf - 1) % length m.buf in
      record m { head = head; buf = write m.buf head (some msg); size = m.size + 1 }

  -- The loop runs from the last message to the first.
  prepend_all : List (StashedMessage A) → Mailbox A → Mailbox A
  unfolding prepend
  prepend_all [] m = m
  prepend_all (msg ∷ msgs) m = prepend msg (prepend_all msgs m)

  pub unshift : List (StashedMessage A) → Mailbox A → Mailbox A
  unfolding ensure_space prepend_all
  unshift msgs m =
      let needed = m.size + length msgs in prepend_all msgs (ensure_space needed needed m)

  pub clear : Mailbox A → Mailbox A
  clear m = record m { buf = replicate (length m.buf) none; head = 0; tail = 0; size = 0 }

  pub to_array : Mailbox A → List (Option (StashedMessage A))
  unfolding slots_from
  to_array m = slots_from m.buf m.head m.size

  pub drain : Mailbox A → List (Option (StashedMessage A)) × Mailbox A
  unfolding to_array clear
  drain m = (to_array m, clear m)

  -- The slots that `replaceWith` begins to fill.
  unfoldable pub replace_capacity : Mailbox A → List (StashedMessage A) → ℕ
  unfolding next_pow2
  replace_capacity m msgs =
      let needed = max 16 (next_pow2 (length msgs)) in
      if ltb (length m.buf) needed then needed else length m.buf

  pub replace_with : List (StashedMessage A) → Mailbox A → Mailbox A
  unfolding fill replace_capacity
  replace_with msgs m = record m {
    buf = fill (replicate (replace_capacity m msgs) none) 0 (map some msgs);
    head = 0;
    tail = length msgs;
    size = length msgs;
  }
