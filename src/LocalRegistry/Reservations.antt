-- ===== src/LocalRegistry/Reservations.antt =====
-- A name that is reserved in src/local_registry.ts is nobody else's until the reservation expires.
use libeam.Shared.{
  ℕ, ◌+◌, ◌≤◌, String, ◌≡◌, refl, ap, ◌∙◌, Bool, true, false, ◌||◌, List, [], ◌∷◌, Option, none,
  some, arith, ltb, str_eq, eq_refl, if◌then◌else◌, Bool-cases, Option-cases, inl, inr,
}
use libeam.Shared.Dict.{
  Dict, lookup, insert, delete, delete_where, lookup-insert, lookup-insert_self, lookup-delete,
}
use libeam.LocalRegistry.{
  NameReservation, LocalRegistry, register, unregister, cleanup_expired_reservations, held_by_other,
  reserved_by_other, reserve_name, confirm_reservation, release_reservation,
}

-- The calls that may come before the other node asks: reservations under fresh identifiers, of any
-- name, registrations, unregistrations, and the confirmation or release of other reservations.
pub data Call : Type 0 where
  reserves : String → String → String → ℕ → Call
  confirms : String → String → Call
  releases : String → Call
  registers : String → String → String → Call
  unregisters : String → Call
  cleans_up : Call

step : ℕ × Call → LocalRegistry → LocalRegistry
unfolding reserve_name confirm_reservation cleanup_expired_reservations
step (now, reserves id name node_id ttl) s = (reserve_name now id name node_id ttl s).0
step (now, confirms id actor_id) s = (confirm_reservation now id actor_id s).0
step (now, releases id) s = release_reservation id s
step (now, registers name node_id actor_id) s = register name node_id actor_id s
step (now, unregisters name) s = unregister name s
step (now, cleans_up) s = cleanup_expired_reservations now s

pub run : List (ℕ × Call) → LocalRegistry → LocalRegistry
unfolding step
run [] s = s
run (c ∷ calls) s = run calls (step c s)

-- Whether a call comes in time and leaves the reservation with an identifier alone.
abbrev pub Spares : String → ℕ → ℕ × Call → Type 0
Spares kept end (now, reserves id name node_id ttl) = (now ≤ end) × (str_eq id kept ≡ false)
Spares kept end (now, confirms id actor_id) = (now ≤ end) × (str_eq id kept ≡ false)
Spares kept end (now, releases id) = (now ≤ end) × (str_eq id kept ≡ false)
Spares kept end (now, _) = now ≤ end

abbrev pub AllSpare : String → ℕ → List (ℕ × Call) → Type 0
AllSpare kept end [] = Unit
AllSpare kept end (c ∷ calls) = Spares kept end c × AllSpare kept end calls

reserved_by_other-lookup :
    (id : String) (r : NameReservation) (other : String) (reservations : Dict NameReservation)
    → lookup id reservations ≡ some r
    → str_eq r.node_id other ≡ false
    → reserved_by_other r.name other reservations ≡ true
unfolding reserved_by_other lookup
reserved_by_other-lookup id r other [] h d = absurd (cc)
reserved_by_other-lookup id r other ((i, q) ∷ reservations) h d =
    ground (arith, reserved_by_other-lookup id r other reservations, h, d, eq_refl r.name)

-- A reservation that has not expired stays when the expired ones go.
lookup-cleanup :
    (id : String) (r : NameReservation) (now : ℕ) (reservations : Dict NameReservation)
    → lookup id reservations ≡ some r
    → now ≤ r.expires_at
    → lookup id (delete_where (λ i q. ltb q.expires_at now) reservations) ≡ some r
unfolding lookup delete_where
lookup-cleanup id r now [] h l = absurd (cc)
lookup-cleanup id r now ((i, q) ∷ reservations) h l =
    ground (arith, lookup-cleanup id r now reservations, h, l)

reserve_name-none :
    (now : ℕ) (id name node_id : String) (ttl : ℕ) (s : LocalRegistry)
    → reserved_by_other name node_id (cleanup_expired_reservations now s).reservations ≡ true
    → (reserve_name now id name node_id ttl s).1 ≡ none
unfolding reserve_name cleanup_expired_reservations
reserve_name-none now id name node_id ttl s h = ground (arith, h)

reserve_name-some :
    (now : ℕ) (id name node_id : String) (ttl : ℕ) (s : LocalRegistry)
    → (reserve_name now id name node_id ttl s).1 ≡ some id
    → (reserve_name now id name node_id ttl s).0.reservations
      ≡ insert id
          (record { reservation_id = id; name = name; node_id = node_id; expires_at = now + ttl })
          (cleanup_expired_reservations now s).reservations
unfolding reserve_name cleanup_expired_reservations
reserve_name-some now id name node_id ttl s ok = ground (arith, ok)

-- A reservation under an identifier.
abbrev pub Holds : String → NameReservation → LocalRegistry → Type 0
Holds id r s = lookup id s.reservations ≡ some r

cleanup-Holds :
    (id : String) (r : NameReservation) (now : ℕ) (s : LocalRegistry)
    → now ≤ r.expires_at
    → Holds id r s
    → Holds id r (cleanup_expired_reservations now s)
unfolding cleanup_expired_reservations
cleanup-Holds id r now s l h = lookup-cleanup id r now s.reservations h l

delete-Holds :
    (kept id : String) (r : NameReservation) (s : LocalRegistry)
    → str_eq id kept ≡ false
    → Holds kept r s
    → lookup kept (delete id s.reservations) ≡ some r
delete-Holds kept id r s d h = ground (arith, lookup-delete id kept s.reservations, d, h)

reserve_name-Holds :
    (kept : String) (r : NameReservation) (now : ℕ) (id name node_id : String) (ttl : ℕ)
    (s : LocalRegistry)
    → now ≤ r.expires_at
    → str_eq id kept ≡ false
    → Holds kept r s
    → Holds kept r (reserve_name now id name node_id ttl s).0
unfolding reserve_name
reserve_name-Holds kept r now id name node_id ttl s l d h = decided (
    held_by_other node_id (lookup name s'.registry)
    || reserved_by_other name node_id s'.reservations)
  where
    s' : LocalRegistry
    s' = cleanup_expired_reservations now s

    fresh : NameReservation
    fresh = record { reservation_id = id; name = name; node_id = node_id; expires_at = now + ttl }

    held : Holds kept r s'
    held = cleanup-Holds kept r now s l h

    answer : Bool → LocalRegistry × Option String
    answer b =
        if b
        then (s', none)
        else (record s' { reservations = insert id fresh s'.reservations }, some id)

    decided : (b : Bool) → Holds kept r (answer b).0
    decided true = held
    decided false = ground (arith, lookup-insert id kept fresh s'.reservations, d, held)

confirm_reservation-Holds :
    (kept : String) (r : NameReservation) (now : ℕ) (id actor_id : String) (s : LocalRegistry)
    → str_eq id kept ≡ false
    → Holds kept r s
    → Holds kept r (confirm_reservation now id actor_id s).0
unfolding confirm_reservation
confirm_reservation-Holds kept r now id actor_id s d h =
    elim (Option-cases (lookup id s.reservations)) [
      | inl missing ↦ rw (confirm_reservation, missing) h
      | inr (q, found) ↦ elim (Bool-cases (ltb q.expires_at now)) [
        | inl late ↦ rw (confirm_reservation, found, late) (delete-Holds kept id r s d h)
        | inr early ↦ rw (confirm_reservation, found, early) (delete-Holds kept id r s d h)
      ]
    ]

step-Holds :
    (kept : String) (r : NameReservation) (c : ℕ × Call) (s : LocalRegistry)
    → Spares kept r.expires_at c
    → Holds kept r s
    → Holds kept r (step c s)
unfolding step release_reservation register unregister
step-Holds kept r (now, reserves id name node_id ttl) s (l, d) h =
    reserve_name-Holds kept r now id name node_id ttl s l d h
step-Holds kept r (now, confirms id actor_id) s (l, d) h =
    confirm_reservation-Holds kept r now id actor_id s d h
step-Holds kept r (now, releases id) s (l, d) h = delete-Holds kept id r s d h
step-Holds kept r (now, registers name node_id actor_id) s l h = h
step-Holds kept r (now, unregisters name) s l h = h
step-Holds kept r (now, cleans_up) s l h = cleanup-Holds kept r now s l h

run-Holds :
    (kept : String) (r : NameReservation) (calls : List (ℕ × Call)) (s : LocalRegistry)
    → AllSpare kept r.expires_at calls
    → Holds kept r s
    → Holds kept r (run calls s)
unfolding run
run-Holds kept r [] s all h = h
run-Holds kept r (c ∷ calls) s (first, all) h =
    run-Holds kept r calls (step c s) all (step-Holds kept r c s first h)

-- Once a node has reserved a name, no other node can reserve it before the reservation expires,
-- whatever calls come in between, as long as none of them confirms or releases that reservation, is
-- later than its end, or reserves under the same identifier, and the registry is not disconnected.
pub reserve_name-exclusive :
    (now later : ℕ) (id id' name node_id other : String) (ttl ttl' : ℕ) (s : LocalRegistry)
    (calls : List (ℕ × Call))
    → (reserve_name now id name node_id ttl s).1 ≡ some id
    → AllSpare id (now + ttl) calls
    → str_eq node_id other ≡ false
    → later ≤ now + ttl
    → (reserve_name later id' name other ttl'
        (run calls (reserve_name now id name node_id ttl s).0)).1
      ≡ none
reserve_name-exclusive now later id id' name node_id other ttl ttl' s calls ok all different l =
    let r : NameReservation = record {
      reservation_id = id;
      name = name;
      node_id = node_id;
      expires_at = now + ttl;
    } in
    let reserved : LocalRegistry = (reserve_name now id name node_id ttl s).0 in
    let held : Holds id r reserved =
      ap (lookup id) (reserve_name-some now id name node_id ttl s ok) ∙ lookup-insert_self id r _ in
    let kept : Holds id r (cleanup_expired_reservations later (run calls reserved)) =
      cleanup-Holds id r later (run calls reserved) l (run-Holds id r calls reserved all held) in
    reserve_name-none later id' name other ttl' (run calls reserved) (
      reserved_by_other-lookup id r other
        (cleanup_expired_reservations later (run calls reserved)).reservations kept different)

lookup-delete_self :
    (id : String) (reservations : Dict NameReservation) → lookup id (delete id reservations) ≡ none
lookup-delete_self id reservations = ground (arith, lookup-delete id id reservations, eq_refl id)

confirm_reservation-none :
    (now : ℕ) (id actor_id : String) (s : LocalRegistry)
    → lookup id s.reservations ≡ none
    → (confirm_reservation now id actor_id s).1 ≡ false
unfolding confirm_reservation
confirm_reservation-none now id actor_id s e = rw (confirm_reservation, e) refl

-- A reservation that is confirmed before it expires registers the name for the node and the actor,
-- and cannot be confirmed a second time.
pub confirm-reserve_name :
    (now later again : ℕ) (id name node_id actor_id : String) (ttl : ℕ) (s : LocalRegistry)
    → (reserve_name now id name node_id ttl s).1 ≡ some id
    → later ≤ now + ttl
    → let confirmed =
        confirm_reservation later id actor_id (reserve_name now id name node_id ttl s).0 in
      (confirmed.1 ≡ true)
      × (lookup name confirmed.0.registry
          ≡ some (record { node_id = node_id; actor_id = actor_id }))
      × ((confirm_reservation again id actor_id confirmed.0).1 ≡ false)
unfolding confirm_reservation
confirm-reserve_name now later again id name node_id actor_id ttl s ok l =
    let r : NameReservation = record {
      reservation_id = id;
      name = name;
      node_id = node_id;
      expires_at = now + ttl;
    } in
    let held : lookup id (reserve_name now id name node_id ttl s).0.reservations ≡ some r =
      ap (lookup id) (reserve_name-some now id name node_id ttl s ok) ∙ lookup-insert_self id r _ in
    let lasts : ltb (now + ttl) later ≡ false = ground arith in
    let gone : lookup id
          (confirm_reservation later id actor_id
            (reserve_name now id name node_id ttl s).0).0.reservations
        ≡ none =
      rw (confirm_reservation, held, lasts) (lookup-delete_self id _) in
    (
      rw (confirm_reservation, held, lasts) refl,
      rw (confirm_reservation, held, lasts) (lookup-insert_self name _ _),
      confirm_reservation-none again id actor_id _ gone,
    )
