-- ===== src/Examples/Names.antt =====
-- Runs of the local registry of src/local_registry.ts.
use libeam.Shared.{ℕ, List, ◌≡◌, refl, [], ◌∷◌, none, arith}
use libeam.Shared.Dict.{lookup, delete_where}
use libeam.LocalRegistry.{
  LocalRegistry, reserve_name, cleanup_expired_reservations, reserved_by_other,
}
use libeam.LocalRegistry.Reservations.{
  Call, reserves, confirms, releases, unregisters, cleans_up, run, reserve_name-exclusive,
}

abbrev start : LocalRegistry
start = record {
  registry = ("old", record { node_id = "n2"; actor_id = "a0" }) ∷ [];
  reservations =
      ("r0", record { reservation_id = "r0"; name = "job"; node_id = "n2"; expires_at = 5 }) ∷ [];
}

-- Another name is reserved and confirmed in between, the same node asks again, and the expired
-- reservations are cleaned up.
abbrev between : List (ℕ × Call)
between =
    (20, reserves "r3" "task" "n2" 100)
    ∷ (30, confirms "r3" "a3")
    ∷ (35, reserves "r4" "job" "n1" 5)
    ∷ (45, cleans_up)
    ∷ (50, releases "r4")
    ∷ (55, unregisters "job")
    ∷ []

reserve_name-exclusive_example :
    (reserve_name 60 "r2" "job" "n2" 100
      (run between (reserve_name 10 "r1" "job" "n1" 50 start).0)).1
    ≡ none
unfolding reserve_name cleanup_expired_reservations reserved_by_other lookup delete_where
reserve_name-exclusive_example =
    reserve_name-exclusive 10 60 "r1" "r2" "job" "n1" "n2" 50 100 start between refl
      (
        (omega arith, refl),
        (
          (omega arith, refl),
          ((omega arith, refl), (omega arith, ((omega arith, refl), (omega arith, tt)))),
        ),
      )
      refl (omega arith)
