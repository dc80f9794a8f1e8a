-- ===== src/Examples/Registries.antt =====
-- Registries of two nodes, and three registrations whose order of arrival decides.
use libeam.Shared.{ℕ, String, ◌≡◌, refl, List, [], ◌∷◌, some, arith}
use libeam.Shared.Dict.{lookup}
use libeam.VectorClock.{VectorClock, compare, get}
use libeam.RegistrySync.{ActorRegistration, RegistrySync, register, init}
use libeam.RegistrySync.Invariant.{
  IsSound, Call, registers, unregisters, receives, run, run-init-IsSound,
}
use libeam.RegistrySync.Conflicts.{receive_all, three_diverge}

abbrev counter_on : String → ℕ → VectorClock → ActorRegistration
counter_on node_id generation clock = record {
  name = "counter";
  node_id = node_id;
  actor_id = "i1";
  generation = generation;
  vector_clock = clock;
}

-- n1 registers; n2, whose wall clock is behind, knows of it and registers anew; n3 knows of neither.
abbrev on_n1 : ActorRegistration
on_n1 = counter_on "n1" 100 (("n1", 1) ∷ [])

abbrev on_n2 : ActorRegistration
on_n2 = counter_on "n2" 50 (("n1", 1) ∷ ("n2", 1) ∷ [])

abbrev on_n3 : ActorRegistration
on_n3 = counter_on "n3" 70 (("n3", 1) ∷ [])

abbrev calls : List Call
calls =
    registers "counter" "n1" "i0" 10
    ∷ receives register on_n2
    ∷ unregisters "counter"
    ∷ registers "counter" "n1" "i1" 20
    ∷ []

abbrev node : RegistrySync
node = run (init "n1") calls

run-init-IsSound_example : IsSound (run (init "n1") calls)
unfolding lookup
run-init-IsSound_example = run-init-IsSound "n1" calls (tt, ((refl, (refl, tt)), (tt, (tt, tt))))

three_diverge_example :
    (lookup "counter" (receive_all (on_n1 ∷ on_n2 ∷ on_n3 ∷ []) (init "n4")).registrations
      ≡ some on_n3)
    × (lookup "counter" (receive_all (on_n2 ∷ on_n3 ∷ on_n1 ∷ []) (init "n4")).registrations
        ≡ some on_n1)
    × (lookup "counter" (receive_all (on_n3 ∷ on_n1 ∷ on_n2 ∷ []) (init "n4")).registrations
        ≡ some on_n2)
unfolding init lookup compare get
three_diverge_example =
    three_diverge on_n1 on_n2 on_n3 (init "n4") refl refl refl refl refl refl (omega arith)
      (omega arith)

abbrev crowded : RegistrySync
crowded = record {
  node_id = "n1";
  local_clock = [];
  registrations = ("counter", on_n2) ∷ ("other", on_n3) ∷ [];
}
