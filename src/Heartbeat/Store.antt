-- ===== src/Heartbeat/Store.antt =====
-- Reads and writes of the store of peer states that stands for the objects of src/heartbeat.ts.
use libeam.Shared.{
  ℕ, zero, suc, ◌≡◌, refl, List, [], ◌∷◌, ◌++◌, Option, none, some, arith, ◌==◌, if◌then◌else◌,
  length, get_elem?,
}
use libeam.Heartbeat.{PeerHeartbeatState, set_object}

-- What a slot holds after a write to it: nothing where there is no slot.
abbrev pub overwritten : PeerHeartbeatState → Option PeerHeartbeatState → Option PeerHeartbeatState
overwritten o none = none
overwritten o (some old) = some o

pub get_elem?-set_object :
    (xs : List PeerHeartbeatState) (i j : ℕ) (o : PeerHeartbeatState)
    → get_elem? (set_object xs i o) j
      ≡ (if i == j then overwritten o (get_elem? xs j) else get_elem? xs j)
unfolding set_object
get_elem?-set_object [] i j o = ground arith
get_elem?-set_object (x ∷ xs) zero zero o = refl
get_elem?-set_object (x ∷ xs) zero (suc j) o = ground arith
get_elem?-set_object (x ∷ xs) (suc i) zero o = ground arith
get_elem?-set_object (x ∷ xs) (suc i) (suc j) o = ground (arith, get_elem?-set_object xs i j o)

pub get_elem?-append_last :
    (xs : List PeerHeartbeatState) (o : PeerHeartbeatState)
    → get_elem? (xs ++ o ∷ []) (length xs) ≡ some o
get_elem?-append_last [] o = refl
get_elem?-append_last (x ∷ xs) o = get_elem?-append_last xs o

-- A new object leaves the old references as they are.
pub get_elem?-append_old :
    (xs : List PeerHeartbeatState) (o p : PeerHeartbeatState) (i : ℕ)
    → get_elem? xs i ≡ some p
    → get_elem? (xs ++ o ∷ []) i ≡ some p
get_elem?-append_old [] o p i h = cc
get_elem?-append_old (x ∷ xs) o p zero h = h
get_elem?-append_old (x ∷ xs) o p (suc i) h = get_elem?-append_old xs o p i h
