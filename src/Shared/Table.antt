-- ===== src/Shared/Table.antt =====
-- A `Map` or a `Set` of the source whose keys are identifiers, which are numbers here: a table is
-- read and written by key, and a set is the list of its elements in order of insertion.
use Prim.Native.Nat.{ℕ}
use mathlib.Core.Path.{◌≡◌, refl}
use mathlib.Core.Bool.{Bool, false, ◌||◌}
use mathlib.Core.List.{List, [], ◌∷◌, ◌++◌}
use mathlib.Core.Option.{Option, none, some}
use native.Mathlib.Omega.{arith}
use libeam.Shared.Tests.{◌==◌, if◌then◌else◌}

abbrev pub Table {ℓ} : Type ℓ → Type ℓ
Table V = ℕ → Option V

module _ {ℓ} {V : Type ℓ} where
  abbrev pub nothing : Table V
  nothing key = none

  abbrev pub put : ℕ → V → Table V → Table V
  put key val t asked = if key == asked then some val else t asked

  abbrev pub remove : ℕ → Table V → Table V
  remove key t asked = if key == asked then none else t asked

  abbrev pub update : (V → V) → Option V → Option V
  update f none = none
  update f (some v) = some (f v)

  -- `const v = m.get(key); if (v) …`, where what follows changes the object `v`.
  abbrev pub change : ℕ → (V → V) → Table V → Table V
  change key f t asked = if key == asked then update f (t asked) else t asked

abbrev pub elem : ℕ → List ℕ → Bool
elem x [] = false
elem x (y ∷ ys) = (y == x) || elem x ys

-- `Set.add`.
abbrev pub set_add : ℕ → List ℕ → List ℕ
set_add x xs = if elem x xs then xs else xs ++ (x ∷ [])

-- `Set.delete`.
abbrev pub set_delete : ℕ → List ℕ → List ℕ
set_delete x [] = []
set_delete x (y ∷ ys) = if y == x then set_delete x ys else y ∷ set_delete x ys

-- No element stands twice, which is what a `Set` keeps of itself.
abbrev pub Distinct : List ℕ → Type 0
Distinct [] = Unit
Distinct (x ∷ xs) = (elem x xs ≡ false) × Distinct xs

abbrev pub set_of : Option (List ℕ) → List ℕ
set_of none = []
set_of (some xs) = xs

-- Adds to the set at a key, which is made if it is not there.
abbrev pub join_set : ℕ → ℕ → Table (List ℕ) → Table (List ℕ)
join_set key x t = put key (set_add x (set_of (t key))) t

abbrev pub kept : List ℕ → Option (List ℕ)
kept [] = none
kept (x ∷ xs) = some (x ∷ xs)

-- Deletes from the set at a key, and the set with it when it is empty.
abbrev pub leave_set : ℕ → ℕ → Table (List ℕ) → Table (List ℕ)
leave_set key x t asked = if key == asked then kept (set_delete x (set_of (t asked))) else t asked

pub elem-append : (x : ℕ) (xs ys : List ℕ) → elem x (xs ++ ys) ≡ (elem x xs || elem x ys)
elem-append x [] ys = refl
elem-append x (y ∷ xs) ys = ground (arith, elem-append x xs ys)

pub elem-set_add : (x y : ℕ) (xs : List ℕ) → elem x (set_add y xs) ≡ ((y == x) || elem x xs)
elem-set_add x y xs = ground (arith, elem-append x xs (y ∷ []))

pub elem-set_delete :
    (x y : ℕ) (xs : List ℕ) → elem x (set_delete y xs) ≡ (if y == x then false else elem x xs)
elem-set_delete x y [] = ground arith
elem-set_delete x y (z ∷ xs) = ground (arith, elem-set_delete x y xs)

Distinct-append :
    (y : ℕ) (xs : List ℕ) → Distinct xs → elem y xs ≡ false → Distinct (xs ++ (y ∷ []))
Distinct-append y [] d n = (refl, tt)
Distinct-append y (x ∷ xs) (f, d) n =
    ground (arith, Distinct-append y xs d, elem-append x xs (y ∷ []))

pub Distinct-set_add : (y : ℕ) (xs : List ℕ) → Distinct xs → Distinct (set_add y xs)
Distinct-set_add y xs d = ground (arith, Distinct-append y xs d)

pub Distinct-set_delete : (y : ℕ) (xs : List ℕ) → Distinct xs → Distinct (set_delete y xs)
Distinct-set_delete y [] d = tt
Distinct-set_delete y (x ∷ xs) (f, d) =
    ground (arith, Distinct-set_delete y xs d, elem-set_delete x y xs)
