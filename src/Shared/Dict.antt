-- ===== src/Shared/Dict.antt =====
-- The `Map<string, V>` of the source: entries in order of insertion. A write to a key that is
-- there keeps its place, as in JavaScript. `Unique` is what a `Map` keeps of itself.
use Prim.Native.Nat.{ℕ}
use Prim.Native.String.{String}
use mathlib.Core.Path.{◌≡◌, refl}
use mathlib.Core.Bool.{Bool, true, false}
use mathlib.Core.List.{List, [], ◌∷◌}
use mathlib.Core.Option.{Option, none, some}
use native.Mathlib.Omega.{arith}
use text.Mathlib.TextEquality.{eq_iff}
use text.Mathlib.TextPositions.{eq_refl}
use libeam.Shared.Tests.{str_eq, if◌then◌else◌}
use libeam.Shared.Lists.{length}

abbrev pub Dict {ℓ} : Type ℓ → Type ℓ
Dict V = List (String × V)

module _ {ℓ} {V : Type ℓ} where
  unfoldable pub lookup : String → Dict V → Option V
  lookup key [] = none
  lookup key ((own, val) ∷ rest) = if str_eq own key then some val else lookup key rest

  unfoldable pub delete : String → Dict V → Dict V
  delete key [] = []
  delete key ((own, val) ∷ rest) =
      if str_eq own key then delete key rest else ((own, val) ∷ delete key rest)

  -- The entry keeps its place and its key, and only the value is new.
  unfoldable pub insert : String → V → Dict V → Dict V
  insert key new [] = (key, new) ∷ []
  insert key new ((own, val) ∷ rest) =
      if str_eq own key then ((own, new) ∷ rest) else ((own, val) ∷ insert key new rest)

  -- `for (const [k, v] of m) if (p(k, v)) m.delete(k)`.
  unfoldable pub delete_where : (String → V → Bool) → Dict V → Dict V
  delete_where p [] = []
  delete_where p ((j, w) ∷ m) = if p j w then delete_where p m else (j, w) ∷ delete_where p m

  abbrev pub keys : Dict V → List String
  keys [] = []
  keys ((k, v) ∷ m) = k ∷ keys m

  abbrev pub values : Dict V → List V
  values [] = []
  values ((k, v) ∷ m) = v ∷ values m

  abbrev pub size : Dict V → ℕ
  size m = length m

  abbrev pub is_some : Option V → Bool
  is_some none = false
  is_some (some v) = true

  abbrev pub has : String → Dict V → Bool
  has k m = is_some (lookup k m)

  -- No key stands twice.
  abbrev pub Unique : Dict V → Type ℓ
  Unique [] = Unit
  Unique ((k, v) ∷ m) = (lookup k m ≡ none) × Unique m

module _ {ℓ} {V : Type ℓ} where
  pub lookup-insert :
      (key asked : String) (new : V) (m : Dict V)
      → lookup asked (insert key new m) ≡ (if str_eq key asked then some new else lookup asked m)
  unfolding lookup insert
  lookup-insert key asked new [] = ground arith
  lookup-insert key asked new ((own, val) ∷ rest) =
      ground (
        arith,
        lookup-insert key asked new rest,
        eq_iff own asked,
        eq_iff own key,
        eq_iff key asked,
      )

  pub lookup-insert_self : (k : String) (v : V) (m : Dict V) → lookup k (insert k v m) ≡ some v
  lookup-insert_self k v m = ground (arith, lookup-insert k k v m, eq_refl k)

  pub lookup-delete :
      (k j : String) (m : Dict V)
      → lookup j (delete k m) ≡ (if str_eq k j then none else lookup j m)
  unfolding lookup delete
  lookup-delete k j [] = ground arith
  lookup-delete k j ((i, w) ∷ m) =
      ground (arith, eq_iff k j, eq_iff i k, eq_iff i j, lookup-delete k j m)

  -- What `delete_where` leaves under a key: the entry, unless the test picks it.
  abbrev pub unless : (String → V → Bool) → String → Option V → Option V
  unless p j none = none
  unless p j (some v) = if p j v then none else some v

  pub lookup-delete_where-none :
      (p : String → V → Bool) (j : String) (m : Dict V)
      → lookup j m ≡ none
      → lookup j (delete_where p m) ≡ none
  unfolding lookup delete_where
  lookup-delete_where-none p j [] h = refl
  lookup-delete_where-none p j ((i, w) ∷ m) h = ground (arith, lookup-delete_where-none p j m)

  pub lookup-delete_where :
      (p : String → V → Bool) (j : String) (m : Dict V)
      → Unique m
      → lookup j (delete_where p m) ≡ unless p j (lookup j m)
  unfolding lookup delete_where
  lookup-delete_where p j [] u = refl
  lookup-delete_where p j ((i, w) ∷ m) (fresh, u) = ground (
    arith,
    eq_iff i j,
    lookup-delete_where p j m u,
    lookup-delete_where-none p i m fresh,
    lookup-delete_where-none p j m,
  )

  pub Unique-insert : (k : String) (v : V) (m : Dict V) → Unique m → Unique (insert k v m)
  unfolding lookup insert
  Unique-insert k v [] u = (refl, tt)
  Unique-insert k v ((j, w) ∷ m) (fresh, u) =
      ground (arith, Unique-insert k v m u, lookup-insert k j v m, eq_iff j k, eq_iff k j)

  pub Unique-delete : (k : String) (m : Dict V) → Unique m → Unique (delete k m)
  unfolding lookup delete
  Unique-delete k [] u = tt
  Unique-delete k ((j, w) ∷ m) (fresh, u) =
      ground (arith, Unique-delete k m u, lookup-delete k j m, eq_iff j k)

  pub Unique-delete_where :
      (p : String → V → Bool) (m : Dict V) → Unique m → Unique (delete_where p m)
  unfolding lookup delete_where
  Unique-delete_where p [] u = tt
  Unique-delete_where p ((j, w) ∷ m) (fresh, u) =
      ground (arith, Unique-delete_where p m u, lookup-delete_where-none p j m fresh)
