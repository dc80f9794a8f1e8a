-- ===== src/Health/Reports.antt =====
-- What the status of a report of src/health.ts says of its components.
use libeam.Shared.{
  ℕ, ◌≤◌, Bool, true, false, not, List, [], ◌∷◌, if◌then◌else◌, ◌≡◌, refl, ap, ◌∙◌, ◌⊎◌, inl, inr,
  arith, Bool-cases, String, leb, ltb,
}
use libeam.Shared.Dict.{Dict}
use libeam.Health.{
  HealthStatus, healthy, degraded, unhealthy, HealthCheck, reports, throws, checked,
  HealthAggregator, same_status, includes, combine_health_status, check_all, statuses, get_health,
  is_ready,
}

-- How bad a status is.
abbrev pub rank : HealthStatus → ℕ
rank healthy = 0
rank degraded = 1
rank unhealthy = 2

abbrev pub Among : HealthStatus → List HealthStatus → Type 0
Among x [] = ⊥
Among x (y ∷ ys) = (y ≡ x) ⊎ Among x ys

abbrev pub NoneWorse : HealthStatus → List HealthStatus → Type 0
NoneWorse x [] = Unit
NoneWorse x (y ∷ ys) = (rank y ≤ rank x) × NoneWorse x ys

same_status-eq : (x y : HealthStatus) → same_status x y ≡ true → x ≡ y
same_status-eq healthy healthy e = refl
same_status-eq healthy degraded e = absurd (cc)
same_status-eq healthy unhealthy e = absurd (cc)
same_status-eq degraded healthy e = absurd (cc)
same_status-eq degraded degraded e = refl
same_status-eq degraded unhealthy e = absurd (cc)
same_status-eq unhealthy healthy e = absurd (cc)
same_status-eq unhealthy degraded e = absurd (cc)
same_status-eq unhealthy unhealthy e = refl

includes-Among : (x : HealthStatus) (ys : List HealthStatus) → includes x ys ≡ true → Among x ys
includes-Among x [] e = absurd (cc)
includes-Among x (y ∷ ys) e = elim (Bool-cases (same_status y x)) [
  | inl b ↦ inl (same_status-eq y x b)
  | inr b ↦ inr (includes-Among x ys (ground (arith, b, e)))
]

all_below : (ys : List HealthStatus) → NoneWorse unhealthy ys
all_below [] = tt
all_below (healthy ∷ ys) = (omega arith, all_below ys)
all_below (degraded ∷ ys) = (omega arith, all_below ys)
all_below (unhealthy ∷ ys) = (omega arith, all_below ys)

none_unhealthy : (ys : List HealthStatus) → includes unhealthy ys ≡ false → NoneWorse degraded ys
none_unhealthy [] e = tt
none_unhealthy (healthy ∷ ys) e = (omega arith, none_unhealthy ys e)
none_unhealthy (degraded ∷ ys) e = (omega arith, none_unhealthy ys e)
none_unhealthy (unhealthy ∷ ys) e = absurd (cc)

all_healthy :
    (ys : List HealthStatus)
    → includes unhealthy ys ≡ false
    → includes degraded ys ≡ false
    → NoneWorse healthy ys
all_healthy [] e f = tt
all_healthy (healthy ∷ ys) e f = (omega arith, all_healthy ys e f)
all_healthy (degraded ∷ ys) e f = absurd (cc)
all_healthy (unhealthy ∷ ys) e f = absurd (cc)

combine-worst :
    (ys : List HealthStatus)
    → NoneWorse (combine_health_status ys) ys
      × ((combine_health_status ys ≡ healthy) ⊎ Among (combine_health_status ys) ys)
unfolding combine_health_status
combine-worst ys = go (includes unhealthy ys) (includes degraded ys) refl refl
  where
    go :
        (x y : Bool)
        → includes unhealthy ys ≡ x
        → includes degraded ys ≡ y
        → let worst = if x then unhealthy else (if y then degraded else healthy) in
          NoneWorse worst ys × ((worst ≡ healthy) ⊎ Among worst ys)
    go true y e f = (all_below ys, inr (includes-Among unhealthy ys e))
    go false true e f = (none_unhealthy ys e, inr (includes-Among degraded ys f))
    go false false e f = (all_healthy ys e f, inl refl)

-- How bad what a component's check does is, with an exception as bad as the worst answer.
abbrev pub rank_of : HealthCheck → ℕ
rank_of (reports health) = rank health.status
rank_of (throws text) = 2

abbrev pub worst : Dict HealthCheck → ℕ
worst [] = 0
worst ((name, check) ∷ components) =
    if leb (worst components) (rank_of check) then rank_of check else worst components

rank-checked :
    (name : String) (check : HealthCheck) → rank (checked name check).status ≡ rank_of check
rank-checked name (reports health) = refl
rank-checked name (throws text) = refl

NoneWorse-worst :
    (x : HealthStatus) (components : Dict HealthCheck)
    → NoneWorse x (statuses (check_all components))
    → worst components ≤ rank x
NoneWorse-worst x [] h = omega arith
NoneWorse-worst x ((name, check) ∷ components) (below, h) =
    ground (arith, rank-checked name check, NoneWorse-worst x components h, below)

Among-worst :
    (x : HealthStatus) (components : Dict HealthCheck)
    → Among x (statuses (check_all components))
    → rank x ≤ worst components
Among-worst x [] h = absurd h
Among-worst x ((name, check) ∷ components) (inl e) =
    let same : rank (checked name check).status ≡ rank x = ap rank e in
    ground (arith, rank-checked name check, same)
Among-worst x ((name, check) ∷ components) (inr h) = ground (arith, Among-worst x components h)

rank-ready : (x : HealthStatus) → not (same_status x unhealthy) ≡ ltb (rank x) 2
rank-ready healthy = refl
rank-ready degraded = refl
rank-ready unhealthy = refl

-- The status of a report is as bad as the worst that a component's check does, where an exception is
-- as bad as the answer "unhealthy", and healthy where there is no component; and the node is ready
-- exactly when no check throws or answers "unhealthy".
pub get_health-worst :
    (now : ℕ) (s : HealthAggregator)
    → (rank (get_health now s).status ≡ worst s.components)
      × (is_ready now s ≡ ltb (worst s.components) 2)
unfolding get_health is_ready
get_health-worst now s =
    let x : HealthStatus = combine_health_status (statuses (check_all s.components)) in
    let (below, among) = combine-worst (statuses (check_all s.components)) in
    let most : worst s.components ≤ rank x = NoneWorse-worst x s.components below in
    let same : rank x ≡ worst s.components = elim among [
      | inl h ↦ (let none_worse : rank x ≡ 0 = ap rank h in omega (arith, none_worse, most))
      | inr h ↦ omega (arith, Among-worst x s.components h, most)
    ] in
    (same, rank-ready x ∙ ap (λ n. ltb n 2) same)
