-- ===== src/Health.antt =====
-- src/health.ts: `combineHealthStatus` and the class HealthAggregator. What `getHealth` of a
-- component does, to answer or to throw, stands in for the component.
pub mod Reports
use libeam.Shared.{
  ℕ, ◌-◌, String, Bool, true, false, not, ◌||◌, List, [], ◌∷◌, map, Option, none, some,
  if◌then◌else◌,
}
use libeam.Shared.Dict.{Dict, insert, delete}

pub data HealthStatus : Type 0 where
  healthy : HealthStatus
  degraded : HealthStatus
  unhealthy : HealthStatus

pub record ComponentHealth : Type 0 where
  pub name : String
  pub status : HealthStatus
  pub message : Option String

pub data HealthCheck : Type 0 where
  reports : ComponentHealth → HealthCheck
  throws : String → HealthCheck

pub record HealthReport : Type 0 where
  pub status : HealthStatus
  pub timestamp : ℕ
  pub node_id : String
  pub components : List ComponentHealth
  pub uptime_ms : ℕ

pub record HealthAggregator : Type 0 where
  pub node_id : String
  pub start_time : ℕ
  pub components : Dict HealthCheck

abbrev pub same_status : HealthStatus → HealthStatus → Bool
same_status healthy healthy = true
same_status degraded degraded = true
same_status unhealthy unhealthy = true
same_status _ _ = false

abbrev pub includes : HealthStatus → List HealthStatus → Bool
includes x [] = false
includes x (y ∷ ys) = same_status y x || includes x ys

unfoldable pub combine_health_status : List HealthStatus → HealthStatus
combine_health_status statuses =
    if includes unhealthy statuses
    then unhealthy
    else (if includes degraded statuses then degraded else healthy)

abbrev pub register : String → HealthCheck → HealthAggregator → HealthAggregator
register name component s = record s { components = insert name component s.components }

abbrev pub unregister : String → HealthAggregator → HealthAggregator
unregister name s = record s { components = delete name s.components }

-- A check that throws counts as unhealthy; `throws` holds the message that is made of the error.
abbrev pub checked : String → HealthCheck → ComponentHealth
checked name (reports health) = health
checked name (throws text) = record { name = name; status = unhealthy; message = some text }

abbrev pub check_all : Dict HealthCheck → List ComponentHealth
check_all [] = []
check_all ((name, check) ∷ components) = checked name check ∷ check_all components

abbrev pub statuses : List ComponentHealth → List HealthStatus
statuses [] = []
statuses (c ∷ cs) = c.status ∷ statuses cs

-- The clock does not go back.
unfoldable pub get_health : ℕ → HealthAggregator → HealthReport
get_health now s =
    let healths = check_all s.components in
    record {
      status = combine_health_status (statuses healths);
      timestamp = now;
      node_id = s.node_id;
      components = healths;
      uptime_ms = now - s.start_time;
    }

abbrev pub is_alive : HealthAggregator → Bool
is_alive s = true

unfoldable pub is_ready : ℕ → HealthAggregator → Bool
unfolding get_health
is_ready now s = not (same_status (get_health now s).status unhealthy)
