-- ===== src/Examples/Nodes.antt =====
-- Runs of the placement of src/placement.ts and the reports of src/health.ts.
use libeam.Shared.{ltb, [], ◌∷◌, none, some, ◌≡◌, refl, if◌then◌else◌, str_eq}
use libeam.Shared.Dict.{lookup}
use libeam.Placement.{round_robin, Cluster, node, select_node}
use libeam.Placement.RoundRobin.{selections, select_node-selections}
use libeam.Health.{HealthAggregator, degraded, reports, throws, get_health, is_ready}
use libeam.Health.Reports.{rank, worst, get_health-worst}

abbrev cluster : Cluster
cluster = record {
  node_id = "n1";
  members = "n1" ∷ "n2" ∷ "n3" ∷ [];
  members_by_role = some (λ role. if str_eq role "worker" then ("n2" ∷ "n3" ∷ []) else []);
}

select_node-selections_example :
    (select_node cluster round_robin (some "worker") (selections 5 cluster (some "worker") [])).1
    ≡ node "n3"
unfolding lookup
select_node-selections_example =
    select_node-selections 5 cluster (some "worker") [] "n2" ("n3" ∷ []) refl refl

abbrev checks : HealthAggregator
checks = record {
  node_id = "n1";
  start_time = 10;
  components =
      ("gossip", reports (record { name = "gossip"; status = degraded; message = none }))
      ∷ ("registry", throws "closed")
      ∷ [];
}

get_health-worst_example :
    (rank (get_health 50 checks).status ≡ worst checks.components)
    × (is_ready 50 checks ≡ ltb (worst checks.components) 2)
get_health-worst_example = get_health-worst 50 checks
