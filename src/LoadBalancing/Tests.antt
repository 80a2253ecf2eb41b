-- ===== src/LoadBalancing/Tests.antt =====
-- A policy that names an unknown node.
use python_rs_driver.Common.{ℕ, zero, suc, Option, none, some, [], ◌∷◌, ◌≡◌}
use python_rs_driver.Common.Python.{Obj}
use python_rs_driver.LoadBalancing.{
  ClusterState, PyClusterState, a_target, iterates, Request, CustomLoadBalancingPolicy, fallback,
}
use python_rs_driver.LoadBalancing.Plan.{PlannedBy, fallback-PlannedBy}

abbrev nodes : ℕ → Option Obj
nodes (suc zero) = some 11
nodes (suc (suc zero)) = some 12
nodes _ = none

abbrev cluster : ClusterState
cluster = record { address = 4; get_node_by_host_id = nodes }

abbrev request : Request
request = record {
  cluster = cluster;
  converted = none;
  pick_targets = λ state. iterates (
      some (a_target 2 none)
      ∷ some (a_target 1 (some 3))
      ∷ some (a_target 9 none)
      ∷ some (a_target 1 none)
      ∷ []);
}

abbrev policy : CustomLoadBalancingPolicy
policy = record { cluster_cache = some (record { object = 7; inner = cluster }) }

cached-same :
    (cached : PyClusterState)
    → policy.cluster_cache ≡ some cached
    → cached.inner.address ≡ cluster.address
    → cached.inner ≡ cluster
cached-same cached e same = cc

fallback-PlannedBy_example :
    let planned = fallback policy request in
    (state : Option PyClusterState) × PlannedBy 0 request planned.0 planned.1 state
fallback-PlannedBy_example = fallback-PlannedBy 0 policy request cached-same
