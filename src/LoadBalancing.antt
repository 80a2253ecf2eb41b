-- ===== src/LoadBalancing.antt =====
-- src/policies/load_balancing.rs: a policy written in Python, and the plan that it gives a request.
-- `Routing` has what a policy is told of a request, and the built-in policies.
pub mod Plan
pub mod Routing
pub mod Tests
use python_rs_driver.Common.{
  ℕ, zero, suc, Bool, true, false, Option, none, some, List, [], ◌∷◌, ◌==◌, if◌then◌else◌,
}
use python_rs_driver.Common.Python.{Obj}

-- The Rust driver's cluster state, by its address, with its nodes by their host ids.
pub record ClusterState : Type 0 where
  pub address : ℕ
  pub get_node_by_host_id : (host_id : ℕ) → Option Obj

pub record PyClusterState : Type 0 where
  pub object : Obj
  pub inner : ClusterState

abbrev pub Target : Type 0
Target = Obj × Option ℕ

-- What a call of a Python iterator's `next` gives, beside its end.
pub data Item : Type 0 where
  raises not_a_target : Item
  a_target : (host_id : ℕ) → (shard : Option ℕ) → Item

-- What a Python iterator answers to successive calls: `none` is `StopIteration`, which does not keep
-- it from answering later calls otherwise.
abbrev pub PyIterator : Type 0
PyIterator = List (Option Item)

-- What calling `pick_targets` and iterating over its result gives.
pub data Picked : Type 0 where
  call_fails not_iterable : Picked
  iterates : PyIterator → Picked

-- A request that is to be planned: the incoming cluster state, the Python object made of it if none
-- is cached, or a failure to make one, and the policy's answer.
pub record Request : Type 0 where
  pub cluster : ClusterState
  pub converted : Option Obj
  pub pick_targets : PyClusterState → Picked

pub record CustomLoadBalancingPolicy : Type 0 where
  pub cluster_cache : Option PyClusterState

abbrev pub fill_cache :
    CustomLoadBalancingPolicy
    → ClusterState
    → Option Obj
    → CustomLoadBalancingPolicy × Option PyClusterState
fill_cache p cluster none = (p, none)
fill_cache p cluster (some x) =
    let state : PyClusterState = record { object = x; inner = cluster } in
    (record p { cluster_cache = some state }, some state)

abbrev pub from_cache :
    CustomLoadBalancingPolicy
    → ClusterState
    → Option Obj
    → Option PyClusterState
    → CustomLoadBalancingPolicy × Option PyClusterState
from_cache p cluster converted none = fill_cache p cluster converted
from_cache p cluster converted (some cached) =
    if cached.inner.address == cluster.address
    then (p, some cached)
    else fill_cache p cluster converted

unfoldable pub get_cluster_state :
    CustomLoadBalancingPolicy
    → ClusterState
    → Option Obj
    → CustomLoadBalancingPolicy × Option PyClusterState
get_cluster_state p cluster converted = from_cache p cluster converted p.cluster_cache

abbrev pub target_of : Option Obj → Option ℕ → Option Target
target_of none shard = none
target_of (some node) shard = some (node, shard)

abbrev pub extracted_target : ClusterState → Option Item → Option Target
extracted_target cluster (some (a_target host_id shard)) =
    target_of (cluster.get_node_by_host_id host_id) shard
extracted_target cluster answer = none

unfoldable pub extract_next_target : ClusterState → PyIterator → PyIterator × Option Target
extract_next_target cluster [] = ([], none)
extract_next_target cluster (answer ∷ answers) = (answers, extracted_target cluster answer)

pub record PyTargetsIter : Type 0 where
  pub first : Option Target
  pub py_iter : PyIterator
  pub exhausted : Bool
  pub cluster : ClusterState

-- `next`, once the GIL is taken.
abbrev pub next_lazy : PyTargetsIter → PyIterator × Option Target → PyTargetsIter × Option Target
next_lazy it (rest, none) = (record it { py_iter = rest; exhausted = true }, none)
next_lazy it (rest, some t) = (record it { py_iter = rest }, some t)

abbrev pub next_after : PyTargetsIter → Option Target → PyTargetsIter × Option Target
next_after it (some t) = (record it { first = none }, some t)
next_after it none =
    if it.exhausted then (it, none) else next_lazy it (extract_next_target it.cluster it.py_iter)

unfoldable pub next : PyTargetsIter → PyTargetsIter × Option Target
unfolding extract_next_target
next it = next_after it it.first

-- The plan of a request: `none` is the empty one.
abbrev pub plan_of : ClusterState → PyIterator × Option Target → Option PyTargetsIter
plan_of cluster (rest, none) = none
plan_of cluster (rest, some t) =
    some (record { first = some t; py_iter = rest; exhausted = false; cluster = cluster })

abbrev pub plan_picked : ClusterState → Picked → Option PyTargetsIter
plan_picked cluster (iterates answers) = plan_of cluster (extract_next_target cluster answers)
plan_picked cluster picked = none

abbrev pub planned : Request → Option PyClusterState → Option PyTargetsIter
planned r none = none
planned r (some state) = plan_picked r.cluster (r.pick_targets state)

unfoldable pub fallback :
    CustomLoadBalancingPolicy → Request → CustomLoadBalancingPolicy × Option PyTargetsIter
unfolding get_cluster_state extract_next_target
fallback p r = let state = get_cluster_state p r.cluster r.converted in (state.0, planned r state.1)

-- The whole plan, or `none` if the fuel does not suffice.
abbrev pub then_collect : Target → Option (List Target) → Option (List Target)
then_collect t none = none
then_collect t (some ts) = some (t ∷ ts)

abbrev pub collect_next : Option Target → Option (List Target) → Option (List Target)
collect_next none rest = some []
collect_next (some t) rest = then_collect t rest

unfoldable pub collect : ℕ → PyTargetsIter → Option (List Target)
unfolding next
collect zero it = none
collect (suc fuel) it = let step = next it in collect_next step.1 (collect fuel step.0)

unfoldable pub collect_plan : ℕ → Option PyTargetsIter → Option (List Target)
unfolding collect
collect_plan fuel none = some []
collect_plan fuel (some it) = collect fuel it
