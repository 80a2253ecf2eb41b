-- ===== src/LoadBalancing/Plan.antt =====
-- src/policies/load_balancing.rs: the plan of a Python policy, against what its iterator answers.
use python_rs_driver.Common.{
  ℕ, zero, suc, Bool, true, false, Option, none, some, List, [], ◌∷◌, ◌≡◌, refl, ◌==◌,
  if◌then◌else◌, length, ◌+◌, ◌≤◌, arith,
}
use python_rs_driver.Common.Python.{Obj}
use python_rs_driver.LoadBalancing.{
  ClusterState, PyClusterState, Target, PyIterator, Picked, call_fails, not_iterable, iterates,
  Request, CustomLoadBalancingPolicy, get_cluster_state, extracted_target, extract_next_target,
  PyTargetsIter, fallback, collect_next, collect, collect_plan, next_lazy, plan_of, plan_picked,
  planned, fill_cache, from_cache,
}

-- The targets up to the first answer that is none: the end, an exception, no target, or an unknown
-- node.
abbrev pub prefix_if : Option Target → List Target → List Target
prefix_if none ts = []
prefix_if (some t) ts = t ∷ ts

unfoldable pub valid_prefix : ClusterState → PyIterator → List Target
valid_prefix cluster [] = []
valid_prefix cluster (answer ∷ answers) =
    prefix_if (extracted_target cluster answer) (valid_prefix cluster answers)

abbrev pub targets_of : ClusterState → Picked → List Target
targets_of cluster (iterates answers) = valid_prefix cluster answers
targets_of cluster picked = []

abbrev pub calls_of : Picked → ℕ
calls_of (iterates answers) = length answers
calls_of picked = 0

abbrev lazy : ClusterState → PyIterator → PyTargetsIter
lazy cluster answers = record {
  first = none;
  py_iter = answers;
  exhausted = false;
  cluster = cluster;
}

collect-next_lazy :
    (cluster : ClusterState) (it : PyTargetsIter) (rest : PyIterator) (t : Option Target) (fuel : ℕ)
    → (next_lazy it (rest, t)).0 ≡ (next_lazy (lazy cluster it.py_iter) (rest, t)).0
    → collect fuel (lazy cluster rest) ≡ some (valid_prefix cluster rest)
    → collect_next (next_lazy it (rest, t)).1 (collect fuel (next_lazy it (rest, t)).0)
      ≡ some (prefix_if t (valid_prefix cluster rest))
collect-next_lazy cluster it rest none fuel e h = refl
collect-next_lazy cluster it rest (some t) fuel e h = rw e (rw h refl)

collect-lazy :
    (cluster : ClusterState) (answers : PyIterator) (fuel : ℕ)
    → length answers ≤ fuel
    → collect (suc fuel) (lazy cluster answers) ≡ some (valid_prefix cluster answers)
unfolding collect valid_prefix
collect-lazy cluster [] fuel le = refl
collect-lazy cluster (answer ∷ answers) zero le = absurd (omega arith)
collect-lazy cluster (answer ∷ answers) (suc fuel) le =
    collect-next_lazy cluster (lazy cluster (answer ∷ answers)) answers
      (extracted_target cluster answer) (suc fuel) refl
      (collect-lazy cluster answers fuel (omega arith))

collect-first :
    (cluster : ClusterState) (rest : PyIterator) (t : Target) (fuel : ℕ)
    → collect fuel (lazy cluster rest) ≡ some (valid_prefix cluster rest)
    → collect
        (suc fuel)
        (record { first = some t; py_iter = rest; exhausted = false; cluster = cluster })
      ≡ some (t ∷ valid_prefix cluster rest)
unfolding collect
collect-first cluster rest t fuel h = rw h refl

equal-true : (m n : ℕ) → (m == n) ≡ true → m ≡ n
equal-true m n h = ground arith

collect-plan_of :
    (cluster : ClusterState) (rest : PyIterator) (t : Option Target) (fuel : ℕ)
    → length rest ≤ fuel
    → collect_plan (suc (suc fuel)) (plan_of cluster (rest, t))
      ≡ some (prefix_if t (valid_prefix cluster rest))
unfolding collect_plan
collect-plan_of cluster rest none fuel le = refl
collect-plan_of cluster rest (some t) fuel le =
    collect-first cluster rest t (suc fuel) (collect-lazy cluster rest fuel le)

-- One more call than the iterator has answers ends any plan.
collect-picked :
    (cluster : ClusterState) (picked : Picked) (fuel : ℕ)
    → suc (calls_of picked) ≤ fuel
    → collect_plan fuel (plan_picked cluster picked) ≡ some (targets_of cluster picked)
unfolding collect_plan valid_prefix extract_next_target
collect-picked cluster call_fails fuel le = refl
collect-picked cluster not_iterable fuel le = refl
collect-picked cluster (iterates []) fuel le = refl
collect-picked cluster (iterates (answer ∷ answers)) zero le = absurd (omega arith)
collect-picked cluster (iterates (answer ∷ answers)) (suc zero) le = absurd (omega arith)
collect-picked cluster (iterates (answer ∷ answers)) (suc (suc fuel)) le =
    collect-plan_of cluster answers (extracted_target cluster answer) fuel (omega arith)

collect-enough :
    (cluster : ClusterState) (picked : Picked) (more : ℕ)
    → collect_plan (suc (calls_of picked) + more) (plan_picked cluster picked)
      ≡ some (targets_of cluster picked)
collect-enough cluster picked more =
    collect-picked cluster picked (suc (calls_of picked) + more) (omega arith)

-- What a request is planned by: the Python object of the incoming cluster state, which is then
-- cached, gives the plan; without one there is no plan.
abbrev pub PlannedBy :
    ℕ → Request → CustomLoadBalancingPolicy → Option PyTargetsIter → Option PyClusterState → Type 0
PlannedBy more r p plan none = (r.converted ≡ none) × (plan ≡ none)
PlannedBy more r p plan (some state) =
    (state.inner ≡ r.cluster)
    × (p.cluster_cache ≡ some state)
    × (collect_plan (suc (calls_of (r.pick_targets state)) + more) plan
        ≡ some (targets_of r.cluster (r.pick_targets state)))

fill_cache-PlannedBy :
    (more : ℕ) (p : CustomLoadBalancingPolicy) (r : Request) (x : Option Obj)
    → r.converted ≡ x
    → let state = fill_cache p r.cluster x in PlannedBy more r state.0 (planned r state.1) state.1
fill_cache-PlannedBy more p r none e = (e, refl)
fill_cache-PlannedBy more p r (some x) e = (
  refl,
  refl,
  collect-enough r.cluster (r.pick_targets (record { object = x; inner = r.cluster })) more,
)

checked-PlannedBy :
    (more : ℕ) (p : CustomLoadBalancingPolicy) (r : Request) (cached : PyClusterState)
    → p.cluster_cache ≡ some cached
    → (b : Bool) → (b ≡ true → cached.inner ≡ r.cluster)
    → let state = if b then (p, some cached) else fill_cache p r.cluster r.converted in
      PlannedBy more r state.0 (planned r state.1) state.1
checked-PlannedBy more p r cached e true same =
    (same refl, e, collect-enough r.cluster (r.pick_targets cached) more)
checked-PlannedBy more p r cached e false same = fill_cache-PlannedBy more p r r.converted refl

from_cache-PlannedBy :
    (more : ℕ) (p : CustomLoadBalancingPolicy) (r : Request) (cache : Option PyClusterState)
    → p.cluster_cache ≡ cache
    → ((cached : PyClusterState)
        → cache ≡ some cached
        → cached.inner.address ≡ r.cluster.address
        → cached.inner ≡ r.cluster)
    → let state = from_cache p r.cluster r.converted cache in
      PlannedBy more r state.0 (planned r state.1) state.1
from_cache-PlannedBy more p r none e same = fill_cache-PlannedBy more p r r.converted refl
from_cache-PlannedBy more p r (some cached) e same =
    checked-PlannedBy more p r cached e (cached.inner.address == r.cluster.address)
      (λ b. same cached refl (equal-true cached.inner.address r.cluster.address b))

-- If the cached cluster state is the incoming one whenever their addresses are equal, then the plan
-- ends, after at most one more call than the policy's iterator answers, and has the targets of the longest prefix of the
-- policy's answers that are targets on nodes of the cluster; the policy is asked with an object of the
-- incoming cluster state. Only if none can be made is the plan empty without asking.
pub fallback-PlannedBy :
    (more : ℕ) (p : CustomLoadBalancingPolicy) (r : Request)
    → ((cached : PyClusterState)
        → p.cluster_cache ≡ some cached
        → cached.inner.address ≡ r.cluster.address
        → cached.inner ≡ r.cluster)
    → let planned = fallback p r in
      (state : Option PyClusterState) × PlannedBy more r planned.0 planned.1 state
unfolding fallback get_cluster_state
fallback-PlannedBy more p r same = (
  (get_cluster_state p r.cluster r.converted).1,
  from_cache-PlannedBy more p r p.cluster_cache refl same,
)
