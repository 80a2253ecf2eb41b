-- ===== src/LoadBalancing/Routing.antt =====
-- src/policies/load_balancing.rs: what a policy is told of a request, the built-in policies, and what
-- is taken for a policy or a target.
use python_rs_driver.Common.{ℕ, Bool, Option, none, some, List, [], ◌∷◌, ◌≡◌, refl}
use python_rs_driver.Common.Python.{Obj}
use python_rs_driver.Statements.{Consistency, SerialConsistency}
use python_rs_driver.LoadBalancing.{Target}

-- Names are numbers of their texts.
pub data NodeLocationPreference : Type 0 where
  anywhere : NodeLocationPreference
  in_datacenter : (name : ℕ) → NodeLocationPreference
  in_rack : (datacenter rack : ℕ) → NodeLocationPreference

pub record RoutingInfo : Type 0 where
  pub consistency : Consistency
  pub serial_consistency : Option SerialConsistency
  pub token : Option Obj
  pub table : Option (ℕ × ℕ)
  pub is_confirmed_lwt : Bool
  pub preference : NodeLocationPreference

pub record PyRoutingInfo : Type 0 where
  pub consistency : Consistency
  pub serial_consistency : Option SerialConsistency
  pub token : Option Obj
  pub ks_name : Option ℕ
  pub table_name : Option ℕ
  pub is_confirmed_lwt : Bool
  pub preference : NodeLocationPreference

abbrev keyspace_of : Option (ℕ × ℕ) → Option ℕ
keyspace_of none = none
keyspace_of (some (ks, table)) = some ks

abbrev table_of : Option (ℕ × ℕ) → Option ℕ
table_of none = none
table_of (some (ks, table)) = some table

unfoldable pub from_routing_info : RoutingInfo → PyRoutingInfo
from_routing_info info = record {
  consistency = info.consistency;
  serial_consistency = info.serial_consistency;
  token = info.token;
  ks_name = keyspace_of info.table;
  table_name = table_of info.table;
  is_confirmed_lwt = info.is_confirmed_lwt;
  preference = info.preference;
}

abbrev both {ℓ κ} : {A : Type ℓ} {B : Type κ} → Option A → Option B → Option (A × B)
both (some a) (some b) = some (a, b)
both _ _ = none

unfoldable pub table_spec : PyRoutingInfo → Option (ℕ × ℕ)
table_spec info = both info.ks_name info.table_name

unfoldable pub to_routing_info : PyRoutingInfo → RoutingInfo
unfolding table_spec
to_routing_info info = record {
  consistency = info.consistency;
  serial_consistency = info.serial_consistency;
  token = info.token;
  table = table_spec info;
  is_confirmed_lwt = info.is_confirmed_lwt;
  preference = info.preference;
}

both-table : (table : Option (ℕ × ℕ)) → both (keyspace_of table) (table_of table) ≡ table
both-table none = refl
both-table (some (ks, table)) = refl

-- A built-in policy that is asked from Python plans for the request that Python was told of.
pub to_routing_info-from_routing_info :
    (info : RoutingInfo) → to_routing_info (from_routing_info info) ≡ info
unfolding to_routing_info from_routing_info
to_routing_info-from_routing_info info = rw (both-table info.table) refl

pub record PyNodeLocationPreference : Type 0 where
  pub preferred_datacenter : Option Obj
  pub preferred_rack : Option Obj

-- Python strings: one may hold what UTF-8 does not.
pub record Strings : Type 0 where
  pub new_str : ℕ → Obj
  pub to_str : Obj → Option ℕ
  pub to_str-new_str : (s : ℕ) → to_str (new_str s) ≡ some s

abbrev pub any_location : PyNodeLocationPreference
any_location = record { preferred_datacenter = none; preferred_rack = none }

abbrev pub datacenter : Obj → PyNodeLocationPreference
datacenter name = record { preferred_datacenter = some name; preferred_rack = none }

abbrev pub datacenter_and_rack : Obj → Obj → PyNodeLocationPreference
datacenter_and_rack datacenter_name rack_name = record {
  preferred_datacenter = some datacenter_name;
  preferred_rack = some rack_name;
}

-- The outcome of `PyDefaultPolicy::new`, with the preference that its builder is given.
pub data NewPolicy : Type 0 where
  built : NodeLocationPreference → NewPolicy
  string_conversion_failed unreachable : NewPolicy

module _ (strings : Strings) where
  -- The getter of a routing info's preference.
  unfoldable pub node_location_preference : NodeLocationPreference → PyNodeLocationPreference
  node_location_preference anywhere = any_location
  node_location_preference (in_datacenter dc) = datacenter (strings.new_str dc)
  node_location_preference (in_rack dc rack) =
      datacenter_and_rack (strings.new_str dc) (strings.new_str rack)

  abbrev rack_named : Option ℕ → Option ℕ → NewPolicy
  rack_named (some dc) (some rack) = built (in_rack dc rack)
  rack_named _ _ = string_conversion_failed

  abbrev datacenter_named : Option ℕ → NewPolicy
  datacenter_named (some dc) = built (in_datacenter dc)
  datacenter_named none = string_conversion_failed

  abbrev preference_of : Option Obj → Option Obj → NewPolicy
  preference_of (some dc) (some rack) = rack_named (strings.to_str dc) (strings.to_str rack)
  preference_of (some dc) none = datacenter_named (strings.to_str dc)
  preference_of none none = built anywhere
  preference_of none (some rack) = unreachable

  -- The preference that `PyDefaultPolicy::new` gives the builder.
  unfoldable pub new_policy : PyNodeLocationPreference → NewPolicy
  new_policy pref = preference_of pref.preferred_datacenter pref.preferred_rack

  -- A default policy that is built with the preference that a request shows prefers what the request
  -- does.
  pub new_policy-node_location_preference :
      (pref : NodeLocationPreference) → new_policy (node_location_preference pref) ≡ built pref
  unfolding new_policy node_location_preference
  new_policy-node_location_preference anywhere = refl
  new_policy-node_location_preference (in_datacenter dc) = rw (strings.to_str-new_str dc) refl
  new_policy-node_location_preference (in_rack dc rack) =
      rw (strings.to_str-new_str dc) (rw (strings.to_str-new_str rack) refl)

-- A plan of the Rust driver as a Python list: a node is left out if the cluster state's dict does not
-- have it, and `none` is a lookup that raises.
abbrev kept_target : Option Obj → Option ℕ → List Target → List Target
kept_target none shard ts = ts
kept_target (some node) shard ts = (node, shard) ∷ ts

abbrev and_rest : Option (Option Obj) → Option ℕ → Option (List Target) → Option (List Target)
and_rest (some found) shard (some ts) = some (kept_target found shard ts)
and_rest _ shard _ = none

unfoldable pub collect_targets :
    (ℕ → Option (Option Obj)) → List (ℕ × Option ℕ) → Option (List Target)
collect_targets known_nodes [] = some []
collect_targets known_nodes ((host_id, shard) ∷ plan) =
    and_rest (known_nodes host_id) shard (collect_targets known_nodes plan)

-- What is given as a target: a node or a host id, alone or in a tuple with a shard.
pub data GivenNode : Type 0 where
  a_node a_host_id no_node : Obj → GivenNode

pub data GivenShard : Type 0 where
  a_shard : Option ℕ → GivenShard
  no_shard_type : GivenShard

pub data GivenTarget : Type 0 where
  alone : GivenNode → GivenTarget
  a_pair : GivenNode → GivenShard → GivenTarget
  a_tuple_of : (len : ℕ) → GivenTarget

pub data NodeIdentifier : Type 0 where
  by_node by_host_id : Obj → NodeIdentifier

pub data TargetConversion : Type 0 where
  target : NodeIdentifier → Option ℕ → TargetConversion
  invalid_node invalid_shard_type : TargetConversion
  invalid_tuple_len : (len : ℕ) → TargetConversion

abbrev identified : GivenNode → Option ℕ → TargetConversion
identified (a_node x) shard = target (by_node x) shard
identified (a_host_id x) shard = target (by_host_id x) shard
identified (no_node x) shard = invalid_node

-- `PyTargetPolicy::extract`: the shard is looked at before the node.
unfoldable pub extract_target : GivenTarget → TargetConversion
extract_target (alone node) = identified node none
extract_target (a_pair node (a_shard shard)) = identified node shard
extract_target (a_pair node no_shard_type) = invalid_shard_type
extract_target (a_tuple_of len) = invalid_tuple_len len
