-- ===== src/Api.antt =====
-- api/v1alpha1/valkeycluster_types.go: the custom resource. What its schema excludes is left out:
-- the numbers of shards and replicas are not negative, and the enumerated strings are data types.
-- Of the object's metadata only what the operator reads is here, and a quantity is its value.
pub mod Schema
use valkeycluster_operator.Prelude.{ℕ, Bool, Option, List}
use valkeycluster_operator.Prelude.Int.{ℤ}
use valkeycluster_operator.Text.{Text}

pub record StorageSpec : Type 0 where
  pub size : ℕ
  pub storage_class_name : Text

-- `unset` is the empty string
pub data PersistenceMode : Type 0 where
  unset aof rdb aof_and_rdb no_persistence : PersistenceMode

pub record PersistenceSpec : Type 0 where
  pub mode : PersistenceMode
  pub append_fsync : Text

pub record HaPolicy : Type 0 where
  pub min_replicas_to_write : ℤ
  pub require_full_coverage : Option Bool
  pub cluster_node_timeout_millis : ℤ

pub record PerformanceSpec : Type 0 where
  pub io_threads : ℤ
  pub maxmemory_policy : Text

-- `memory_limit` is the value of `resources.limits.memory`, if that is there
pub record ValkeyClusterSpec : Type 0 where
  pub shards : ℕ
  pub replicas_per_shard : ℕ
  pub image : Text
  pub storage : StorageSpec
  pub memory_limit : Option ℕ
  pub persistence : PersistenceSpec
  pub performance : PerformanceSpec
  pub ha_policy : HaPolicy

pub data Phase : Type 0 where
  no_phase pending provisioning forming ready resharding scaling_replicas degraded failed : Phase

pub record ShardStatus : Type 0 where
  pub index : ℕ
  pub primary_pod : Text
  pub primary_node_id : Text
  pub slots : Text
  pub ready_replicas : ℕ
  pub node_ids : List Text

pub data ConditionStatus : Type 0 where
  is_true is_false is_unknown : ConditionStatus

-- `metav1.Condition`
pub record Condition : Type 0 where
  pub type : Text
  pub status : ConditionStatus
  pub reason : Text
  pub message : Text
  pub observed_generation : ℕ
  pub last_transition_time : ℕ

pub record ValkeyClusterStatus : Type 0 where
  pub phase : Phase
  pub observed_generation : ℕ
  pub ready_shards : ℕ
  pub shards : List ShardStatus
  pub conditions : List Condition

-- `deleting` says that the deletion timestamp is set
pub record ValkeyCluster : Type 0 where
  pub name : Text
  pub namespace : Text
  pub generation : ℕ
  pub deleting : Bool
  pub finalizers : List Text
  pub spec : ValkeyClusterSpec
  pub status : ValkeyClusterStatus
