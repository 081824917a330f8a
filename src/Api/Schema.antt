-- ===== src/Api/Schema.antt =====
-- The schema that the tags and markers of api/v1alpha1/valkeycluster_types.go declare: what a client
-- sends of a specification (`json:"…,omitempty"`), the defaults and the limits that the API server
-- applies (`+kubebuilder:default`, `+kubebuilder:validation`), and what a client reads back. A field
-- that is not sent is `none`; the server fills in the fields of an object only if the object is there.
-- A quantity is the value that its text denotes: a client may send another text of the same value.
pub mod Limits
pub mod Update
pub mod Rendered
use valkeycluster_operator.Prelude.{
  ℕ, zero, suc, ◌^◌, Bool, true, Option, none, some, List, [], ◌∷◌,
}
use valkeycluster_operator.Prelude.Int.{ℤ, pos, negsuc}
use valkeycluster_operator.Text.{Text, codes}
use valkeycluster_operator.Api.{
  StorageSpec, PersistenceMode, unset, aof, PersistenceSpec, HaPolicy, PerformanceSpec,
  ValkeyClusterSpec,
}

pub record StorageFields : Type 0 where
  pub size : Option ℕ
  pub storage_class_name : Option Text

pub record PersistenceFields : Type 0 where
  pub mode : Option PersistenceMode
  pub append_fsync : Option Text

pub record HaFields : Type 0 where
  pub min_replicas_to_write : Option ℤ
  pub require_full_coverage : Option Bool
  pub cluster_node_timeout_millis : Option ℤ

pub record PerformanceFields : Type 0 where
  pub io_threads : Option ℤ
  pub maxmemory_policy : Option Text

pub record SpecFields : Type 0 where
  pub shards : Option ℕ
  pub replicas_per_shard : Option ℕ
  pub image : Option Text
  pub storage : Option StorageFields
  pub memory_limit : Option ℕ
  pub persistence : Option PersistenceFields
  pub performance : Option PerformanceFields
  pub ha_policy : Option HaFields

-- `omitempty`
abbrev pub omit_zero : ℕ → Option ℕ
omit_zero zero = none
omit_zero (suc n) = some (suc n)

abbrev pub omit_zero_ℤ : ℤ → Option ℤ
omit_zero_ℤ (pos zero) = none
omit_zero_ℤ (pos (suc n)) = some (pos (suc n))
omit_zero_ℤ (negsuc n) = some (negsuc n)

abbrev pub omit_empty : Text → Option Text
omit_empty [] = none
omit_empty (c ∷ t) = some (c ∷ t)

abbrev pub omit_unset : PersistenceMode → Option PersistenceMode
omit_unset unset = none
omit_unset m = some m

-- a struct, such as a quantity or one of the nested specifications, is never empty
unfoldable pub encode_storage : StorageSpec → StorageFields
encode_storage s = record {
  size = some s.size;
  storage_class_name = omit_empty s.storage_class_name;
}

unfoldable pub encode_persistence : PersistenceSpec → PersistenceFields
encode_persistence s = record { mode = omit_unset s.mode; append_fsync = omit_empty s.append_fsync }

unfoldable pub encode_ha : HaPolicy → HaFields
encode_ha s = record {
  min_replicas_to_write = omit_zero_ℤ s.min_replicas_to_write;
  require_full_coverage = s.require_full_coverage;
  cluster_node_timeout_millis = omit_zero_ℤ s.cluster_node_timeout_millis;
}

unfoldable pub encode_performance : PerformanceSpec → PerformanceFields
encode_performance s = record {
  io_threads = omit_zero_ℤ s.io_threads;
  maxmemory_policy = omit_empty s.maxmemory_policy;
}

unfoldable pub encode : ValkeyClusterSpec → SpecFields
unfolding encode_storage encode_persistence encode_ha encode_performance
encode s = record {
  shards = omit_zero s.shards;
  replicas_per_shard = omit_zero s.replicas_per_shard;
  image = omit_empty s.image;
  storage = some (encode_storage s.storage);
  memory_limit = s.memory_limit;
  persistence = some (encode_persistence s.persistence);
  performance = some (encode_performance s.performance);
  ha_policy = some (encode_ha s.ha_policy);
}

-- the value of an optional field
abbrev pub or_else {ℓ} : {A : Type ℓ} → Option A → A → A
or_else none d = d
or_else (some a) d = a

abbrev pub in_object : {A : Type 0} → (A → A) → Option A → Option A
in_object g none = none
in_object g (some a) = some (g a)

-- the defaults
unfoldable pub default_storage : StorageFields → StorageFields
default_storage s = record s { size = some (or_else s.size (2 ^ 30)) }

unfoldable pub default_persistence : PersistenceFields → PersistenceFields
default_persistence s = record {
  mode = some (or_else s.mode aof);
  append_fsync = some (or_else s.append_fsync (codes "everysec"));
}

unfoldable pub default_ha : HaFields → HaFields
default_ha s = record {
  min_replicas_to_write = some (or_else s.min_replicas_to_write (pos 0));
  require_full_coverage = some (or_else s.require_full_coverage true);
  cluster_node_timeout_millis = some (or_else s.cluster_node_timeout_millis (pos 5000));
}

unfoldable pub default_performance : PerformanceFields → PerformanceFields
default_performance s = record {
  io_threads = some (or_else s.io_threads (pos 1));
  maxmemory_policy = some (or_else s.maxmemory_policy (codes "noeviction"));
}

unfoldable pub defaulted : SpecFields → SpecFields
unfolding default_storage default_persistence default_ha default_performance
defaulted w = record {
  shards = some (or_else w.shards 3);
  replicas_per_shard = some (or_else w.replicas_per_shard 1);
  image = some (or_else w.image (codes "valkey/valkey:8"));
  storage = in_object default_storage w.storage;
  memory_limit = w.memory_limit;
  persistence = in_object default_persistence w.persistence;
  performance = in_object default_performance w.performance;
  ha_policy = in_object default_ha w.ha_policy;
}

-- what a client reads: a field that is not there has its type's zero value
unfoldable pub decode_storage : Option StorageFields → StorageSpec
decode_storage none = record { size = 0; storage_class_name = [] }
decode_storage (some w) = record {
  size = or_else w.size 0;
  storage_class_name = or_else w.storage_class_name [];
}

unfoldable pub decode_persistence : Option PersistenceFields → PersistenceSpec
decode_persistence none = record { mode = unset; append_fsync = [] }
decode_persistence (some w) = record {
  mode = or_else w.mode unset;
  append_fsync = or_else w.append_fsync [];
}

unfoldable pub decode_ha : Option HaFields → HaPolicy
decode_ha none = record {
  min_replicas_to_write = pos 0;
  require_full_coverage = none;
  cluster_node_timeout_millis = pos 0;
}
decode_ha (some w) = record {
  min_replicas_to_write = or_else w.min_replicas_to_write (pos 0);
  require_full_coverage = w.require_full_coverage;
  cluster_node_timeout_millis = or_else w.cluster_node_timeout_millis (pos 0);
}

unfoldable pub decode_performance : Option PerformanceFields → PerformanceSpec
decode_performance none = record { io_threads = pos 0; maxmemory_policy = [] }
decode_performance (some w) = record {
  io_threads = or_else w.io_threads (pos 0);
  maxmemory_policy = or_else w.maxmemory_policy [];
}

unfoldable pub decode : SpecFields → ValkeyClusterSpec
unfolding decode_storage decode_persistence decode_ha decode_performance
decode w = record {
  shards = or_else w.shards 0;
  replicas_per_shard = or_else w.replicas_per_shard 0;
  image = or_else w.image [];
  storage = decode_storage w.storage;
  memory_limit = w.memory_limit;
  persistence = decode_persistence w.persistence;
  performance = decode_performance w.performance;
  ha_policy = decode_ha w.ha_policy;
}

-- what is read back of a specification that a client has sent
unfoldable pub resubmitted : ValkeyClusterSpec → ValkeyClusterSpec
unfolding encode defaulted decode
resubmitted s = decode (defaulted (encode s))
