-- ===== src/Resources.antt =====
-- internal/resources/builders.go: the names, labels and objects that back a cluster. Of an object's
-- metadata what the operator sets or reads is here, and of its content what the operator sets.
pub mod Config
pub mod Names
pub mod Workload
pub mod Selection
use valkeycluster_operator.Prelude.{
  ℕ, suc, ◌+◌, ◌≡◌, refl, Bool, true, false, Option, none, some, List, [], ◌∷◌, ◌++◌,
}
use valkeycluster_operator.Prelude.Int.{ℤ, pos}
use valkeycluster_operator.Text.{Text, codes, is_empty}
use valkeycluster_operator.Text.Decimal.{itoa, format_nat}
use valkeycluster_operator.Dict.{Dict, insert}
use valkeycluster_operator.Api.{ValkeyCluster}
use Config.{render_valkey_conf}

abbrev pub client_port : ℕ
client_port = 6379

abbrev pub bus_port : ℕ
bus_port = 16379

abbrev pub label_shard : Text
label_shard = codes "valkey.razkevich.dev/shard"

abbrev pub label_instance : Text
label_instance = codes "app.kubernetes.io/instance"

-- `HeadlessServiceName`
unfoldable pub headless_service_name : ValkeyCluster → Text
headless_service_name cr = cr.name ++ codes "-nodes"

-- `ConfigMapName`
unfoldable pub config_map_name : ValkeyCluster → Text
config_map_name cr = cr.name ++ codes "-config"

-- `StatefulSetName`
unfoldable pub stateful_set_name : ValkeyCluster → ℤ → Text
stateful_set_name cr shard = cr.name ++ codes "-shard-" ++ itoa shard

-- `PodName`
unfoldable pub pod_name : ValkeyCluster → ℤ → ℕ → Text
pod_name cr shard ordinal = stateful_set_name cr shard ++ b'-' ∷ format_nat ordinal

-- `PodFQDN`
unfoldable pub pod_fqdn : ValkeyCluster → ℤ → ℕ → Text
pod_fqdn cr shard ordinal =
    pod_name cr shard ordinal
    ++ b'.' ∷ (headless_service_name cr ++ b'.' ∷ (cr.namespace ++ codes ".svc"))

-- `commonLabels`
unfoldable pub common_labels : ValkeyCluster → Dict Text
common_labels cr =
    (codes "app.kubernetes.io/name", codes "valkeycluster")
    ∷ (label_instance, cr.name)
    ∷ (codes "app.kubernetes.io/managed-by", codes "valkeycluster-operator")
    ∷ []

-- `shardLabels`
unfoldable pub shard_labels : ValkeyCluster → ℤ → Dict Text
shard_labels cr shard = insert label_shard (itoa shard) (common_labels cr)

-- an object of Kubernetes: `created` says that its creation timestamp is set, and the owners are its
-- owner references
pub record Object (S : Type 0) : Type 0 where
  pub name : Text
  pub namespace : Text
  pub created : Bool
  pub labels : Dict Text
  pub owners : List Text
  pub content : S

-- an object of which only the name and the namespace are given, over the zero value of its content
abbrev pub blank : {S : Type 0} → Text → Text → S → Object S
blank name namespace zero_content = record {
  name = name;
  namespace = namespace;
  created = false;
  labels = [];
  owners = [];
  content = zero_content;
}

-- its content is its data
abbrev pub ConfigMap : Type 0
ConfigMap = Object (Dict Text)

-- `ConfigMap`
unfoldable pub config_map : ValkeyCluster → ConfigMap
config_map cr = record {
  name = config_map_name cr;
  namespace = cr.namespace;
  created = false;
  labels = common_labels cr;
  owners = [];
  content = (codes "valkey.conf", render_valkey_conf cr.spec) ∷ [];
}

pub record ServicePort : Type 0 where
  pub name : Text
  pub port : ℕ
  pub target_port : ℕ

pub record ServiceSpec : Type 0 where
  pub cluster_ip : Text
  pub publish_not_ready_addresses : Bool
  pub selector : Dict Text
  pub ports : List ServicePort

abbrev pub Service : Type 0
Service = Object ServiceSpec

-- `HeadlessService`
unfoldable pub headless_service : ValkeyCluster → Service
headless_service cr = record {
  name = headless_service_name cr;
  namespace = cr.namespace;
  created = false;
  labels = common_labels cr;
  owners = [];
  content = record {
    cluster_ip = codes "None";
    publish_not_ready_addresses = true;
    selector = (label_instance, cr.name) ∷ [];
    ports =
        record { name = codes "client"; port = client_port; target_port = client_port }
        ∷ record { name = codes "cluster-bus"; port = bus_port; target_port = bus_port }
        ∷ [];
  };
}
