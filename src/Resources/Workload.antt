-- ===== src/Resources/Workload.antt =====
-- internal/resources/builders.go: `startupScript` and `StatefulSet`.
use valkeycluster_operator.Prelude.{ℕ, ◌+◌, true, false, Option, none, some, List, [], ◌∷◌, ◌++◌}
use valkeycluster_operator.Prelude.Int.{ℤ, pos}
use valkeycluster_operator.Text.{Text, codes, is_empty, join}
use valkeycluster_operator.Text.Decimal.{itoa}
use valkeycluster_operator.Dict.{Dict}
use valkeycluster_operator.Api.{ValkeyCluster}
use valkeycluster_operator.Resources.Config.{render_valkey_conf}
use valkeycluster_operator.Resources.{
  Object, client_port, bus_port, label_shard, label_instance, shard_labels, stateful_set_name,
  headless_service_name, config_map_name,
}

abbrev data_volume : Text
data_volume = codes "data"

abbrev conf_volume : Text
conf_volume = codes "conf"

abbrev conf_mount : Text
conf_mount = codes "/conf"

abbrev data_mount : Text
data_mount = codes "/data"

abbrev pub config_hash_annotation : Text
config_hash_annotation = codes "valkey.razkevich.dev/config-hash"

-- `configHash`, over the digest: the first eight bytes of SHA-256 in hexadecimal digits
unfoldable pub config_hash : (Text → Text) → ValkeyCluster → Text
config_hash digest cr = digest (render_valkey_conf cr.spec)

-- `startupScript`
unfoldable pub startup_script : Text
startup_script =
    join
      (codes "set -eu"
        ∷ codes "FQDN=\"${POD_NAME}.${SVC_NAME}.${POD_NAMESPACE}.svc\""
        ∷ (codes "cp " ++ conf_mount ++ codes "/valkey.conf " ++ data_mount ++ codes "/valkey.conf")
        ∷ codes "{"
        ∷ codes "  echo \"cluster-announce-hostname ${FQDN}\""
        ∷ codes "  echo \"cluster-announce-ip ${POD_IP}\""
        ∷ (codes "  echo \"cluster-announce-port " ++ itoa (pos client_port) ++ codes "\"")
        ∷ (codes "  echo \"cluster-announce-bus-port " ++ itoa (pos bus_port) ++ codes "\"")
        ∷ (codes "} >> " ++ data_mount ++ codes "/valkey.conf")
        ∷ (codes "exec valkey-server " ++ data_mount ++ codes "/valkey.conf")
        ∷ [])
      (codes "\n")

-- the value of an environment variable, or the path of the pod's field that has it
pub data EnvSource : Type 0 where
  value : Text → EnvSource
  field_ref : Text → EnvSource

pub record EnvVar : Type 0 where
  pub name : Text
  pub source : EnvSource

pub record ContainerPort : Type 0 where
  pub name : Text
  pub container_port : ℕ

pub record VolumeMount : Type 0 where
  pub name : Text
  pub mount_path : Text

-- a probe that runs a command; times are in seconds
pub record Probe : Type 0 where
  pub command : List Text
  pub initial_delay : ℕ
  pub period : ℕ
  pub failure_threshold : ℕ

-- of the resources the memory limit, as in the spec
pub record Container : Type 0 where
  pub name : Text
  pub image : Text
  pub command : List Text
  pub memory_limit : Option ℕ
  pub ports : List ContainerPort
  pub env : List EnvVar
  pub volume_mounts : List VolumeMount
  pub readiness_probe : Option Probe

-- a preferred anti-affinity between pods
pub record AffinityTerm : Type 0 where
  pub weight : ℕ
  pub topology_key : Text
  pub match_labels : Dict Text

-- a volume that shows a ConfigMap
pub record Volume : Type 0 where
  pub name : Text
  pub source : Text

pub record PodTemplate : Type 0 where
  pub labels : Dict Text
  pub annotations : Dict Text
  pub anti_affinity : List AffinityTerm
  pub containers : List Container
  pub volumes : List Volume

pub record VolumeClaim : Type 0 where
  pub name : Text
  pub access_modes : List Text
  pub storage : ℕ
  pub storage_class_name : Option Text

pub record StatefulSetSpec : Type 0 where
  pub service_name : Text
  pub replicas : Option ℕ
  pub pod_management_policy : Text
  pub selector : Option (Dict Text)
  pub template : PodTemplate
  pub volume_claim_templates : List VolumeClaim

abbrev pub StatefulSet : Type 0
StatefulSet = Object StatefulSetSpec

unfoldable pub valkey_container : ValkeyCluster → Container
valkey_container cr = record {
  name = codes "valkey";
  image = cr.spec.image;
  command = codes "sh" ∷ codes "-c" ∷ startup_script ∷ [];
  memory_limit = cr.spec.memory_limit;
  ports =
      record { name = codes "client"; container_port = client_port }
      ∷ record { name = codes "cluster-bus"; container_port = bus_port }
      ∷ [];
  env =
      record { name = codes "POD_NAME"; source = field_ref (codes "metadata.name") }
      ∷ record { name = codes "POD_NAMESPACE"; source = field_ref (codes "metadata.namespace") }
      ∷ record { name = codes "POD_IP"; source = field_ref (codes "status.podIP") }
      ∷ record { name = codes "SVC_NAME"; source = value (headless_service_name cr) }
      ∷ [];
  volume_mounts =
      record { name = data_volume; mount_path = data_mount }
      ∷ record { name = conf_volume; mount_path = conf_mount }
      ∷ [];
  readiness_probe = some (record {
    command = codes "valkey-cli" ∷ codes "-p" ∷ itoa (pos client_port) ∷ codes "ping" ∷ [];
    initial_delay = 5;
    period = 5;
    failure_threshold = 5;
  });
}

unfoldable pub pod_template : (Text → Text) → ValkeyCluster → ℤ → PodTemplate
pod_template digest cr shard = record {
  labels = shard_labels cr shard;
  annotations = (config_hash_annotation, config_hash digest cr) ∷ [];
  anti_affinity =
      record {
        weight = 100;
        topology_key = codes "kubernetes.io/hostname";
        match_labels = (label_shard, itoa shard) ∷ (label_instance, cr.name) ∷ [];
      }
      ∷ [];
  containers = valkey_container cr ∷ [];
  volumes = record { name = conf_volume; source = config_map_name cr } ∷ [];
}

unfoldable pub volume_claim : ValkeyCluster → VolumeClaim
volume_claim cr = record {
  name = data_volume;
  access_modes = codes "ReadWriteOnce" ∷ [];
  storage = cr.spec.storage.size;
  storage_class_name = elim (is_empty cr.spec.storage.storage_class_name) [
    | true ↦ none
    | false ↦ some cr.spec.storage.storage_class_name
  ];
}

-- `StatefulSet`; at most six replicas by the schema, so the conversion to 32 bits keeps the number
unfoldable pub stateful_set : (Text → Text) → ValkeyCluster → ℤ → StatefulSet
stateful_set digest cr shard = record {
  name = stateful_set_name cr shard;
  namespace = cr.namespace;
  created = false;
  labels = shard_labels cr shard;
  owners = [];
  content = record {
    service_name = headless_service_name cr;
    replicas = some (1 + cr.spec.replicas_per_shard);
    pod_management_policy = codes "Parallel";
    selector = some (shard_labels cr shard);
    template = pod_template digest cr shard;
    volume_claim_templates = volume_claim cr ∷ [];
  };
}
