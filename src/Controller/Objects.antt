-- ===== src/Controller/Objects.antt =====
-- internal/controller/resources.go: ensuring the objects of a cluster.
pub mod Mutate
pub mod Ensured
use valkeycluster_operator.Prelude.{
  ⊤, ℕ, Bool, true, false, not, none, some, List, [], ◌∷◌, seq, if◌then◌else◌,
}
use valkeycluster_operator.Prelude.Int.{ℤ, pos}
use valkeycluster_operator.Text.{Text, codes}
use valkeycluster_operator.Dict.{Dict}
use valkeycluster_operator.Exec.{for_each, Exec, Error, Result, ok, err}
use valkeycluster_operator.Api.{ValkeyCluster}
use valkeycluster_operator.Resources.{
  Object, blank, ConfigMap, ServiceSpec, Service, config_map, headless_service,
}
use valkeycluster_operator.Resources.Workload.{
  PodTemplate, StatefulSetSpec, StatefulSet, stateful_set,
}
use valkeycluster_operator.Controller.{Reconciler}

-- `controllerutil.SetControllerReference(cr, obj, r.Scheme)` as the last step of a mutation
abbrev pub owned : {S : Type 0} → Result (List Text) → Object S → Result (Object S)
owned (ok owners) o = ok (record o { owners = owners })
owned (err e) o = err e

-- the zero values of the contents
abbrev pub no_service : ServiceSpec
no_service = record {
  cluster_ip = [];
  publish_not_ready_addresses = false;
  selector = [];
  ports = [];
}

abbrev pub no_template : PodTemplate
no_template = record {
  labels = [];
  annotations = [];
  anti_affinity = [];
  containers = [];
  volumes = [];
}

abbrev pub no_stateful_set : StatefulSetSpec
no_stateful_set = record {
  service_name = [];
  replicas = none;
  pod_management_policy = [];
  selector = none;
  template = no_template;
  volume_claim_templates = [];
}

-- the mutations, before the owner is set
unfoldable pub copy_config_map : ConfigMap → ConfigMap → ConfigMap
copy_config_map desired cm = record cm { labels = desired.labels; content = desired.content }

unfoldable pub copy_service : Service → Service → Service
copy_service desired svc = record svc {
  labels = desired.labels;
  content = record svc.content {
    cluster_ip = codes "None";
    publish_not_ready_addresses = true;
    selector = desired.content.selector;
    ports = desired.content.ports;
  };
}

-- the fields that cannot change once the object exists
abbrev copy_immutable : StatefulSet → StatefulSet → StatefulSet
copy_immutable desired sts = record sts {
  content = record sts.content {
    selector = desired.content.selector;
    volume_claim_templates = desired.content.volume_claim_templates;
    service_name = desired.content.service_name;
    pod_management_policy = desired.content.pod_management_policy;
  };
}

abbrev copy_mutable : StatefulSet → StatefulSet → StatefulSet
copy_mutable desired sts = record sts {
  labels = desired.labels;
  content = record sts.content {
    replicas = desired.content.replicas;
    template = desired.content.template;
  };
}

unfoldable pub copy_stateful_set : StatefulSet → StatefulSet → StatefulSet
copy_stateful_set desired sts =
    copy_mutable desired (if sts.created then sts else copy_immutable desired sts)

module _ {W : Type 0} (r : Reconciler W) (cr : ValkeyCluster) where
  open r use {kube}

  unfoldable pub mutate_config_map : ConfigMap → ConfigMap → Result ConfigMap
  mutate_config_map desired cm =
      owned (kube.set_controller_reference cr cm.owners) (copy_config_map desired cm)

  unfoldable pub mutate_service : Service → Service → Result Service
  mutate_service desired svc =
      owned (kube.set_controller_reference cr svc.owners) (copy_service desired svc)

  unfoldable pub mutate_stateful_set : StatefulSet → StatefulSet → Result StatefulSet
  mutate_stateful_set desired sts =
      owned (kube.set_controller_reference cr sts.owners) (copy_stateful_set desired sts)

  -- `ensureConfigMap`
  unfoldable pub ensure_config_map : Exec W ⊤
  ensure_config_map =
      let desired = config_map cr in
      kube.create_or_update_config_map (blank desired.name desired.namespace [])
        (mutate_config_map desired)

  -- `ensureHeadlessService`
  unfoldable pub ensure_headless_service : Exec W ⊤
  ensure_headless_service =
      let desired = headless_service cr in
      kube.create_or_update_service (blank desired.name desired.namespace no_service)
        (mutate_service desired)

  abbrev pub blank_stateful_set : ℕ → StatefulSet
  blank_stateful_set i =
      let desired = stateful_set kube.digest cr (pos i) in
      blank desired.name desired.namespace no_stateful_set

  -- the loop of `ensureStatefulSets`, at one shard
  unfoldable pub ensure_stateful_set : ℕ → Exec W ⊤
  ensure_stateful_set i =
      kube.create_or_update_stateful_set (blank_stateful_set i)
        (mutate_stateful_set (stateful_set kube.digest cr (pos i)))

  -- `ensureStatefulSets`
  unfoldable pub ensure_stateful_sets : Exec W ⊤
  unfolding for_each
  ensure_stateful_sets = for_each (seq 0 cr.spec.shards) ensure_stateful_set
