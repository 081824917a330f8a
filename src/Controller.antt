-- ===== src/Controller.antt =====
-- internal/controller: the reconciler. `Kube` is what it uses of the Kubernetes API, over the world
-- `W` that the cluster's administration changes too. Log lines and contexts are left out.
pub mod View
pub mod Membership
pub mod Status
pub mod Scaling
pub mod Cluster
pub mod Objects
pub mod Loop
pub mod Keeps
use valkeycluster_operator.Prelude.{ℕ, ⊤, Bool, List}
use valkeycluster_operator.Text.{Text}
use valkeycluster_operator.Dict.{Dict}
use valkeycluster_operator.Exec.{Exec, Result}
use valkeycluster_operator.Api.{ValkeyCluster}
use valkeycluster_operator.Resources.{ConfigMap, Service}
use valkeycluster_operator.Resources.Workload.{StatefulSet}
use valkeycluster_operator.Cluster.Admin.{ClusterAdmin}

-- Requests name their object by namespace and name; those of the resource itself are for the one
-- that is reconciled, and a list is of its namespace. `create_or_update` is `CreateOrUpdate` of
-- controller-runtime: an object with only a name and a namespace, and the mutation of the object that
-- is there, or of that one. `set_controller_reference` is `SetControllerReference` on the owner
-- references of an object, the functions on finalizers are those of controller-runtime, and `digest`
-- is that of `configHash`.
pub record Kube (W : Type 0) : Type 0 where
  pub now : W → ℕ
  pub get_cluster : Exec W ValkeyCluster
  pub update_cluster : ValkeyCluster → Exec W ValkeyCluster
  pub update_status : ValkeyCluster → Exec W ⊤
  pub retry_on_conflict : Exec W ⊤ → Exec W ⊤
  pub create_or_update_config_map : ConfigMap → (ConfigMap → Result ConfigMap) → Exec W ⊤
  pub create_or_update_service : Service → (Service → Result Service) → Exec W ⊤
  pub create_or_update_stateful_set : StatefulSet → (StatefulSet → Result StatefulSet) → Exec W ⊤
  pub set_controller_reference : ValkeyCluster → List Text → Result (List Text)
  pub ready_replicas : Text → Exec W ℕ
  pub list_stateful_sets : Dict Text → Exec W (List (Dict Text))
  pub delete_stateful_set : Text → Exec W ⊤
  pub list_pvcs : Dict Text → Exec W (List Text)
  pub delete_pvc : Text → Exec W ⊤
  pub contains_finalizer : ValkeyCluster → Text → Bool
  pub add_finalizer : ValkeyCluster → Text → ValkeyCluster
  pub remove_finalizer : ValkeyCluster → Text → ValkeyCluster
  pub digest : Text → Text

-- `ValkeyClusterReconciler`
pub record Reconciler (W : Type 0) : Type 0 where
  pub admin : ClusterAdmin W
  pub kube : Kube W
