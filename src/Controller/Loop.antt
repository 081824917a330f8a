-- ===== src/Controller/Loop.antt =====
-- internal/controller/valkeycluster_controller.go and resources.go: the entry point `Reconcile`.
pub mod Requeue
pub mod Deletion
pub mod Adoption
pub mod Setup
use valkeycluster_operator.Prelude.{
  ℕ, suc, ◌+◌, ⊤, Bool, true, false, not, List, [], ◌∷◌, ◌++◌, any, seq, ◌==◌, if◌then◌else◌,
}
use valkeycluster_operator.Prelude.Int.{pos}
use valkeycluster_operator.Text.{Text, codes, text_eq}
use valkeycluster_operator.Exec.{
  for_each, Exec, Result, ok, err, pure, raise, try, ignore, is_not_found, ◌>>=◌, ◌>>◌,
}
use valkeycluster_operator.Api.{ValkeyCluster, provisioning}
use valkeycluster_operator.Resources.{stateful_set_name}
use valkeycluster_operator.Controller.{Reconciler}
use valkeycluster_operator.Controller.Objects.{
  ensure_config_map, ensure_headless_service, ensure_stateful_sets,
}
use valkeycluster_operator.Controller.Scaling.{delete_owned_pvcs}
use valkeycluster_operator.Controller.Status.{set_phase}
use valkeycluster_operator.Controller.Cluster.{reconcile_cluster}

abbrev pub finalizer : Text
finalizer = codes "cache.razkevich.dev/finalizer"

-- `requeueAfter` and `reshardRequeue`, in seconds
abbrev pub requeue_after : ℕ
requeue_after = 15

abbrev pub reshard_requeue : ℕ
reshard_requeue = 1

module _ {W : Type 0} (r : Reconciler W) where
  open r use {kube}

  unfoldable pub ready_from : ValkeyCluster → List ℕ → Exec W Bool
  ready_from cr [] = pure true
  ready_from cr (i ∷ is) = do
    got ← try (kube.ready_replicas (stateful_set_name cr (pos i)))
    elim got [
      | err e ↦ if is_not_found e then pure false else raise e
      | ok count ↦ elim (count == 1 + cr.spec.replicas_per_shard) [
        | true ↦ ready_from cr is
        | false ↦ pure false
      ]
    ]

  -- `shardsReady`
  unfoldable pub shards_ready : ValkeyCluster → Exec W Bool
  unfolding ready_from
  shards_ready cr = ready_from cr (seq 0 cr.spec.shards)

  -- `reconcileDelete`; the result is the time to the next pass, zero for none
  unfoldable pub reconcile_delete : ValkeyCluster → Exec W ℕ
  reconcile_delete cr =
      if kube.contains_finalizer cr finalizer
      then (do
        delete_owned_pvcs r cr
        _ ← kube.update_cluster (kube.remove_finalizer cr finalizer)
        pure 0)
      else pure 0

  -- `Reconcile` behind the wait for the pods
  unfoldable pub reconcile_ready : ValkeyCluster → Exec W ℕ
  reconcile_ready cr = do
    done ← try (reconcile_cluster r cr)
    elim done [
      | err _ ↦ pure requeue_after
      | ok true ↦ pure reshard_requeue
      | ok false ↦ pure requeue_after
    ]

  -- `Reconcile` from the wait for the pods on
  unfoldable pub await_pods : ValkeyCluster → Exec W ℕ
  await_pods cr = do
    is_ready ← shards_ready cr
    if is_ready then reconcile_ready cr else do
      ignore (set_phase r provisioning (codes "Provisioning") (codes "waiting for shard pods"))
      pure requeue_after

  -- `Reconcile` of a resource that is not being deleted and carries the finalizer
  unfoldable pub reconcile_live : ValkeyCluster → Exec W ℕ
  reconcile_live cr = do
    ensure_config_map r cr
    ensure_headless_service r cr
    ensure_stateful_sets r cr
    await_pods cr

  -- `Reconcile` of a resource that was read
  unfoldable pub reconcile_found : ValkeyCluster → Exec W ℕ
  unfolding reconcile_live reconcile_delete
  reconcile_found cr =
      if cr.deleting
      then reconcile_delete cr
      else if kube.contains_finalizer cr finalizer
      then reconcile_live cr
      else do stored ← kube.update_cluster (kube.add_finalizer cr finalizer); reconcile_live stored

  -- `Reconcile`
  unfoldable pub reconcile : Exec W ℕ
  reconcile = do
    got ← try kube.get_cluster
    elim got [ err e ↦ if is_not_found e then pure 0 else raise e | ok cr ↦ reconcile_found cr ]
