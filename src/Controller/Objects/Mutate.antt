-- ===== src/Controller/Objects/Mutate.antt =====
-- What the mutation of a StatefulSet in `ensureStatefulSets` does.
use valkeycluster_operator.Prelude.{◌≡◌, true, List, arith, if◌then◌else◌, inl, inr, Bool-cases}
use valkeycluster_operator.Text.{Text}
use valkeycluster_operator.Exec.{ok, Result-cases}
use valkeycluster_operator.Api.{ValkeyCluster}
use valkeycluster_operator.Resources.Workload.{StatefulSetSpec, StatefulSet}
use valkeycluster_operator.Controller.{Reconciler}
use valkeycluster_operator.Controller.Objects.{copy_stateful_set, mutate_stateful_set}

-- the content after a mutation: what cannot change is taken over by a new object only
abbrev pub merged : StatefulSet → StatefulSet → StatefulSetSpec
merged desired sts = record desired.content {
  service_name = if sts.created then sts.content.service_name else desired.content.service_name;
  pod_management_policy =
      if sts.created
      then sts.content.pod_management_policy
      else desired.content.pod_management_policy;
  selector = if sts.created then sts.content.selector else desired.content.selector;
  volume_claim_templates =
      if sts.created
      then sts.content.volume_claim_templates
      else desired.content.volume_claim_templates;
}

module _ {W : Type 0} (r : Reconciler W) (cr : ValkeyCluster)
    (stable : (owners more : List Text)
      → r.kube.set_controller_reference cr owners ≡ ok more
      → r.kube.set_controller_reference cr more ≡ ok more) where
  -- If SetControllerReference finds nothing to add to what it has returned: a mutation of a StatefulSet
  -- gives it the desired labels, replicas and template, and all of the desired content if it is
  -- new, leaves the immutable fields of one that exists, and has nothing left to change when it is
  -- repeated on an object that exists.
  pub mutate_stateful_set_settles :
      (desired sts done : StatefulSet)
      → mutate_stateful_set r cr desired sts ≡ ok done
      → (done.name ≡ sts.name)
        × (done.namespace ≡ sts.namespace)
        × (done.labels ≡ desired.labels)
        × (done.content ≡ merged desired sts)
        × (mutate_stateful_set r cr desired (record done { created = true })
            ≡ ok (record done { created = true }))
  unfolding mutate_stateful_set copy_stateful_set
  mutate_stateful_set_settles desired sts done h =
      elim (Result-cases (r.kube.set_controller_reference cr sts.owners)) [
        | inr (e, failed) ↦ ground arith
        | inl (more, set) ↦ elim (Bool-cases sts.created) [
          | inl old ↦ ground (arith, stable sts.owners more set)
          | inr new ↦ ground (arith, stable sts.owners more set)
        ]
      ]
