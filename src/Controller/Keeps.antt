-- ===== src/Controller/Keeps.antt =====
-- Which requests a pass of the reconciler may send: a predicate that every allowed request keeps is
-- kept by the whole pass. The child modules follow the components.
pub mod Scaling
pub mod Removal
pub mod Pass
pub mod Network
use valkeycluster_operator.Prelude.{
  ℕ, arith, ⊤, true, false, seq, inl, inr, refl, none, some, List, [], ◌∷◌, ◌≡◌, Has, if◌then◌else◌,
}
use valkeycluster_operator.Prelude.Int.{ℤ, pos, ◌≤ℤ◌}
use valkeycluster_operator.Text.{Text, codes, is_empty}
use valkeycluster_operator.Text.Decimal.{itoa}
use valkeycluster_operator.Dict.{Dict, lookup}
use valkeycluster_operator.Exec.{
  Result, for_each, Exec, ignore, ok, err, pure, try, ◌>>=◌, Result-cases,
}
use valkeycluster_operator.Exec.Keeps.{Keeps, for_each-Keeps}
use valkeycluster_operator.Api.{ValkeyCluster}
use valkeycluster_operator.Resources.{
  ConfigMap, Service, stateful_set_name, label_shard, label_instance,
}
use valkeycluster_operator.Resources.Workload.{StatefulSet}
use valkeycluster_operator.Cluster.{Endpoint, SlotRange, ClusterState, NodeInfo}
use valkeycluster_operator.Cluster.Admin.{ClusterAdmin}
use valkeycluster_operator.Controller.{Kube, Reconciler}
use valkeycluster_operator.Controller.View.{
  endpoint, seed, ordinals, all_endpoints, by_id, host_index,
}
use valkeycluster_operator.Controller.Membership.{
  is_owner, replicates, is_stale, find_from, find_shard_primary, attach_one, attach_shard,
  attach_replicas, forget_everywhere, forget_if_stale, existing_shard_indexes, existing_pod_hosts,
  forget_stale_nodes, meet_missing, reconcile_membership,
}

-- the operations on the cluster that a pass uses
pub record AdminKeeps {W : Type 0} (P : W → Type 0) (a : ClusterAdmin W) : Type 0 where
  pub state : (ep : Endpoint) → Keeps P (a.state ep)
  pub my_id : (ep : Endpoint) → Keeps P (a.my_id ep)
  pub meet : (from target : Endpoint) → Keeps P (a.meet from target)
  pub add_slots : (ep : Endpoint) (rs : List SlotRange) → Keeps P (a.add_slots ep rs)
  pub replicate : (ep : Endpoint) (id : Text) → Keeps P (a.replicate ep id)
  pub forget : (ep : Endpoint) (id : Text) → Keeps P (a.forget ep id)
  pub move_slots : (ep : Endpoint) (from to : Text) (n : ℤ) → Keeps P (a.move_slots ep from to n)
  pub repair_slots : (ep : Endpoint) → Keeps P (a.repair_slots ep)

-- the labels by which the volumes of a shard are listed
abbrev pub volume_labels : ValkeyCluster → ℤ → Dict Text
volume_labels cr i = (label_shard, itoa i) ∷ (label_instance, cr.name) ∷ []

-- the requests to Kubernetes that a pass may send: StatefulSets are deleted by the name of a shard
-- that is not declared, and volumes as they are listed by the labels of such a shard
pub record KubeKeeps {W : Type 0} (P : W → Type 0) (cr : ValkeyCluster) (k : Kube W) : Type 0 where
  pub get_cluster : Keeps P k.get_cluster
  pub update_status : (latest : ValkeyCluster) → Keeps P (k.update_status latest)
  pub retry_on_conflict : (m : Exec W ⊤) → Keeps P m → Keeps P (k.retry_on_conflict m)
  pub create_or_update_config_map :
      (c : ConfigMap) (mutate : ConfigMap → Result ConfigMap)
      → Keeps P (k.create_or_update_config_map c mutate)
  pub create_or_update_service :
      (s : Service) (mutate : Service → Result Service)
      → Keeps P (k.create_or_update_service s mutate)
  pub create_or_update_stateful_set :
      (s : StatefulSet) (mutate : StatefulSet → Result StatefulSet)
      → Keeps P (k.create_or_update_stateful_set s mutate)
  pub ready_replicas : (name : Text) → Keeps P (k.ready_replicas name)
  pub list_stateful_sets : (labels : Dict Text) → Keeps P (k.list_stateful_sets labels)
  pub list_pvcs : (labels : Dict Text) → Keeps P (k.list_pvcs labels)
  pub delete_stateful_set :
      (i : ℤ) → pos cr.spec.shards ≤ℤ i → Keeps P (k.delete_stateful_set (stateful_set_name cr i))
  pub delete_pvc :
      (i : ℤ)
      → pos cr.spec.shards ≤ℤ i
      → (w : W) (pvcs : List Text) → (k.list_pvcs (volume_labels cr i) w).0 ≡ ok pvcs
      → (p : Text) → Has (λ q. q ≡ p) pvcs
      → Keeps P (k.delete_pvc p)

module _ {W : Type 0} (P : W → Type 0) (r : Reconciler W) (cr : ValkeyCluster)
    (ha : AdminKeeps P r.admin) (hk : KubeKeeps P cr r.kube) where
  find_from-Keeps : (s : ℤ) (idx : Dict NodeInfo) (js : List ℕ) → Keeps P (find_from r cr s idx js)
  unfolding find_from
  find_from-Keeps s idx [] w p = ground (arith, ha.my_id (endpoint cr s 0) w p)
  find_from-Keeps s idx (j ∷ js) w p =
      let asked = r.admin.my_id (endpoint cr s j) w in
      ground (arith, ha.my_id (endpoint cr s j) w p, find_from-Keeps s idx js asked.1)

  attach_one-Keeps :
      (idx : Dict NodeInfo) (s : ℤ) (id : Text) (k : ℤ) (j : ℕ)
      → Keeps P (attach_one r cr idx s id k j)
  unfolding attach_one
  attach_one-Keeps idx s id k j w p =
      let asked = r.admin.my_id (endpoint cr s j) w in
      ground (arith, ha.my_id (endpoint cr s j) w p, ha.replicate (endpoint cr s j) id asked.1)

  pub find_shard_primary-Keeps :
      (s : ℤ) (idx : Dict NodeInfo) → Keeps P (find_shard_primary r cr s idx)
  unfolding find_shard_primary
  find_shard_primary-Keeps s idx = find_from-Keeps s idx (ordinals cr)

  attach_shard-Keeps : (idx : Dict NodeInfo) (i : ℕ) → Keeps P (attach_shard r cr idx i)
  unfolding attach_shard
  attach_shard-Keeps idx i w p =
      let found = find_shard_primary r cr (pos i) idx w in
      elim (Result-cases found.0) [
        | inr (e, failed) ↦ ground (arith, find_shard_primary-Keeps (pos i) idx w p)
        | inl ((id, k), seen) ↦ ground (
          arith,
          find_shard_primary-Keeps (pos i) idx w p,
          for_each-Keeps {P = P} (attach_one r cr idx (pos i) id k) (ordinals cr)
              (λ j _. attach_one-Keeps idx (pos i) id k j) found.1,
        )
      ]

  pub attach_replicas-Keeps : (st : ClusterState) → Keeps P (attach_replicas r cr st)
  unfolding attach_replicas
  attach_replicas-Keeps st =
      for_each-Keeps (attach_shard r cr (by_id st)) (seq 0 cr.spec.shards)
        (λ i _. attach_shard-Keeps (by_id st) i)

  pub forget_everywhere-Keeps : (id : Text) → Keeps P (forget_everywhere r cr id)
  unfolding forget_everywhere
  forget_everywhere-Keeps id =
      for_each-Keeps (λ ep. ignore (r.admin.forget ep id)) (all_endpoints cr)
        (λ ep _. ha.forget ep id)

  pub existing_shard_indexes-Keeps : Keeps P (existing_shard_indexes r cr)
  unfolding existing_shard_indexes
  existing_shard_indexes-Keeps w p =
      ground (arith, hk.list_stateful_sets ((label_instance, cr.name) ∷ []) w p)

  existing_pod_hosts-Keeps : Keeps P (existing_pod_hosts r cr)
  unfolding existing_pod_hosts
  existing_pod_hosts-Keeps w p = ground (arith, existing_shard_indexes-Keeps w p)

  forget_if_stale-Keeps : (want : List Text) (n : NodeInfo) → Keeps P (forget_if_stale r cr want n)
  unfolding forget_if_stale
  forget_if_stale-Keeps want n w p = ground (arith, forget_everywhere-Keeps n.id w p)

  pub forget_stale_nodes-Keeps : (st : ClusterState) → Keeps P (forget_stale_nodes r cr st)
  unfolding forget_stale_nodes
  forget_stale_nodes-Keeps st w p = elim (Result-cases (existing_pod_hosts r cr w).0) [
    | inr (e, failed) ↦ ground (arith, existing_pod_hosts-Keeps w p)
    | inl (want, seen) ↦ ground (
      arith,
      existing_pod_hosts-Keeps w p,
      for_each-Keeps {P = P} (forget_if_stale r cr want) st.nodes
          (λ n _. forget_if_stale-Keeps want n) (existing_pod_hosts r cr w).1,
    )
  ]

  meet_missing-Keeps :
      (by_host : Dict NodeInfo) (ep : Endpoint) → Keeps P (meet_missing r cr by_host ep)
  unfolding meet_missing
  meet_missing-Keeps by_host ep w p = ground (arith, ha.meet (seed cr) ep w p)

  pub reconcile_membership-Keeps : (st : ClusterState) → Keeps P (reconcile_membership r cr st)
  unfolding reconcile_membership
  reconcile_membership-Keeps st w p =
      let met = for_each (all_endpoints cr) (meet_missing r cr (host_index st)) in
      ground (
        arith,
        for_each-Keeps (meet_missing r cr (host_index st)) (all_endpoints cr)
            (λ ep _. meet_missing-Keeps (host_index st) ep) w p,
        attach_replicas-Keeps st (met w).1,
        forget_stale_nodes-Keeps st (attach_replicas r cr st (met w).1).1,
      )
