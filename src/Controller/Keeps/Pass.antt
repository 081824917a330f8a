-- ===== src/Controller/Keeps/Pass.antt =====
-- One pass of the reconciler over a resource that is not being deleted.
use valkeycluster_operator.Prelude.{ℕ, suc, arith, List, [], ◌∷◌, inl, inr, seq}
use valkeycluster_operator.Prelude.Int.{pos}
use valkeycluster_operator.Text.{Text, codes}
use valkeycluster_operator.Exec.{for_each, Result, Result-cases}
use valkeycluster_operator.Exec.Keeps.{Keeps, for_each-Keeps}
use valkeycluster_operator.Api.{
  ValkeyCluster, Phase, forming, resharding, scaling_replicas, provisioning,
}
use valkeycluster_operator.Resources.{config_map, headless_service, stateful_set_name}
use valkeycluster_operator.Resources.Workload.{stateful_set}
use valkeycluster_operator.Controller.Objects.{
  mutate_config_map, mutate_service, mutate_stateful_set, ensure_config_map,
  ensure_headless_service, ensure_stateful_set, ensure_stateful_sets,
}
use valkeycluster_operator.Slots.{distribute}
use valkeycluster_operator.Topology.{
  ActionKind, form, repair, scale_out_shards, scale_in_shards, scale_replicas, no_action,
}
use valkeycluster_operator.Cluster.{Endpoint, SlotRange, ClusterState}
use valkeycluster_operator.Controller.{Reconciler}
use valkeycluster_operator.Controller.View.{endpoint, seed, all_endpoints}
use valkeycluster_operator.Controller.Status.{
  rewrite_status, enter_phase, publish, update_status, set_phase,
}
use valkeycluster_operator.Controller.Cluster.{
  meet_other, assign_from, form_cluster, choose_plan, act, reconcile_cluster,
}
use valkeycluster_operator.Controller.Loop.{
  ready_from, shards_ready, reconcile_ready, await_pods, reconcile_live,
}
use valkeycluster_operator.Controller.Keeps.{AdminKeeps, KubeKeeps, reconcile_membership-Keeps}
use valkeycluster_operator.Controller.Keeps.Scaling.{observe_attach-Keeps, scale_out-Keeps}
use valkeycluster_operator.Controller.Keeps.Removal.{scale_in-Keeps, has_excess-Keeps}

module _ {W : Type 0} (P : W → Type 0) (r : Reconciler W) (cr : ValkeyCluster)
    (ha : AdminKeeps P r.admin) (hk : KubeKeeps P cr r.kube) where
  rewrite_status-Keeps :
      (change : ℕ → ValkeyCluster → ValkeyCluster) → Keeps P (rewrite_status r change)
  unfolding rewrite_status
  rewrite_status-Keeps change = hk.retry_on_conflict _ λ w p.
      elim (Result-cases (r.kube.get_cluster w).0) [
        | inr (e, failed) ↦ ground (arith, hk.get_cluster w p)
        | inl (latest, got) ↦ ground (
          arith,
          hk.get_cluster w p,
          hk.update_status (change (r.kube.now (r.kube.get_cluster w).1) latest)
              (r.kube.get_cluster w).1,
        )
      ]

  set_phase-Keeps : (ph : Phase) (reason message : Text) → Keeps P (set_phase r ph reason message)
  unfolding set_phase
  set_phase-Keeps ph reason message =
      rewrite_status-Keeps (λ now. enter_phase now ph reason message)

  update_status-Keeps : (st : ClusterState) → Keeps P (update_status r cr st)
  unfolding update_status
  update_status-Keeps st = rewrite_status-Keeps (λ now. publish now cr st)

  meet_other-Keeps : (ep : Endpoint) → Keeps P (meet_other r cr ep)
  unfolding meet_other
  meet_other-Keeps ep w p = ground (arith, ha.meet (seed cr) ep w p)

  assign_from-Keeps : (i : ℕ) (rs : List SlotRange) → Keeps P (assign_from r cr i rs)
  unfolding assign_from
  assign_from-Keeps i [] w p = p
  assign_from-Keeps i (range ∷ rs) w p = ground (
    arith,
    ha.add_slots (endpoint cr (pos i) 0) (range ∷ []) w p,
    assign_from-Keeps (suc i) rs (r.admin.add_slots (endpoint cr (pos i) 0) (range ∷ []) w).1,
  )

  form_cluster-Keeps : Keeps P (form_cluster r cr)
  unfolding form_cluster
  form_cluster-Keeps w p =
      let met = for_each (all_endpoints cr) (meet_other r cr) w in
      let assigned = assign_from r cr 0 (distribute (pos cr.spec.shards)) met.1 in
      ground (
        arith,
        for_each-Keeps {P = P} (meet_other r cr) (all_endpoints cr) (λ ep _. meet_other-Keeps ep) w
            p,
        assign_from-Keeps 0 (distribute (pos cr.spec.shards)) met.1,
        observe_attach-Keeps P r cr ha hk assigned.1,
      )

  choose_plan-Keeps : (st : ClusterState) → Keeps P (choose_plan r cr st)
  unfolding choose_plan
  choose_plan-Keeps st w p = ground (arith, has_excess-Keeps P r cr ha hk w p)

  act-Keeps : (st : ClusterState) (kind : ActionKind) → Keeps P (act r cr st kind)
  unfolding act
  act-Keeps st form w p =
      form_cluster-Keeps (set_phase r forming _ _ w).1 (set_phase-Keeps forming _ _ w p)
  act-Keeps st repair w p =
      ha.repair_slots (seed cr) (set_phase r resharding _ _ w).1
        (set_phase-Keeps resharding _ _ w p)
  act-Keeps st scale_out_shards w p =
      scale_out-Keeps P r cr ha hk _ (set_phase r resharding _ _ w).1
        (set_phase-Keeps resharding _ _ w p)
  act-Keeps st scale_in_shards w p =
      scale_in-Keeps P r cr ha hk (set_phase r resharding _ _ w).1
        (set_phase-Keeps resharding _ _ w p)
  act-Keeps st scale_replicas w p =
      reconcile_membership-Keeps P r cr ha hk st (set_phase r scaling_replicas _ _ w).1
        (set_phase-Keeps scaling_replicas _ _ w p)
  act-Keeps st no_action w p = reconcile_membership-Keeps P r cr ha hk st w p

  -- Whatever a pass over the cluster decides to do, it keeps what all its requests keep: the
  -- operations on the cluster, the status writes, the deletion of a StatefulSet whose shard is not
  -- declared, and that of the volumes listed under such a shard.
  pub reconcile_cluster-Keeps : Keeps P (reconcile_cluster r cr)
  unfolding reconcile_cluster
  reconcile_cluster-Keeps w p = elim (Result-cases look.0) [
    | inr (e, failed) ↦ ground (arith, looked)
    | inl (st, observed) ↦ elim (Result-cases (choose_plan r cr st look.1).0) [
      | inr (e, failed) ↦ ground (arith, choose_plan-Keeps st look.1 looked)
      | inl (chosen, planned) ↦
          let acted = act r cr st chosen.kind (choose_plan r cr st look.1).1 in
          let kept =
            act-Keeps st chosen.kind (choose_plan r cr st look.1).1
              (choose_plan-Keeps st look.1 looked) in
          elim (Result-cases (r.admin.state (seed cr) acted.1).0) [
            | inr (e, failed) ↦ ground (arith, kept, ha.state (seed cr) acted.1 kept)
            | inl (st', after) ↦ ground (
              arith,
              kept,
              update_status-Keeps st' (r.admin.state (seed cr) acted.1).1
                  (ha.state (seed cr) acted.1 kept),
            )
          ]
    ]
  ]
    where
      look : Result ClusterState × W
      look = r.admin.state (seed cr) w

      looked : P look.1
      looked = ha.state (seed cr) w p

  config_map-Keeps : Keeps P (ensure_config_map r cr)
  unfolding ensure_config_map
  config_map-Keeps = hk.create_or_update_config_map _ (mutate_config_map r cr (config_map cr))

  service-Keeps : Keeps P (ensure_headless_service r cr)
  unfolding ensure_headless_service
  service-Keeps = hk.create_or_update_service _ (mutate_service r cr (headless_service cr))

  ensure-Keeps : Keeps P (ensure_stateful_sets r cr)
  unfolding ensure_stateful_sets ensure_stateful_set
  ensure-Keeps = for_each-Keeps (ensure_stateful_set r cr) (seq 0 cr.spec.shards) (λ i _.
      hk.create_or_update_stateful_set _
        (mutate_stateful_set r cr (stateful_set r.kube.digest cr (pos i))))

  ready_from-Keeps : (is : List ℕ) → Keeps P (ready_from r cr is)
  unfolding ready_from
  ready_from-Keeps [] w p = p
  ready_from-Keeps (i ∷ is) w p =
      let asked = r.kube.ready_replicas (stateful_set_name cr (pos i)) w in
      ground
        (arith, hk.ready_replicas (stateful_set_name cr (pos i)) w p, ready_from-Keeps is asked.1)

  reconcile_ready-Keeps : Keeps P (reconcile_ready r cr)
  unfolding reconcile_ready
  reconcile_ready-Keeps w p = ground (arith, reconcile_cluster-Keeps w p)

  await_pods-Keeps : Keeps P (await_pods r cr)
  unfolding await_pods shards_ready
  await_pods-Keeps w p =
      let at = (ready_from r cr (seq 0 cr.spec.shards) w).1 in
      ground (
        arith,
        ready_from-Keeps (seq 0 cr.spec.shards) w p,
        reconcile_ready-Keeps at,
        set_phase-Keeps provisioning (codes "Provisioning") (codes "waiting for shard pods") at,
      )

  -- `Reconcile` of a resource that is not being deleted, from its first write to its last, keeps
  -- every predicate on the world that is kept by the operations on the cluster, by reading and
  -- writing the resource and its objects, by the deletion of a StatefulSet named after a shard that
  -- is not declared, and by that of a volume listed under such a shard: it deletes nothing else.
  pub reconcile_live-Keeps : Keeps P (reconcile_live r cr)
  unfolding reconcile_live
  reconcile_live-Keeps w p =
      let configured = ensure_config_map r cr w in
      let served = ensure_headless_service r cr configured.1 in
      let ensured = ensure_stateful_sets r cr served.1 in
      ground (
        arith,
        config_map-Keeps w p,
        service-Keeps configured.1,
        ensure-Keeps served.1,
        await_pods-Keeps ensured.1,
      )
