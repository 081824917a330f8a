-- ===== src/Controller/Cluster/Scales.antt =====
-- The pass over a cluster in memory for which more replicas have been declared.
use valkeycluster_operator.Prelude.{
  ℕ, ◌+◌, ◌-◌, ◌≤◌, ◌<◌, ◌≡◌, ◌++◌, refl, ap, sym, ◌∙◌, false, arith,
}
use valkeycluster_operator.Exec.{ok, pure, ◌>>◌}
use valkeycluster_operator.Api.{ValkeyCluster, ready, scaling_replicas}
use valkeycluster_operator.Topology.{decide, no_action, scale_replicas}
use valkeycluster_operator.Cluster.{total_slots}
use valkeycluster_operator.Cluster.Fake.{Fake, new_fake, state}
use valkeycluster_operator.Controller.{Kube}
use valkeycluster_operator.Controller.View.{summarize}
use valkeycluster_operator.Controller.View.Summary.{decide-summarize, rescaled_lem}
use valkeycluster_operator.Controller.Status.{publish, update_status}
use valkeycluster_operator.Controller.Status.Truth.{publish_ready}
use valkeycluster_operator.Controller.Status.Formed.{here-IsAllReady}
use valkeycluster_operator.Controller.Cluster.{
  desired_of, form_cluster, keeps_plan, is_progress, choose_plan, act, reconcile_cluster,
}
use valkeycluster_operator.Controller.Cluster.Form.{in_memory}
use valkeycluster_operator.Controller.Cluster.Converges.{
  formed_fake, form_cluster_runs, formed_fake-IsSettled,
}
use valkeycluster_operator.Controller.Cluster.Stays.{Aside}
use valkeycluster_operator.Controller.Cluster.Passes.{
  then_still, set_phase_still, update_status_still, excess_lem,
}
use valkeycluster_operator.Controller.Cluster.Extra.{kept, extra}
use valkeycluster_operator.Controller.Cluster.Grow.{before}
use valkeycluster_operator.Controller.Cluster.Replicas.{
  with_replicas, after, covers, grow_runs, was_formed, after-IsSettled,
}

module _ (k : Kube Fake) (cr : ValkeyCluster) (some_shard : 0 < cr.spec.shards)
    (few : cr.spec.shards ≤ total_slots) (laws : Aside k cr) (r : ℕ)
    (fewer : r < cr.spec.replicas_per_shard) where
  abbrev missing : ℕ
  missing = cr.spec.replicas_per_shard - r

  more : r + missing ≡ cr.spec.replicas_per_shard
  more = omega arith

  abbrev early : Fake
  early = before k cr r missing

  abbrev late : Fake
  late = after k cr some_shard few laws r missing more

  decides_replicas : (decide (desired_of cr) (summarize (state early))).kind ≡ scale_replicas
  decides_replicas =
      ap (λ f. (decide (desired_of cr) (summarize (state f))).kind)
        (sym (was_formed k cr some_shard few laws r missing more))
      ∙ rescaled_lem (desired_of cr) r (state (formed_fake k (with_replicas r cr) some_shard few))
          some_shard (λ e. omega arith)
          (formed_fake-IsSettled k (with_replicas r cr) some_shard few)

  choose_replicas :
      choose_plan (in_memory k cr) cr (state early) early
      ≡ (ok (decide (desired_of cr) (summarize (state early))), early)
  unfolding choose_plan keeps_plan
  choose_replicas = ground (arith, decides_replicas, excess_lem k cr some_shard few laws early)

  act_replicas : act (in_memory k cr) cr (state early) scale_replicas early ≡ (ok tt, late)
  unfolding act
  act_replicas =
      rw (set_phase_still k cr some_shard few laws scaling_replicas _ _ early)
        (grow_runs k cr some_shard few laws r missing more)

  scaling_pass :
      reconcile_cluster (in_memory k cr) cr early
      ≡ (update_status (in_memory k cr) cr (state late) >> pure false) late
  unfolding reconcile_cluster is_progress
  scaling_pass = rw (choose_replicas, decides_replicas, act_replicas) refl

  after_pass : (reconcile_cluster (in_memory k cr) cr early).1 ≡ late
  after_pass =
      ap (λ t. t.1) scaling_pass
      ∙ then_still (update_status (in_memory k cr) cr (state late)) false late
          (update_status_still k cr some_shard few laws (state late) late)

  formed_early :
      (form_cluster (in_memory k (with_replicas r cr)) (with_replicas r cr) new_fake).1 ≡ early
  formed_early =
      ap (λ t. t.1) (form_cluster_runs k (with_replicas r cr) some_shard few)
      ∙ was_formed k cr some_shard few laws r missing more

  -- For at least one shard and at most 16384, where the StatefulSets that are listed are those of the
  -- declared shards: when a cluster has been formed in memory with `r` replicas per shard, and more
  -- are declared, `Decide` chooses ScaleReplicas; and after one pass, whether its writes of the status
  -- succeed or not, `Decide` finds nothing to do, and the status that is published is `Ready`.
  pub replicas_added :
      let f = (form_cluster (in_memory k (with_replicas r cr)) (with_replicas r cr) new_fake).1 in
      let g = (reconcile_cluster (in_memory k cr) cr f).1 in
      ((decide (desired_of cr) (summarize (state f))).kind ≡ scale_replicas)
      × ((decide (desired_of cr) (summarize (state g))).kind ≡ no_action)
      × ((now : ℕ) (latest : ValkeyCluster)
          → (publish now cr (state g) latest).status.phase ≡ ready)
  replicas_added =
      let done = after-IsSettled k cr some_shard few laws r missing more in
      rw (formed_early, after_pass)
        (
          decides_replicas,
          (decide-summarize (desired_of cr) (state late)).1 done,
          λ now latest. (publish_ready now cr (state late) latest).1 (
              here-IsAllReady k cr some_shard few
                (kept cr.spec.shards r ++ extra cr.spec.shards r missing)
                (covers k cr some_shard few laws r missing more) done),
        )
