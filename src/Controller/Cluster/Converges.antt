-- ===== src/Controller/Cluster/Converges.antt =====
-- Forming a cluster in memory leaves nothing to do.
use valkeycluster_operator.Prelude.{ℕ, ◌≤◌, ◌<◌, ◌≡◌, refl, ap, sym, ◌∙◌, arith}
use valkeycluster_operator.Prelude.Int.{pos}
use valkeycluster_operator.Exec.{for_each, ok}
use valkeycluster_operator.Api.{ValkeyCluster}
use valkeycluster_operator.Topology.{decide, no_action}
use valkeycluster_operator.Cluster.{total_slots, slot_count, count_slots}
use valkeycluster_operator.Cluster.Fake.{Fake, new_fake, assigned_slots, state}
use valkeycluster_operator.Controller.{Kube}
use valkeycluster_operator.Controller.View.{all_endpoints, summarize}
use valkeycluster_operator.Controller.View.Summary.{IsSettled, decide-summarize}
use valkeycluster_operator.Controller.Cluster.{desired_of, meet_other, form_cluster}
use valkeycluster_operator.Controller.Cluster.Form.{in_memory, form_total}
use valkeycluster_operator.Controller.Cluster.Table.{table}
use valkeycluster_operator.Controller.Cluster.Pods.{pods, pods-All}
use valkeycluster_operator.Controller.Cluster.Met.{fresh, met_lem}
use valkeycluster_operator.Controller.Cluster.Led.{led, led_lem}
use valkeycluster_operator.Controller.Cluster.Attached.{settled, attached_lem}
use valkeycluster_operator.Controller.Cluster.Counted.{counted-IsSettled}
use valkeycluster_operator.Controller.Cluster.Counts.{
  assigned_slots-table, replicas_of-settled, count_owners-settled,
}

module _ (k : Kube Fake) (cr : ValkeyCluster) (some_shard : 0 < cr.spec.shards)
    (few : cr.spec.shards ≤ total_slots) where
  abbrev pub formed_fake : Fake
  formed_fake = table cr (settled k cr) (pods cr)

  pub form_cluster_runs : form_cluster (in_memory k cr) cr new_fake ≡ (ok tt, formed_fake)
  unfolding form_cluster
  form_cluster_runs =
      let met = for_each (all_endpoints cr) (meet_other (in_memory k cr) cr) new_fake in
      let (met_ok, here) = met_lem k cr some_shard in
      ground (
        arith,
        met_ok,
        led_lem k cr (fresh k cr 0 0) met.1 some_shard here,
        attached_lem k cr some_shard few,
      )

  same_slots : (i j : ℕ) → slot_count (led k cr i j) ≡ slot_count (settled k cr i j)
  unfolding slot_count count_slots
  same_slots i j = ground arith

  pub total : assigned_slots formed_fake ≡ pos total_slots
  total =
      let met = for_each (all_endpoints cr) (meet_other (in_memory k cr) cr) new_fake in
      let (_, here) = met_lem k cr some_shard in
      let assigned = led_lem k cr (fresh k cr 0 0) met.1 some_shard here in
      sym (
        assigned_slots-table cr (led k cr) (settled k cr) (pods cr) (
          pods-All (λ p. slot_count (led k cr p.0 p.1) ≡ slot_count (settled k cr p.0 p.1)) cr
            (λ i j _ _. same_slots i j)))
      ∙ sym (ap (λ t. assigned_slots t.1) assigned)
      ∙ form_total k cr new_fake some_shard (unfold assigned_slots in refl)

  pub formed_fake-IsSettled : IsSettled (desired_of cr) (state formed_fake)
  formed_fake-IsSettled =
      counted-IsSettled k cr (pods cr) (pods-All (λ p. p.0 < cr.spec.shards) cr (λ a b h _. h))
        total (count_owners-settled k cr some_shard few) (replicas_of-settled k cr)

  -- For at least one shard and at most 16384: from an empty cluster in memory `formCluster` succeeds,
  -- and leaves a cluster for which `Decide` finds nothing to do: formed, every slot covered, as many
  -- masters with slots as declared shards, and each of them with the declared number of replicas.
  pub form_cluster-settles :
      let done = form_cluster (in_memory k cr) cr new_fake in
      (done.0 ≡ ok tt) × ((decide (desired_of cr) (summarize (state done.1))).kind ≡ no_action)
  form_cluster-settles =
      rw form_cluster_runs
        (refl, (decide-summarize (desired_of cr) (state formed_fake)).1 formed_fake-IsSettled)
