-- ===== src/Tests/Forming.antt =====
-- Passes over a cluster in memory.
use valkeycluster_operator.Prelude.{ℕ, ◌≡◌, refl, false, List, [], ◌∷◌, arith}
use valkeycluster_operator.Text.{Text, codes, text_eq}
use valkeycluster_operator.Text.Decimal.{atoi}
use valkeycluster_operator.Dict.{Dict, lookup}
use valkeycluster_operator.Exec.{pure, ◌>>◌}
use valkeycluster_operator.Api.{ValkeyCluster, ready}
use valkeycluster_operator.Resources.{label_shard}
use valkeycluster_operator.Topology.{decide, scale_replicas, no_action}
use valkeycluster_operator.Cluster.Fake.{Fake, new_fake, state}
use valkeycluster_operator.Controller.{Kube}
use valkeycluster_operator.Controller.View.{summarize}
use valkeycluster_operator.Controller.Membership.{shard_indexes}
use valkeycluster_operator.Controller.Status.{publish, update_status}
use valkeycluster_operator.Controller.Cluster.{desired_of, form_cluster, reconcile_cluster}
use valkeycluster_operator.Controller.Cluster.Form.{in_memory}
use valkeycluster_operator.Controller.Cluster.Stays.{Aside}
use valkeycluster_operator.Controller.Cluster.Passes.{passes, passes_converge}
use valkeycluster_operator.Controller.Cluster.Replicas.{with_replicas}
use valkeycluster_operator.Controller.Cluster.Scales.{replicas_added}
use valkeycluster_operator.Tests.World.{demo, test_kube}

-- the StatefulSets of the three shards of the demo, in another order
abbrev three_sets : List (Dict Text)
three_sets =
    ((label_shard, codes "2") ∷ [])
    ∷ ((label_shard, codes "0") ∷ [])
    ∷ ((label_shard, codes "1") ∷ [])
    ∷ []

abbrev calm : Kube Fake
calm = test_kube three_sets

calm-Aside : Aside calm demo
unfolding shard_indexes lookup text_eq atoi
calm-Aside = record {
  getting = λ f. refl;
  updating = λ c f. refl;
  retrying = λ m h f. h f;
  listed = three_sets;
  listing = λ f. refl;
  indexes = refl;
}

passes_converge_example :
    let f = passes calm demo 2 new_fake in
    ((decide (desired_of demo) (summarize (state f))).kind ≡ no_action)
    × ((now : ℕ) (latest : ValkeyCluster)
        → (publish now demo (state f) latest).status.phase ≡ ready)
    × (reconcile_cluster (in_memory calm demo) demo f
        ≡ (update_status (in_memory calm demo) demo (state f) >> pure false) f)
passes_converge_example = passes_converge calm demo (omega arith) (omega arith) calm-Aside 1

-- the demo was formed without replicas
abbrev alone : ValkeyCluster
alone = with_replicas 0 demo

replicas_added_example :
    let f = (form_cluster (in_memory calm alone) alone new_fake).1 in
    let g = (reconcile_cluster (in_memory calm demo) demo f).1 in
    ((decide (desired_of demo) (summarize (state f))).kind ≡ scale_replicas)
    × ((decide (desired_of demo) (summarize (state g))).kind ≡ no_action)
    × ((now : ℕ) (latest : ValkeyCluster)
        → (publish now demo (state g) latest).status.phase ≡ ready)
replicas_added_example =
    replicas_added calm demo (omega arith) (omega arith) calm-Aside 0 (omega arith)
