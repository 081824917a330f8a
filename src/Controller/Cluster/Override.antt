-- ===== src/Controller/Cluster/Override.antt =====
-- Which plan a pass carries out.
use valkeycluster_operator.Prelude.{◌≡◌, true, false, List, arith, any}
use valkeycluster_operator.Prelude.Int.{ℤ, pos, leb_ℤ}
use valkeycluster_operator.Exec.{ok}
use valkeycluster_operator.Api.{ValkeyCluster}
use valkeycluster_operator.Cluster.{ClusterState}
use valkeycluster_operator.Topology.{repair, scale_in_shards, plan, decide}
use valkeycluster_operator.Topology.Precedence.{repairs, decide_iff}
use valkeycluster_operator.Controller.{Reconciler}
use valkeycluster_operator.Controller.View.{summarize}
use valkeycluster_operator.Controller.Scaling.{has_excess_shard_stateful_sets}
use valkeycluster_operator.Controller.Membership.{existing_shard_indexes}
use valkeycluster_operator.Controller.Cluster.{desired_of, keeps_plan, choose_plan}

module _ {W : Type 0} (r : Reconciler W) (cr : ValkeyCluster) where
  -- While the cluster is formed and has uncovered or open slots, `Decide` asks for a repair; yet as
  -- soon as the StatefulSet of a departing shard is listed, the pass scales in instead.
  pub repair_overridden :
      (s : ClusterState) (w w' : W) (idxs : List ℤ)
      → s.formed ≡ true
      → (summarize s).slots_covered ≡ false
      → existing_shard_indexes r cr w ≡ (ok idxs, w')
      → any (λ i. leb_ℤ (pos cr.spec.shards) i) idxs ≡ true
      → ((decide (desired_of cr) (summarize s)).kind ≡ repair)
        × (choose_plan r cr s w ≡ (ok (plan scale_in_shards), w'))
  unfolding choose_plan has_excess_shard_stateful_sets keeps_plan
  repair_overridden s w w' idxs f c listed excess =
      let decided = (decide_iff (desired_of cr) (summarize s) repair).1 (repairs formed c) in
      (decided, ground arith)
    where
      formed : (summarize s).formed ≡ true
      formed = unfold summarize in f
