-- ===== src/Controller/Status/Truth.antt =====
-- When the published phase is `Ready`, and that it agrees with what `Decide` would do.
use valkeycluster_operator.Prelude.{
  ℕ, ◌≡◌, refl, ◌⊎◌, inl, inr, ◌↔◌, true, false, List, [], ◌∷◌, arith,
}
use valkeycluster_operator.Api.{ValkeyCluster, ready}
use valkeycluster_operator.Cluster.{ClusterState}
use valkeycluster_operator.Topology.{ActionKind, decide, no_action, scale_replicas}
use valkeycluster_operator.Topology.Precedence.{
  Decides, forms, repairs, scales_out, scales_in, scales_replicas, rests, decide_iff,
}
use valkeycluster_operator.Controller.View.{count_owners, summarize}
use valkeycluster_operator.Controller.Cluster.{desired_of}
use valkeycluster_operator.Controller.Status.{
  Update, set_cond, set_conds, ready_shards, all_ready, outcome, publish,
}

set_conds_phase :
    (now : ℕ) (us : List Update) (cr : ValkeyCluster)
    → (set_conds now us cr).status.phase ≡ cr.status.phase
unfolding set_conds
set_conds_phase now [] cr = refl
set_conds_phase now (u ∷ us) cr = set_conds_phase now us (set_cond now u cr)

-- the conditions under which all is well
pub record IsAllReady (cr : ValkeyCluster) (s : ClusterState) : Type 0 where
  pub serving : ready_shards cr s ≡ cr.spec.shards
  pub owners : count_owners s.nodes ≡ cr.spec.shards
  pub covered : s.slots_covered ≡ true
  pub stable : s.open_slots ≡ false

outcome_ready :
    (cr : ValkeyCluster) (s : ClusterState) → ((outcome cr s).0 ≡ ready) ↔ IsAllReady cr s
unfolding outcome all_ready
outcome_ready cr s = (λ h. ground arith, λ h. ground arith)

-- The published phase is `Ready` exactly when every declared shard has a primary that owns slots,
-- no other master owns slots, all slots are covered and none is open.
pub publish_ready :
    (now : ℕ) (cr : ValkeyCluster) (s : ClusterState) (latest : ValkeyCluster)
    → ((publish now cr s latest).status.phase ≡ ready) ↔ IsAllReady cr s
unfolding publish
publish_ready now cr s latest = rw set_conds_phase (outcome_ready cr s)

agree :
    {cr : ValkeyCluster} {s : ClusterState}
    → s.formed ≡ true
    → IsAllReady cr s
    → {k : ActionKind} → Decides (desired_of cr) (summarize s) k
    → (k ≡ no_action) ⊎ (k ≡ scale_replicas)
unfolding summarize
agree f h (forms a) = ground arith
agree f h (repairs a b) = ground arith
agree f h (scales_out a b c) = ground arith
agree f h (scales_in a b c) = ground arith
agree f h (scales_replicas a b c d) = inr refl
agree f h (rests a b c d) = inl refl

-- A formed cluster whose status is published as `Ready` needs no repair and no change of its
-- shards: `Decide` leaves it alone or adjusts replicas.
pub publish_ready-decide :
    (now : ℕ) (cr : ValkeyCluster) (s : ClusterState) (latest : ValkeyCluster)
    → s.formed ≡ true
    → (publish now cr s latest).status.phase ≡ ready
    → let kind = (decide (desired_of cr) (summarize s)).kind in
      (kind ≡ no_action) ⊎ (kind ≡ scale_replicas)
publish_ready-decide now cr s latest f h =
    agree f ((publish_ready now cr s latest).0 h)
      ((decide_iff (desired_of cr) (summarize s) _).0 refl)
