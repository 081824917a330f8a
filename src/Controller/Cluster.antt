-- ===== src/Controller/Cluster.antt =====
-- internal/controller/reconcile.go: one pass of observing, deciding, acting and reporting.
pub mod Override
pub mod Form
pub mod Table
pub mod Pods
pub mod Met
pub mod Named
pub mod Hosts
pub mod Led
pub mod Attach
pub mod Attached
pub mod Counts
pub mod Counted
pub mod Converges
pub mod Stays
pub mod Passes
pub mod Extra
pub mod Grow
pub mod Grown
pub mod Replicas
pub mod Scales
use valkeycluster_operator.Prelude.{
  ℕ, suc, ⊤, Bool, true, false, not, ◌&&◌, Option, none, some, List, [], ◌∷◌, seq, if◌then◌else◌,
}
use valkeycluster_operator.Prelude.Int.{ℤ, pos}
use valkeycluster_operator.Text.{Text, codes, text_eq}
use valkeycluster_operator.Exec.{for_each, Exec, pure, ignore, with_context, ◌>>=◌, ◌>>◌}
use valkeycluster_operator.Api.{ValkeyCluster, forming, resharding, scaling_replicas}
use valkeycluster_operator.Slots.{distribute}
use valkeycluster_operator.Topology.{
  Desired, Plan, ActionKind, form, repair, scale_out_shards, scale_in_shards, scale_replicas,
  no_action, plan, decide,
}
use valkeycluster_operator.Cluster.{Endpoint, SlotRange, ClusterState}
use valkeycluster_operator.Controller.{Reconciler}
use valkeycluster_operator.Controller.View.{endpoint, seed, all_endpoints, summarize}
use valkeycluster_operator.Controller.Membership.{attach_replicas, reconcile_membership}
use valkeycluster_operator.Controller.Scaling.{scale_out, scale_in, has_excess_shard_stateful_sets}
use valkeycluster_operator.Controller.Status.{set_phase, update_status}

abbrev pub desired_of : ValkeyCluster → Desired
desired_of cr = record { shards = cr.spec.shards; replicas_per_shard = cr.spec.replicas_per_shard }

-- the actions that excess StatefulSets do not override
unfoldable pub keeps_plan : ActionKind → Bool
keeps_plan form = true
keeps_plan repair = false
keeps_plan scale_out_shards = true
keeps_plan scale_in_shards = false
keeps_plan scale_replicas = false
keeps_plan no_action = false

-- the actions after which the next pass comes soon
unfoldable pub is_progress : ActionKind → Bool
is_progress form = true
is_progress repair = true
is_progress scale_out_shards = true
is_progress scale_in_shards = true
is_progress scale_replicas = false
is_progress no_action = false

module _ {W : Type 0} (r : Reconciler W) (cr : ValkeyCluster) where
  open r use {admin, kube}

  -- the first loop of `formCluster`, at one endpoint
  unfoldable pub meet_other : Endpoint → Exec W ⊤
  meet_other ep =
      if text_eq ep.host (seed cr).host
      then pure tt
      else with_context (codes "meet") (admin.meet (seed cr) ep)

  -- the second loop of `formCluster`, from shard `i` on, over the ranges that are left
  unfoldable pub assign_from : ℕ → List SlotRange → Exec W ⊤
  assign_from i [] = pure tt
  assign_from i (range ∷ rest) = do
    with_context (codes "addslots shard") (admin.add_slots (endpoint cr (pos i) 0) (range ∷ []))
    assign_from (suc i) rest

  -- `formCluster`
  unfoldable pub form_cluster : Exec W ⊤
  unfolding for_each meet_other assign_from
  form_cluster = do
    for_each (all_endpoints cr) meet_other
    assign_from 0 (distribute (pos cr.spec.shards))
    state ← admin.state (seed cr)
    attach_replicas r cr state

  -- the plan: what `Decide` says, unless a departing shard's StatefulSet is still there
  unfoldable pub choose_plan : ClusterState → Exec W Plan
  choose_plan state =
      let decided = decide (desired_of cr) (summarize state) in
      if keeps_plan decided.kind then pure decided else do
        excess ← has_excess_shard_stateful_sets r cr
        pure (if excess then plan scale_in_shards else decided)

  -- the `switch` over the plan
  unfoldable pub act : ClusterState → ActionKind → Exec W ⊤
  act state form = do
    ignore (set_phase r forming (codes "Forming") (codes "bootstrapping cluster"))
    form_cluster
  act state repair = do
    ignore (set_phase r resharding (codes "Repairing") (codes "fixing open slots"))
    ignore (admin.repair_slots (seed cr))
  act state scale_out_shards = do
    ignore (set_phase r resharding (codes "Resharding") (codes "adding shards"))
    scale_out r cr (summarize state).primary_count
  act state scale_in_shards = do
    ignore (set_phase r resharding (codes "Resharding") (codes "removing shards"))
    scale_in r cr
  act state scale_replicas = do
    ignore (set_phase r scaling_replicas (codes "ScalingReplicas") (codes "adjusting replicas"))
    reconcile_membership r cr state
  act state no_action = reconcile_membership r cr state

  -- `reconcileCluster`; the result says whether a change is in flight
  unfoldable pub reconcile_cluster : Exec W Bool
  unfolding choose_plan act
  reconcile_cluster = do
    state ← with_context (codes "observe cluster") (admin.state (seed cr))
    chosen ← choose_plan state
    act state chosen.kind
    state' ← with_context (codes "observe cluster (post-action)") (admin.state (seed cr))
    update_status r cr state'
    pure (is_progress chosen.kind)
