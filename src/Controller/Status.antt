-- ===== src/Controller/Status.antt =====
-- internal/controller/status.go: the published status.
pub mod SetCond
pub mod Truth
pub mod Formed
pub mod Serving
use valkeycluster_operator.Prelude.{
  ℕ, zero, suc, ◌+◌, ⊤, Bool, true, false, not, ◌&&◌, Option, none, some, List, [], ◌∷◌, ◌++◌, map,
  seq, ltb, ◌==◌, if◌then◌else◌,
}
use valkeycluster_operator.Prelude.Int.{ℤ, pos}
use valkeycluster_operator.Text.{Text, codes, text_eq}
use valkeycluster_operator.Dict.{Dict, lookup}
use valkeycluster_operator.Exec.{Exec, pure, ◌>>=◌, ◌>>◌}
use valkeycluster_operator.Api.{
  ValkeyCluster, ValkeyClusterStatus, ShardStatus, Condition, ConditionStatus, is_true, is_false,
  is_unknown, Phase, no_phase, pending, provisioning, forming, ready, resharding, scaling_replicas,
  degraded, failed,
}
use valkeycluster_operator.Slots.{format_ranges}
use valkeycluster_operator.Resources.{pod_fqdn}
use valkeycluster_operator.Cluster.{NodeInfo, ClusterState}
use valkeycluster_operator.Controller.{Reconciler}
use valkeycluster_operator.Controller.View.{
  ordinals, host_index, owns_slots, count_owners, pod_name_from_host,
}

-- the arguments of one call of `setCond`
pub record Update : Type 0 where
  pub type : Text
  pub status : ConditionStatus
  pub reason : Text
  pub message : Text

abbrev pub same_status : ConditionStatus → ConditionStatus → Bool
same_status is_true is_true = true
same_status is_false is_false = true
same_status is_unknown is_unknown = true
same_status _ _ = false

abbrev pub condition : Update → ℕ → ℕ → Condition
condition u generation time = record {
  type = u.type;
  status = u.status;
  reason = u.reason;
  message = u.message;
  observed_generation = generation;
  last_transition_time = time;
}

-- the loop of `setCond` over the conditions
unfoldable pub set_condition : ℕ → ℕ → Update → List Condition → List Condition
set_condition now generation u [] = condition u generation now ∷ []
set_condition now generation u (c ∷ cs) =
    if text_eq c.type u.type
    then condition u generation
        (if same_status c.status u.status then c.last_transition_time else now)
      ∷ cs
    else c ∷ set_condition now generation u cs

-- `setCond`
unfoldable pub set_cond : ℕ → Update → ValkeyCluster → ValkeyCluster
set_cond now u cr = record cr {
  status = record cr.status { conditions = set_condition now cr.generation u cr.status.conditions };
}

unfoldable pub set_conds : ℕ → List Update → ValkeyCluster → ValkeyCluster
unfolding set_cond
set_conds now [] cr = cr
set_conds now (u ∷ us) cr = set_conds now us (set_cond now u cr)

abbrev pub available : ConditionStatus → Text → Text → Update
available s reason message = record {
  type = codes "Available";
  status = s;
  reason = reason;
  message = message;
}

abbrev pub progressing : ConditionStatus → Text → Text → Update
progressing s reason message = record {
  type = codes "Progressing";
  status = s;
  reason = reason;
  message = message;
}

abbrev pub degraded_cond : ConditionStatus → Text → Text → Update
degraded_cond s reason message = record {
  type = codes "Degraded";
  status = s;
  reason = reason;
  message = message;
}

-- the nodes of shard `i` by the hosts of its pods
shard_nodes : ValkeyCluster → Dict NodeInfo → ℕ → List ℕ → List NodeInfo
shard_nodes cr by_host i [] = []
shard_nodes cr by_host i (j ∷ js) = elim (lookup (pod_fqdn cr (pos i) j) by_host) [
  | none ↦ shard_nodes cr by_host i js
  | some n ↦ n ∷ shard_nodes cr by_host i js
]

-- the last of the nodes that is a master and owns slots
last_owner : Option NodeInfo → List NodeInfo → Option NodeInfo
last_owner best [] = best
last_owner best (n ∷ ns) = last_owner (if owns_slots n then some n else best) ns

-- the connected nodes whose master is `id`
connected_replicas : Text → List NodeInfo → ℕ
connected_replicas id [] = 0
connected_replicas id (n ∷ ns) =
    (if text_eq n.master_id id && n.connected then 1 else 0) + connected_replicas id ns

-- the primary of shard `i` that `updateStatus` finds
unfoldable pub shard_primary : ValkeyCluster → ClusterState → ℕ → Option NodeInfo
unfolding shard_nodes last_owner
shard_primary cr state i = last_owner none (shard_nodes cr (host_index state) i (ordinals cr))

-- the first loop of `updateStatus`, at one shard
unfoldable pub shard_status : ValkeyCluster → ClusterState → ℕ → ShardStatus
unfolding shard_nodes connected_replicas
shard_status cr state i =
    let ids = map (λ (n : NodeInfo). n.id) (shard_nodes cr (host_index state) i (ordinals cr)) in
    elim (shard_primary cr state i) [
      | none ↦ record {
        index = i;
        primary_pod = [];
        primary_node_id = [];
        slots = [];
        ready_replicas = 0;
        node_ids = ids;
      }
      | some p ↦ record {
        index = i;
        primary_pod = pod_name_from_host p.host;
        primary_node_id = p.id;
        slots = format_ranges p.slots;
        ready_replicas = connected_replicas p.id state.nodes;
        node_ids = ids;
      }
    ]

-- the shards among those listed that have a primary
unfoldable pub count_ready : ValkeyCluster → ClusterState → List ℕ → ℕ
count_ready cr state [] = 0
count_ready cr state (i ∷ is) =
    elim (shard_primary cr state i) [ none ↦ 0 | some _ ↦ 1 ] + count_ready cr state is

-- `ready`: the desired shards that have a primary
unfoldable pub ready_shards : ValkeyCluster → ClusterState → ℕ
ready_shards cr state = count_ready cr state (seq 0 cr.spec.shards)

-- `allReady`
unfoldable pub all_ready : ValkeyCluster → ClusterState → Bool
all_ready cr state =
    ready_shards cr state == cr.spec.shards
    && count_owners state.nodes == cr.spec.shards
    && state.slots_covered
    && not state.open_slots

-- the `switch` of `updateStatus`: the phase and the conditions that are set
unfoldable pub outcome : ValkeyCluster → ClusterState → Phase × List Update
outcome cr state =
    if all_ready cr state
    then (
      ready,
      available is_true (codes "Ready") (codes "all shards serving, full keyspace covered")
          ∷ progressing is_false (codes "Ready") (codes "converged")
          ∷ degraded_cond is_false (codes "Ready") (codes "healthy")
          ∷ [],
    )
    else if ltb cr.spec.shards (count_owners state.nodes) && ltb 0 (ready_shards cr state)
    then (
      resharding,
      progressing is_true (codes "Resharding") (codes "removing shards")
          ∷ available is_true (codes "Serving") (codes "primaries serving during scale-in")
          ∷ [],
    )
    else if state.open_slots && ltb 0 (ready_shards cr state)
    then (
      resharding,
      progressing is_true (codes "Resharding") (codes "slot migration in progress")
          ∷ available is_true (codes "Serving") (codes "primaries serving during migration")
          ∷ [],
    )
    else if ready_shards cr state == 0
    then (
      degraded,
      available is_false (codes "NoPrimaries") (codes "no shard has a reachable primary")
          ∷ degraded_cond is_true (codes "NoPrimaries") (codes "no shard has a reachable primary")
          ∷ [],
    )
    else (
      degraded,
      available is_false (codes "PartialCoverage")
            (codes "not all shards serving or keyspace not fully covered")
          ∷ degraded_cond is_true (codes "PartialCoverage") (codes "degraded")
          ∷ [],
    )

-- what `updateStatus` writes into the latest resource
unfoldable pub publish : ℕ → ValkeyCluster → ClusterState → ValkeyCluster → ValkeyCluster
publish now cr state latest =
    let (phase, updates) = outcome cr state in
    set_conds now updates (record latest {
      status = record latest.status {
        phase = phase;
        shards = map (shard_status cr state) (seq 0 cr.spec.shards);
        ready_shards = ready_shards cr state;
        observed_generation = latest.generation;
      };
    })

-- what `setPhase` writes into the latest resource
unfoldable pub enter_phase : ℕ → Phase → Text → Text → ValkeyCluster → ValkeyCluster
enter_phase now phase reason message latest =
    set_cond now (progressing is_true reason message)
      (record latest { status = record latest.status { phase = phase } })

module _ {W : Type 0} (r : Reconciler W) where
  open r use {kube}

  -- reads the resource, changes it and writes its status, again on a conflict
  unfoldable pub rewrite_status : (ℕ → ValkeyCluster → ValkeyCluster) → Exec W ⊤
  rewrite_status change =
      kube.retry_on_conflict
        do latest ← kube.get_cluster; λ w. kube.update_status (change (kube.now w) latest) w

  -- `updateStatus`
  unfoldable pub update_status : ValkeyCluster → ClusterState → Exec W ⊤
  unfolding rewrite_status
  update_status cr state = rewrite_status (λ now. publish now cr state)

  -- `setPhase`
  unfoldable pub set_phase : Phase → Text → Text → Exec W ⊤
  unfolding rewrite_status
  set_phase phase reason message = rewrite_status (λ now. enter_phase now phase reason message)
