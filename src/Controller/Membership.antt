-- ===== src/Controller/Membership.antt =====
-- internal/controller/membership.go: keeping the members of the cluster and the pods aligned.
use valkeycluster_operator.Prelude.{
  ℕ, ⊤, Bool, true, false, not, ◌&&◌, none, some, List, [], ◌∷◌, ◌++◌, map, seq, any, if◌then◌else◌,
}
use valkeycluster_operator.Prelude.Int.{ℤ, pos, negsuc, ltb_ℤ, eqb_ℤ}
use valkeycluster_operator.Text.{Text, codes, text_eq, is_empty}
use valkeycluster_operator.Text.Decimal.{atoi}
use valkeycluster_operator.Dict.{Dict, lookup}
use valkeycluster_operator.Exec.{
  for_each, Exec, ok, err, pure, try, ignore, with_context, ◌>>=◌, ◌>>◌,
}
use valkeycluster_operator.Api.{ValkeyCluster}
use valkeycluster_operator.Resources.{pod_fqdn, label_shard, label_instance}
use valkeycluster_operator.Cluster.{Endpoint, NodeInfo, ClusterState}
use valkeycluster_operator.Controller.{Reconciler}
use valkeycluster_operator.Controller.View.{
  endpoint, seed, ordinals, all_endpoints, by_id, host_index, owns_slots,
}

-- `idx[id]` is there, a master and owns slots
unfoldable pub is_owner : Dict NodeInfo → Text → Bool
is_owner idx id = elim (lookup id idx) [ none ↦ false | some n ↦ owns_slots n ]

-- `idx[id]` is there and a replica of `primary_id`
unfoldable pub replicates : Dict NodeInfo → Text → Text → Bool
replicates idx id primary_id = elim (lookup id idx) [
  | none ↦ false
  | some n ↦ text_eq n.master_id primary_id
]

insert_int : ℤ → List ℤ → List ℤ
insert_int n [] = n ∷ []
insert_int n (m ∷ ms) = if ltb_ℤ m n then m ∷ insert_int n ms else n ∷ m ∷ ms

-- the loop of `existingShardIndexes` over the labels of the StatefulSets, and the sort
unfoldable pub shard_indexes : List (Dict Text) → List ℤ
unfolding insert_int
shard_indexes [] = []
shard_indexes (labels ∷ rest) =
    let others = shard_indexes rest in
    elim (lookup label_shard labels) [
      | none ↦ others
      | some v ↦ let (n, parsed) = atoi v in if parsed then insert_int n others else others
    ]

unfoldable pub hosts_of : ValkeyCluster → List ℤ → List Text
hosts_of cr [] = []
hosts_of cr (i ∷ is) = map (pod_fqdn cr i) (ordinals cr) ++ hosts_of cr is

-- the node's host is known and none of `want`
unfoldable pub is_stale : List Text → NodeInfo → Bool
is_stale want n = not (is_empty n.host) && not (any (λ h. text_eq h n.host) want)

module _ {W : Type 0} (r : Reconciler W) (cr : ValkeyCluster) where
  open r use {admin, kube}

  -- the first loop of `findShardPrimary`, over the ordinals that are left; then the fallback
  unfoldable pub find_from : ℤ → Dict NodeInfo → List ℕ → Exec W (Text × ℤ)
  find_from shard idx [] = do
    found ← try (admin.my_id (endpoint cr shard 0))
    elim found [ ok id ↦ pure (id, pos 0) | err _ ↦ pure ([], negsuc 0) ]
  find_from shard idx (j ∷ js) = do
    found ← try (admin.my_id (endpoint cr shard j))
    elim found [
      | err _ ↦ find_from shard idx js
      | ok id ↦ elim (is_owner idx id) [ true ↦ pure (id, pos j) | false ↦ find_from shard idx js ]
    ]

  -- `findShardPrimary`: the node ID and the ordinal, or the empty text and -1
  unfoldable pub find_shard_primary : ℤ → Dict NodeInfo → Exec W (Text × ℤ)
  unfolding find_from
  find_shard_primary shard idx = find_from shard idx (ordinals cr)

  -- the inner loop of `attachReplicas`, at one ordinal
  unfoldable pub attach_one : Dict NodeInfo → ℤ → Text → ℤ → ℕ → Exec W ⊤
  attach_one idx shard primary_id primary_ord j = if eqb_ℤ (pos j) primary_ord then pure tt else do
    found ← try (admin.my_id (endpoint cr shard j))
    elim found [
      | err _ ↦ pure tt
      | ok id ↦
          if replicates idx id primary_id
          then pure tt
          else with_context (codes "replicate") (admin.replicate (endpoint cr shard j) primary_id)
    ]

  -- the outer loop of `attachReplicas`, at one shard
  unfoldable pub attach_shard : Dict NodeInfo → ℕ → Exec W ⊤
  unfolding attach_one for_each
  attach_shard idx i = do
    (primary_id, primary_ord) ← find_shard_primary (pos i) idx
    if is_empty primary_id
        then pure tt
        else for_each (ordinals cr) (attach_one idx (pos i) primary_id primary_ord)

  -- `attachReplicas`
  unfoldable pub attach_replicas : ClusterState → Exec W ⊤
  unfolding for_each
  attach_replicas state = for_each (seq 0 cr.spec.shards) (attach_shard (by_id state))

  -- `forgetEverywhere`
  unfoldable pub forget_everywhere : Text → Exec W ⊤
  unfolding for_each
  forget_everywhere node_id = for_each (all_endpoints cr) (λ ep. ignore (admin.forget ep node_id))

  -- `existingShardIndexes`
  unfoldable pub existing_shard_indexes : Exec W (List ℤ)
  existing_shard_indexes = do
    list ← kube.list_stateful_sets ((label_instance, cr.name) ∷ [])
    pure (shard_indexes list)

  -- `existingPodHosts`
  unfoldable pub existing_pod_hosts : Exec W (List Text)
  unfolding hosts_of
  existing_pod_hosts = do idxs ← existing_shard_indexes; pure (hosts_of cr idxs)

  -- the loop of `forgetStaleNodes`, at one node
  unfoldable pub forget_if_stale : List Text → NodeInfo → Exec W ⊤
  forget_if_stale want n = if is_stale want n then forget_everywhere n.id else pure tt

  -- `forgetStaleNodes`
  unfoldable pub forget_stale_nodes : ClusterState → Exec W ⊤
  unfolding for_each forget_if_stale
  forget_stale_nodes state = do
    listed ← try existing_pod_hosts
    elim listed [ err _ ↦ pure tt | ok want ↦ for_each state.nodes (forget_if_stale want) ]

  -- the second loop of `reconcileMembership`, at one endpoint
  unfoldable pub meet_missing : Dict NodeInfo → Endpoint → Exec W ⊤
  meet_missing by_host ep = elim (lookup ep.host by_host) [
    | some _ ↦ pure tt
    | none ↦ admin.meet (seed cr) ep
  ]

  -- `reconcileMembership`; its first loop fills a map that nothing reads
  unfoldable pub reconcile_membership : ClusterState → Exec W ⊤
  unfolding for_each meet_missing
  reconcile_membership state = do
    for_each (all_endpoints cr) (meet_missing (host_index state))
    attach_replicas state
    forget_stale_nodes state
