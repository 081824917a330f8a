-- ===== src/Controller/View.antt =====
-- internal/controller/status.go and resources.go: what the reconciler makes of an observed state.
pub mod Fattest
pub mod Owners
pub mod Summary
pub mod Rest
pub mod Index
use valkeycluster_operator.Prelude.{
  ℕ, zero, suc, ◌+◌, Bool, true, false, not, ◌&&◌, Option, none, some, List, [], ◌∷◌, ◌++◌, map,
  seq, if◌then◌else◌,
}
use valkeycluster_operator.Prelude.Int.{ℤ, pos, ltb_ℤ}
use valkeycluster_operator.Text.{Text, text_eq, is_empty}
use valkeycluster_operator.Text.Cut.{cut}
use valkeycluster_operator.Dict.{Dict, lookup, insert}
use valkeycluster_operator.Api.{ValkeyCluster}
use valkeycluster_operator.Resources.{pod_fqdn, pod_name}
use valkeycluster_operator.Cluster.{Endpoint, NodeInfo, ClusterState, is_primary, slot_count}
use valkeycluster_operator.Topology.{Observed}

-- `endpoint`
unfoldable pub endpoint : ValkeyCluster → ℤ → ℕ → Endpoint
endpoint cr shard ordinal = record {
  host = pod_fqdn cr shard ordinal;
  port = pos 6379;
  pod_name = pod_name cr shard ordinal;
  namespace = cr.namespace;
}

-- `seed`
unfoldable pub seed : ValkeyCluster → Endpoint
seed cr = endpoint cr (pos 0) 0

-- the ordinals of the pods of a shard
abbrev pub ordinals : ValkeyCluster → List ℕ
ordinals cr = seq 0 (suc cr.spec.replicas_per_shard)

unfoldable pub endpoints_from : ValkeyCluster → List ℕ → List Endpoint
endpoints_from cr [] = []
endpoints_from cr (i ∷ is) = map (endpoint cr (pos i)) (ordinals cr) ++ endpoints_from cr is

-- `allEndpoints`
unfoldable pub all_endpoints : ValkeyCluster → List Endpoint
unfolding endpoints_from
all_endpoints cr = endpoints_from cr (seq 0 cr.spec.shards)

index_by : (NodeInfo → Text) → List NodeInfo → Dict NodeInfo → Dict NodeInfo
index_by key [] m = m
index_by key (n ∷ ns) m = index_by key ns (insert (key n) n m)

-- `byID`
unfoldable pub by_id : ClusterState → Dict NodeInfo
unfolding index_by
by_id s = index_by (λ n. n.id) s.nodes []

-- `hostIndex`
unfoldable pub host_index : ClusterState → Dict NodeInfo
unfolding index_by
host_index s = index_by (λ n. n.host) s.nodes []

-- `idx[id].SlotCount()`, zero for a missing key
unfoldable pub slots_of : Dict NodeInfo → Text → ℤ
slots_of idx id = elim (lookup id idx) [ none ↦ pos 0 | some n ↦ slot_count n ]

-- a master that owns slots
unfoldable pub owns_slots : NodeInfo → Bool
owns_slots n = is_primary n && ltb_ℤ (pos 0) (slot_count n)

-- `replicaByPrimary[id]`: the replicas among the nodes whose master is `id`
unfoldable pub replicas_of : Text → List NodeInfo → ℕ
replicas_of id [] = 0
replicas_of id (n ∷ ns) =
    (if not (is_primary n) && not (is_empty n.master_id) && text_eq n.master_id id then 1 else 0)
    + replicas_of id ns

-- the number of masters that own slots
unfoldable pub count_owners : List NodeInfo → ℕ
count_owners [] = 0
count_owners (n ∷ ns) = (if owns_slots n then 1 else 0) + count_owners ns

-- the replica counts of those masters; the second list is that of all nodes
unfoldable pub owner_replicas : List NodeInfo → List NodeInfo → List ℕ
owner_replicas [] all = []
owner_replicas (n ∷ ns) all =
    let rest = owner_replicas ns all in if owns_slots n then replicas_of n.id all ∷ rest else rest

-- `summarize`
unfoldable pub summarize : ClusterState → Observed
summarize s = record {
  formed = s.formed;
  slots_covered = s.slots_covered && not s.open_slots;
  primary_count = count_owners s.nodes;
  replica_counts = owner_replicas s.nodes s.nodes;
}

-- `podNameFromHost`
unfoldable pub pod_name_from_host : Text → Text
pod_name_from_host host = elim (cut b'.' host) [ none ↦ host | some (name, _) ↦ name ]

-- one round of the loop of `fattestPrimary`
unfoldable pub pick : Text → Text × NodeInfo → Text × ℤ → Text × ℤ
pick exclude_id (id, n) best =
    if not (text_eq id exclude_id) && is_primary n && ltb_ℤ best.1 (slot_count n)
    then (id, slot_count n)
    else best

-- the loop of `fattestPrimary`, from the best so far
unfoldable pub fattest_from : Text → Dict NodeInfo → Text × ℤ → Text × ℤ
fattest_from exclude_id [] best = best
fattest_from exclude_id (e ∷ idx) best = fattest_from exclude_id idx (pick exclude_id e best)

-- `fattestPrimary`
unfoldable pub fattest_primary : Dict NodeInfo → Text → Text × ℤ
fattest_primary idx exclude_id = fattest_from exclude_id idx ([], pos 0)
