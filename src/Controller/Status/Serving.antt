-- ===== src/Controller/Status/Serving.antt =====
-- When the published phase is `Ready`, in words that are independent of the code's.
use valkeycluster_operator.Prelude.{ℕ, suc, ◌+◌, ◌≤◌, ◌<◌, ◌≡◌, true, some, Option, List, seq, Has}
use valkeycluster_operator.Prelude.Int.{pos}
use valkeycluster_operator.Api.{ValkeyCluster}
use valkeycluster_operator.Resources.{pod_fqdn}
use valkeycluster_operator.Cluster.{NodeInfo, ClusterState}
use valkeycluster_operator.Controller.View.{host_index, owns_slots}
use valkeycluster_operator.Controller.View.Owners.{IsOwner, Counts, LastAt}
use valkeycluster_operator.Controller.Status.{shard_nodes}

-- some pod of the shard, with an ordinal from `j` on and below `j + m`, stands for a master with slots
abbrev pub Served : ValkeyCluster → ClusterState → ℕ → ℕ → ℕ → Type 0
Served cr s i j m =
    (b : ℕ) × (n : NodeInfo) × (j ≤ b)
    × (b < j + m)
    × LastAt (pod_fqdn cr (pos i) b) n s.nodes
    × IsOwner n

-- every declared shard has a pod that is a master with slots, there are no other such masters, every slot
-- is covered and none is open
pub record IsServing (cr : ValkeyCluster) (s : ClusterState) : Type 0 where
  pub served : (i : ℕ) → i < cr.spec.shards → Served cr s i 0 (suc cr.spec.replicas_per_shard)
  pub owners : Counts IsOwner s.nodes cr.spec.shards
  pub covered : s.slots_covered ≡ true
  pub stable : ¬ (s.open_slots ≡ true)

abbrev Found : Option NodeInfo → Type 0
Found o = (n : NodeInfo) × (o ≡ some n)

Owning : List NodeInfo → Type 0
Owning ns = Has (λ n. owns_slots n ≡ true) ns

module _ (cr : ValkeyCluster) (s : ClusterState) (i : ℕ) where
  abbrev nodes : ℕ → ℕ → List NodeInfo
  nodes j m = shard_nodes cr (host_index s) i (seq j m)
