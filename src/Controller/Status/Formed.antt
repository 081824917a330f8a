-- ===== src/Controller/Status/Formed.antt =====
-- The status of a settled cluster in memory.
use valkeycluster_operator.Prelude.{
  ℕ, zero, suc, ◌+◌, ◌≤◌, ◌<◌, ◌≡◌, refl, some, Option, List, arith, seq,
}
use valkeycluster_operator.Api.{ValkeyCluster}
use valkeycluster_operator.Cluster.{NodeInfo, total_slots}
use valkeycluster_operator.Cluster.Fake.{Fake, state}
use valkeycluster_operator.Controller.{Kube}
use valkeycluster_operator.Controller.View.{host_index}
use valkeycluster_operator.Controller.Status.{
  shard_nodes, last_owner, shard_primary, count_ready, ready_shards,
}
use valkeycluster_operator.Controller.Status.Truth.{IsAllReady}
use valkeycluster_operator.Controller.Cluster.Named.{host_index_present}
use valkeycluster_operator.Controller.Cluster.Attached.{settled, settled-placed, led-owns_slots}
use valkeycluster_operator.Controller.Cluster.Counts.{follower-owns_slots}
use valkeycluster_operator.Controller.View.Summary.{IsSettled}
use valkeycluster_operator.Controller.Cluster.{desired_of}
use valkeycluster_operator.Controller.Cluster.Table.{Pod, In, table}

module _ (k : Kube Fake) (cr : ValkeyCluster) (some_shard : 0 < cr.spec.shards)
    (few : cr.spec.shards ≤ total_slots) (ps : List Pod)
    (covers : (i j : ℕ) → i < cr.spec.shards → j ≤ cr.spec.replicas_per_shard → In i j ps)
    (s : IsSettled (desired_of cr) (state (table cr (settled k cr) ps))) where
  abbrev here : Fake
  here = table cr (settled k cr) ps

  -- the followers are found, and none of them takes the place of the owner
  followers :
      (i j m : ℕ) (best : Option NodeInfo)
      → i < cr.spec.shards
      → 0 < j
      → j + m ≤ suc cr.spec.replicas_per_shard
      → last_owner best (shard_nodes cr (host_index (state here)) i (seq j m)) ≡ best
  unfolding shard_nodes last_owner
  followers i j zero best h p l = refl
  followers i j (suc m) best h p l = ground (
    arith,
    host_index_present cr (settled k cr) ps i j (settled-placed k cr) (covers i j h (omega arith)),
    follower-owns_slots k cr i j p,
    followers i (j + 1) m best h (omega arith) (omega arith),
  )

  primary : (i : ℕ) → i < cr.spec.shards → shard_primary cr (state here) i ≡ some (settled k cr i 0)
  unfolding shard_primary shard_nodes last_owner
  primary i h = ground (
    arith,
    host_index_present cr (settled k cr) ps i 0 (settled-placed k cr) (covers i 0 h (omega arith)),
    led-owns_slots k cr some_shard few i,
    followers i 1 cr.spec.replicas_per_shard (some (settled k cr i 0)) h (omega arith)
        (omega arith),
  )

  count_all : (i m : ℕ) → i + m ≤ cr.spec.shards → count_ready cr (state here) (seq i m) ≡ m
  unfolding count_ready
  count_all i zero h = refl
  count_all i (suc m) h = ground (arith, primary i (omega arith), count_all (i + 1) m (omega arith))

  pub here-IsAllReady : IsAllReady cr (state here)
  here-IsAllReady = record {
    serving = unfold ready_shards in count_all 0 cr.spec.shards (omega arith);
    owners = s.shards;
    covered = s.covered;
    stable = s.stable;
  }
