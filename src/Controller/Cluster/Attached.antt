-- ===== src/Controller/Cluster/Attached.antt =====
-- `attachReplicas` in memory: the other pods of a shard follow its first pod.
use valkeycluster_operator.Prelude.{
  ℕ, ◌+◌, ◌-◌, ◌/◌, ◌≤◌, ◌<◌, ◌≡◌, true, false, [], arith, ◌==◌, if◌then◌else◌,
}
use native.Mathlib.Nat.{le-div_iff_mul-le}
use valkeycluster_operator.Prelude.Int.{pos, ◌+ℤ◌, ltb_ℤ}
use valkeycluster_operator.Text.{text_eq, text_eq_iff, is_empty}
use valkeycluster_operator.Dict.{Dict}
use valkeycluster_operator.Exec.{ok}
use valkeycluster_operator.Api.{ValkeyCluster}
use valkeycluster_operator.Slots.{bound}
use valkeycluster_operator.Slots.Partition.{shard_range_count}
use valkeycluster_operator.Slots.Balance.{share_bounds}
use valkeycluster_operator.Cluster.{NodeInfo, total_slots, is_primary, slot_count, count_slots}
use valkeycluster_operator.Cluster.Fake.{Fake, state}
use valkeycluster_operator.Controller.{Kube}
use valkeycluster_operator.Controller.View.{endpoint, by_id, owns_slots}
use valkeycluster_operator.Controller.Membership.{is_owner, replicates, attach_replicas}
use valkeycluster_operator.Controller.Cluster.Form.{in_memory}
use valkeycluster_operator.Controller.Cluster.Table.{Nodes, host, table}
use valkeycluster_operator.Controller.Cluster.Pods.{pods, pods-Distinct, pods-In, pods-All}
use valkeycluster_operator.Controller.Cluster.Attach.{
  follow, IsIndexed, follow_rows_at, attach_declared,
}
use valkeycluster_operator.Controller.Cluster.Named.{host-is_empty, Named, index_at}
use valkeycluster_operator.Controller.Cluster.Met.{fresh}
use valkeycluster_operator.Controller.Cluster.Led.{led}

positive : (c : ℕ) → 0 < c → ltb_ℤ (pos 0) (pos c +ℤ pos 0) ≡ true
unfolding ◌+ℤ◌
positive c h = ground arith

module _ (k : Kube Fake) (cr : ValkeyCluster) where
  pub led-Named : Named cr (led k cr)
  unfolding endpoint
  led-Named i j = ground arith

  -- the state that `formCluster` observes before it attaches the replicas
  abbrev index : Dict NodeInfo
  index = by_id (state (table cr (led k cr) (pods cr)))

  -- a pod that is not the first follows nobody yet
  led-replicates :
      (i j : ℕ)
      → i < cr.spec.shards
      → 0 < j
      → j ≤ cr.spec.replicas_per_shard
      → replicates index (host cr i j) (host cr i 0) ≡ false
  unfolding replicates endpoint is_empty
  led-replicates i j h p l = ground (
    arith,
    index_at cr (led k cr) i j led-Named h l,
    host-is_empty cr i 0,
    text_eq_iff [] (host cr i 0),
  )

  -- the first pods own the ranges, and the others follow them
  abbrev pub settled : Nodes
  settled i j = if j == 0 then led k cr i 0 else follow (host cr i 0) (fresh k cr i j)

  pub settled-Named : Named cr settled
  unfolding endpoint
  settled-Named i j = ground arith

  pub settled-placed : (i j : ℕ) → (settled i j).host ≡ host cr i j
  unfolding endpoint
  settled-placed i j = ground arith

  module _ (some_shard : 0 < cr.spec.shards) (few : cr.spec.shards ≤ total_slots) where
    has_slots : (i : ℕ) → 0 < bound cr.spec.shards (i + 1) - bound cr.spec.shards i
    has_slots i =
        let one : 1 ≤ total_slots / cr.spec.shards =
          (le-div_iff_mul-le some_shard).1 (omega arith) in
        omega (arith, share_bounds cr.spec.shards i some_shard)

    pub led-owns_slots : (i : ℕ) → owns_slots (led k cr i 0) ≡ true
    unfolding owns_slots is_primary slot_count count_slots text_eq
    led-owns_slots i = rw (shard_range_count cr.spec.shards i some_shard) (positive _ (has_slots i))

    led-is_owner : (i : ℕ) → i < cr.spec.shards → is_owner index (host cr i 0) ≡ true
    unfolding is_owner
    led-is_owner i h =
        ground (arith, index_at cr (led k cr) i 0 led-Named h (omega arith), led-owns_slots i)

    led-IsIndexed : IsIndexed cr index 1
    led-IsIndexed = record {
      owner = led-is_owner;
      following = λ i j h p l. ground (arith, led-replicates i j h p l);
    }

    pub attached_lem :
        let f = table cr (led k cr) (pods cr) in
        attach_replicas (in_memory k cr) cr (state f) f ≡ (ok tt, table cr settled (pods cr))
    unfolding attach_replicas
    attached_lem =
        attach_declared k cr (pods cr) (pods-Distinct cr) (pods-In cr) index 1 led-IsIndexed
          (led k cr) settled led-Named
          (pods-All _ cr (λ a b h l. ground (
            arith,
            follow_rows_at k cr (pods cr) (pods-Distinct cr) (pods-In cr) index 1 led-IsIndexed
                (led k cr) 0 cr.spec.shards a b l,
          )))
