-- ===== src/Controller/Cluster/Stays.antt =====
-- A pass over a cluster that has been formed in memory changes nothing.
use valkeycluster_operator.Prelude.{
  ℕ, zero, suc, ◌+◌, ◌≤◌, ◌<◌, ◌≡◌, refl, true, List, [], ◌∷◌, map, arith, seq, All, ⊤,
}
use valkeycluster_operator.Text.{Text, text_eq_refl}
use valkeycluster_operator.Dict.{Dict}
use valkeycluster_operator.Exec.{Exec, for_each, ok}
use valkeycluster_operator.Api.{ValkeyCluster}
use valkeycluster_operator.Resources.{label_instance}
use valkeycluster_operator.Cluster.{NodeInfo, total_slots}
use valkeycluster_operator.Cluster.Fake.{Fake, state}
use valkeycluster_operator.Cluster.Fake.Sorted.{All-state}
use valkeycluster_operator.Controller.{Kube}
use valkeycluster_operator.Controller.View.{endpoint, all_endpoints, by_id, host_index}
use valkeycluster_operator.Controller.Membership.{
  is_owner, replicates, shard_indexes, hosts_of, attach_replicas, existing_shard_indexes,
  existing_pod_hosts, forget_if_stale, forget_stale_nodes, meet_missing, reconcile_membership,
}
use valkeycluster_operator.Controller.Cluster.Form.{in_memory}
use valkeycluster_operator.Controller.Cluster.Table.{host}
use valkeycluster_operator.Controller.Cluster.Pods.{
  pods, pods-Distinct, pods-In, pod_endpoint, all_endpoints_lem, pods-All,
}
use valkeycluster_operator.Controller.Cluster.Named.{All-values, index_at, host_index_at}
use valkeycluster_operator.Controller.Cluster.Hosts.{declared, not_stale}
use valkeycluster_operator.Controller.Cluster.Attach.{IsIndexed, follow_rows_at, attach_declared}
use valkeycluster_operator.Controller.Cluster.Attached.{
  settled, settled-Named, settled-placed, led-owns_slots,
}
use valkeycluster_operator.Controller.Cluster.Converges.{formed_fake}

-- a loop none of whose rounds changes anything
pub for_each_still :
    {W A : Type 0} (body : A → Exec W ⊤) (xs : List A) (w : W)
    → All (λ x. body x w ≡ (ok tt, w)) xs
    → for_each xs body w ≡ (ok tt, w)
unfolding for_each
for_each_still body [] w h = refl
for_each_still body (x ∷ xs) w h = rw h.0 (for_each_still body xs w h.1)

pub All-map :
    {A B : Type 0} (P : B → Type 0) (f : A → B) (xs : List A)
    → All (λ x. P (f x)) xs
    → All P (map f xs)
All-map P f [] h = tt
All-map P f (x ∷ xs) h = (h.0, All-map P f xs h.1)

pub All-seq : (P : ℕ → Type 0) (a m : ℕ) → ((i : ℕ) → i < a + m → P i) → All P (seq a m)
All-seq P a zero h = tt
All-seq P a (suc m) h = (h a (omega arith), All-seq P (a + 1) m (λ i l. h i (omega (arith, l))))

-- The StatefulSets that are listed are those of the declared shards, and no request of the kind to
-- Kubernetes touches the cluster in memory.
pub record Aside (k : Kube Fake) (cr : ValkeyCluster) : Type 0 where
  pub getting : (f : Fake) → (k.get_cluster f).1 ≡ f
  pub updating : (c : ValkeyCluster) (f : Fake) → (k.update_status c f).1 ≡ f
  pub retrying :
      (m : Exec Fake ⊤) → ((f : Fake) → (m f).1 ≡ f) → (f : Fake) → (k.retry_on_conflict m f).1 ≡ f
  pub listed : List (Dict Text)
  pub listing :
      (f : Fake) → k.list_stateful_sets ((label_instance, cr.name) ∷ []) f ≡ (ok listed, f)
  pub indexes : shard_indexes listed ≡ declared cr

module _ (k : Kube Fake) (cr : ValkeyCluster) (some_shard : 0 < cr.spec.shards)
    (few : cr.spec.shards ≤ total_slots) (laws : Aside k cr) where
  abbrev pub here : Fake
  here = formed_fake k cr some_shard few

  abbrev index : Dict NodeInfo
  index = by_id (state here)

  settled-owner : (i : ℕ) → i < cr.spec.shards → is_owner index (host cr i 0) ≡ true
  unfolding is_owner
  settled-owner i h = ground (
    arith,
    index_at cr (settled k cr) i 0 (settled-Named k cr) h (omega arith),
    led-owns_slots k cr some_shard few i,
  )

  settled-replicates :
      (i j : ℕ)
      → i < cr.spec.shards
      → 0 < j
      → j ≤ cr.spec.replicas_per_shard
      → replicates index (host cr i j) (host cr i 0) ≡ true
  unfolding replicates
  settled-replicates i j h p l =
      ground
        (arith, index_at cr (settled k cr) i j (settled-Named k cr) h l, text_eq_refl (host cr i 0))

  settled-IsIndexed : IsIndexed cr index (suc cr.spec.replicas_per_shard)
  settled-IsIndexed = record {
    owner = settled-owner;
    following = λ i j h p l. ground (arith, settled-replicates i j h p l);
  }

  attach_still : attach_replicas (in_memory k cr) cr (state here) here ≡ (ok tt, here)
  unfolding attach_replicas
  attach_still =
      attach_declared k cr (pods cr) (pods-Distinct cr) (pods-In cr) index
        (suc cr.spec.replicas_per_shard) settled-IsIndexed (settled k cr) (settled k cr)
        (settled-Named k cr)
        (pods-All _ cr (λ a b h l. ground (
          arith,
          follow_rows_at k cr (pods cr) (pods-Distinct cr) (pods-In cr) index
              (suc cr.spec.replicas_per_shard) settled-IsIndexed (settled k cr) 0 cr.spec.shards a b
              l,
        )))

  meet_one_still :
      (i j : ℕ)
      → i < cr.spec.shards
      → j ≤ cr.spec.replicas_per_shard
      → meet_missing (in_memory k cr) cr (host_index (state here)) (pod_endpoint cr (i, j)) here
        ≡ (ok tt, here)
  unfolding meet_missing endpoint
  meet_one_still i j h l =
      ground (arith, host_index_at cr (settled k cr) i j (settled-placed k cr) h l)

  meet_still :
      for_each (all_endpoints cr) (meet_missing (in_memory k cr) cr (host_index (state here))) here
      ≡ (ok tt, here)
  meet_still =
      for_each_still (meet_missing (in_memory k cr) cr (host_index (state here))) (all_endpoints cr)
        here
        (rw (all_endpoints_lem cr)
          (All-map _ (pod_endpoint cr) (pods cr) (pods-All _ cr meet_one_still)))

  pub indexes_lem :
      (f : Fake) → existing_shard_indexes (in_memory k cr) cr f ≡ (ok (declared cr), f)
  unfolding existing_shard_indexes
  indexes_lem f = ground (arith, laws.listing f, laws.indexes)

  pub hosts_lem :
      (f : Fake) → existing_pod_hosts (in_memory k cr) cr f ≡ (ok (hosts_of cr (declared cr)), f)
  unfolding existing_pod_hosts
  hosts_lem f = rw (indexes_lem f) refl

  pub keep_one :
      (f : Fake) (i j : ℕ)
      → i < cr.spec.shards
      → j ≤ cr.spec.replicas_per_shard
      → forget_if_stale (in_memory k cr) cr (hosts_of cr (declared cr)) (settled k cr i j) f
        ≡ (ok tt, f)
  unfolding forget_if_stale
  keep_one f i j h l =
      ground (arith, not_stale cr i j (settled k cr i j) h l (settled-placed k cr i j))

  kept_each :
      for_each
        (state here).nodes
        (forget_if_stale (in_memory k cr) cr (hosts_of cr (declared cr)))
        here
      ≡ (ok tt, here)
  kept_each =
      for_each_still (forget_if_stale (in_memory k cr) cr (hosts_of cr (declared cr)))
        (state here).nodes here
        (All-state _ here (
          All-values cr
            (λ n.
              forget_if_stale (in_memory k cr) cr (hosts_of cr (declared cr)) n here
              ≡ (ok tt, here))
            (settled k cr) (pods cr) (pods-All _ cr (keep_one here))))

  forget_still : forget_stale_nodes (in_memory k cr) cr (state here) here ≡ (ok tt, here)
  unfolding forget_stale_nodes
  forget_still = ground (arith, hosts_lem here, kept_each)

  pub membership_still : reconcile_membership (in_memory k cr) cr (state here) here ≡ (ok tt, here)
  unfolding reconcile_membership
  membership_still = ground (arith, meet_still, attach_still, forget_still)
