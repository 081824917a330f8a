-- ===== src/Controller/Cluster/Replicas.antt =====
-- Declaring more replicas: one reconciliation of the membership adds them to the cluster in memory.
use valkeycluster_operator.Prelude.{
  ℕ, suc, ◌+◌, ◌≤◌, ◌<◌, ◌≡◌, refl, ap, sym, ◌∙◌, true, ltb, leb, arith, ◌++◌, inl, inr, Bool-cases,
}
use valkeycluster_operator.Text.{text_eq_refl}
use valkeycluster_operator.Dict.{Dict}
use valkeycluster_operator.Exec.{for_each, ok}
use valkeycluster_operator.Api.{ValkeyCluster}
use valkeycluster_operator.Resources.{pod_fqdn, pod_name, headless_service_name, stateful_set_name}
use valkeycluster_operator.Cluster.{NodeInfo, total_slots}
use valkeycluster_operator.Cluster.Fake.{Fake, assigned_slots, state}
use valkeycluster_operator.Cluster.Fake.Sorted.{All-state}
use valkeycluster_operator.Controller.{Kube}
use valkeycluster_operator.Controller.View.{endpoint, by_id}
use valkeycluster_operator.Controller.View.Summary.{IsSettled}
use valkeycluster_operator.Controller.Membership.{
  is_owner, replicates, hosts_of, attach_replicas, forget_if_stale, forget_stale_nodes,
  reconcile_membership,
}
use valkeycluster_operator.Controller.Cluster.{desired_of}
use valkeycluster_operator.Controller.Cluster.Form.{in_memory}
use valkeycluster_operator.Controller.Cluster.Table.{In, host, table}
use valkeycluster_operator.Controller.Cluster.Pods.{rows-All}
use valkeycluster_operator.Controller.Cluster.Named.{All-values, index_present, index_absent, Named}
use valkeycluster_operator.Controller.Cluster.Hosts.{declared}
use valkeycluster_operator.Controller.Cluster.Attach.{IsIndexed, follow_rows_at, attach_declared}
use valkeycluster_operator.Controller.Cluster.Attached.{settled, settled-Named, led-owns_slots}
use valkeycluster_operator.Controller.Cluster.Counted.{counted-IsSettled}
use valkeycluster_operator.Controller.Cluster.Converges.{formed_fake, total}
use valkeycluster_operator.Controller.Cluster.Stays.{Aside, for_each_still, hosts_lem, keep_one}
use valkeycluster_operator.Controller.Cluster.Extra.{
  kept, extra, kept-In, kept-Misses, both-Distinct, both-In, both-All,
}
use valkeycluster_operator.Controller.Cluster.Grow.{before, grown, meet_all}
use valkeycluster_operator.Controller.Cluster.Grown.{grown_replicas, grown_assigned, grown_owners}

-- the cluster as it was declared, with `r` replicas per shard
abbrev pub with_replicas : ℕ → ValkeyCluster → ValkeyCluster
with_replicas r cr = record cr { spec = record cr.spec { replicas_per_shard = r } }

module _ (k : Kube Fake) (cr : ValkeyCluster) (some_shard : 0 < cr.spec.shards)
    (few : cr.spec.shards ≤ total_slots) (laws : Aside k cr) (r d : ℕ)
    (more : r + d ≡ cr.spec.replicas_per_shard) where
  abbrev n : ℕ
  n = cr.spec.shards

  abbrev idx : Dict NodeInfo
  idx = by_id (state (before k cr r d))

  -- with the declared replicas
  abbrev pub after : Fake
  after = table cr (settled k cr) (kept n r ++ extra n r d)

  first_owner : (i : ℕ) → i < n → is_owner idx (host cr i 0) ≡ true
  unfolding is_owner
  first_owner i h = ground (
    arith,
    index_present cr (settled k cr) (kept n r) i 0 (settled-Named k cr)
        (kept-In n r i 0 h (omega arith)),
    led-owns_slots k cr some_shard few i,
  )

  followers : (i j : ℕ) → i < n → 0 < j → replicates idx (host cr i j) (host cr i 0) ≡ ltb j (suc r)
  unfolding replicates
  followers i j h p = elim (Bool-cases (leb j r)) [
    | inl old ↦ ground (
      arith,
      index_present cr (settled k cr) (kept n r) i j (settled-Named k cr)
          (kept-In n r i j h (ground arith)),
      text_eq_refl (host cr i 0),
    )
    | inr new ↦ ground (
      arith,
      index_absent cr (settled k cr) (kept n r) i j (settled-Named k cr)
          (kept-Misses n r i j (ground arith)),
    )
  ]

  before-IsIndexed : IsIndexed cr idx (suc r)
  before-IsIndexed = record { owner = first_owner; following = λ i j h p _. followers i j h p }

  pub covers : (i j : ℕ) → i < n → j ≤ cr.spec.replicas_per_shard → In i j (kept n r ++ extra n r d)
  covers i j h l = both-In n r d i j h (omega arith)

  grown-Named : Named cr (grown k cr r d)
  unfolding endpoint
  grown-Named i j = ground arith

  attach_new :
      attach_replicas
        (in_memory k cr)
        cr
        (state (before k cr r d))
        (table cr (grown k cr r d) (kept n r ++ extra n r d))
      ≡ (ok tt, after)
  unfolding attach_replicas
  attach_new =
      attach_declared k cr (kept n r ++ extra n r d) (both-Distinct n r d) covers idx (suc r)
        before-IsIndexed (grown k cr r d) (settled k cr) grown-Named
        (both-All _ n r d (λ a b h l. ground (
          arith,
          follow_rows_at k cr (kept n r ++ extra n r d) (both-Distinct n r d) covers idx (suc r)
              before-IsIndexed (grown k cr r d) 0 n a b (omega (arith, l)),
        )))

  kept_each :
      for_each
        (state (before k cr r d)).nodes
        (forget_if_stale (in_memory k cr) cr (hosts_of cr (declared cr)))
        after
      ≡ (ok tt, after)
  kept_each =
      for_each_still (forget_if_stale (in_memory k cr) cr (hosts_of cr (declared cr)))
        (state (before k cr r d)).nodes after
        (All-state _ (before k cr r d) (
          All-values cr
            (λ node.
              forget_if_stale (in_memory k cr) cr (hosts_of cr (declared cr)) node after
              ≡ (ok tt, after))
            (settled k cr) (kept n r)
            (rows-All _ 0 n 0 (suc r) (λ a b h _ t.
              keep_one k cr some_shard few laws after a b (omega (arith, h)) (omega (arith, t))))))

  forget_none :
      forget_stale_nodes (in_memory k cr) cr (state (before k cr r d)) after ≡ (ok tt, after)
  unfolding forget_stale_nodes
  forget_none = ground (arith, hosts_lem k cr some_shard few laws after, kept_each)

  pub grow_runs :
      reconcile_membership (in_memory k cr) cr (state (before k cr r d)) (before k cr r d)
      ≡ (ok tt, after)
  unfolding reconcile_membership
  grow_runs = ground (arith, meet_all k cr r d some_shard more, attach_new, forget_none)

  -- the cluster before is the one that was formed with `r` replicas
  pub was_formed : formed_fake k (with_replicas r cr) some_shard few ≡ before k cr r d
  unfolding endpoint pod_fqdn pod_name headless_service_name stateful_set_name
  was_formed = refl

  pub after-IsSettled : IsSettled (desired_of cr) (state after)
  after-IsSettled =
      counted-IsSettled k cr (kept n r ++ extra n r d) (both-All _ n r d (λ a b h _. h))
        (grown_assigned k cr r d
          ∙ sym (ap assigned_slots was_formed)
          ∙ total k (with_replicas r cr) some_shard few)
        (grown_owners k cr r d some_shard few) (λ a h. grown_replicas k cr r d a h ∙ more)
