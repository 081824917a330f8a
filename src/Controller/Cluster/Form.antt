-- ===== src/Controller/Cluster/Form.antt =====
-- Forming a cluster in memory.
use valkeycluster_operator.Prelude.{ℕ, suc, ◌<◌, ◌≡◌, refl, true, List, [], ◌∷◌, arith}
use valkeycluster_operator.Prelude.Int.{ℤ, pos, ◌+ℤ◌, int_laws}
use valkeycluster_operator.Exec.{for_each, ok, ◌>>◌}
use valkeycluster_operator.Api.{ValkeyCluster}
use valkeycluster_operator.Slots.{bound, distribute}
use valkeycluster_operator.Slots.Partition.{distribute_pos}
use valkeycluster_operator.Slots.Balance.{count_slots-ranges_from}
use valkeycluster_operator.Cluster.{Endpoint, SlotRange, count_slots, range_count, total_slots}
use valkeycluster_operator.Cluster.Fake.{Fake, fake_admin, assigned_slots, state, add_slots}
use valkeycluster_operator.Cluster.Fake.Assign.{
  assigned_slots-meet, assigned_slots-add_slots, state-covered,
}
use valkeycluster_operator.Controller.{Kube, Reconciler}
use valkeycluster_operator.Controller.View.{endpoint, seed, all_endpoints}
use valkeycluster_operator.Controller.Cluster.{meet_other, assign_from}

zero_right : (a : ℤ) → a ≡ a +ℤ pos 0
zero_right a = omega int_laws

regroup : (a b c : ℤ) → a +ℤ (b +ℤ pos 0) +ℤ c ≡ a +ℤ (b +ℤ c)
regroup a b c = omega int_laws

count_slots-distribute :
    (n : ℕ) → 0 < n → pos 0 +ℤ count_slots (distribute (pos n)) ≡ pos total_slots
unfolding ◌+ℤ◌
count_slots-distribute n h =
    let first : bound n 0 ≡ 0 = grind arith in
    rw (distribute_pos n h, count_slots-ranges_from n 0 n h (omega arith), first) refl

module _ (k : Kube Fake) (cr : ValkeyCluster) where
  abbrev pub in_memory : Reconciler Fake
  in_memory = record { admin = fake_admin; kube = k }

  meet_other-assigned :
      (ep : Endpoint) (f : Fake)
      → ((meet_other in_memory cr ep f).0 ≡ ok tt)
        × (assigned_slots (meet_other in_memory cr ep f).1 ≡ assigned_slots f)
  unfolding meet_other
  meet_other-assigned ep f = ground (arith, assigned_slots-meet (seed cr) ep f)

  meet_all-assigned :
      (eps : List Endpoint) (f : Fake)
      → ((for_each eps (meet_other in_memory cr) f).0 ≡ ok tt)
        × (assigned_slots (for_each eps (meet_other in_memory cr) f).1 ≡ assigned_slots f)
  unfolding for_each
  meet_all-assigned [] f = (refl, refl)
  meet_all-assigned (ep ∷ eps) f =
      let met = meet_other in_memory cr ep f in
      ground (arith, meet_other-assigned ep f, meet_all-assigned eps met.1)

  assign_from-assigned :
      (i : ℕ) (rs : List SlotRange) (f : Fake)
      → ((assign_from in_memory cr i rs f).0 ≡ ok tt)
        × (assigned_slots (assign_from in_memory cr i rs f).1 ≡ assigned_slots f +ℤ count_slots rs)
  unfolding assign_from count_slots
  assign_from-assigned i [] f = (refl, zero_right (assigned_slots f))
  assign_from-assigned i (range ∷ rs) f =
      let f' = add_slots (endpoint cr (pos i) 0) (range ∷ []) f in
      ground (
        arith,
        assigned_slots-add_slots (endpoint cr (pos i) 0) (range ∷ []) f,
        assign_from-assigned (suc i) rs f',
        regroup (assigned_slots f) (range_count range) (count_slots rs),
      )

  -- every slot is assigned when the two loops of `formCluster` are through
  pub form_total :
      (f : Fake)
      → 0 < cr.spec.shards
      → assigned_slots f ≡ pos 0
      → let met = for_each (all_endpoints cr) (meet_other in_memory cr) f in
        assigned_slots (assign_from in_memory cr 0 (distribute (pos cr.spec.shards)) met.1).1
        ≡ pos total_slots
  form_total f h none_assigned =
      let met = for_each (all_endpoints cr) (meet_other in_memory cr) f in
      rw
        (
          (assign_from-assigned 0 (distribute (pos cr.spec.shards)) met.1).1,
          (meet_all-assigned (all_endpoints cr) f).1,
          none_assigned,
        )
        (count_slots-distribute cr.spec.shards h)

  -- On an in-memory cluster none of whose slots is assigned, for at least one shard: the two loops of
  -- `formCluster`, which meet the pods and assign the ranges of `Distribute`, succeed, and the cluster
  -- then observes itself formed with every slot covered.
  pub form_covers :
      (f : Fake)
      → 0 < cr.spec.shards
      → assigned_slots f ≡ pos 0
      → let done =
          (for_each (all_endpoints cr) (meet_other in_memory cr)
              >> assign_from in_memory cr 0 (distribute (pos cr.spec.shards)))
            f in
        (done.0 ≡ ok tt) × ((state done.1).formed ≡ true) × ((state done.1).slots_covered ≡ true)
  form_covers f h none_assigned =
      let met = for_each (all_endpoints cr) (meet_other in_memory cr) f in
      let (met_ok, _) = meet_all-assigned (all_endpoints cr) f in
      let (all_ok, _) = assign_from-assigned 0 (distribute (pos cr.spec.shards)) met.1 in
      let (is_formed, is_covered) = state-covered _ (form_total f h none_assigned) in
      rw met_ok (all_ok, is_formed, is_covered)
