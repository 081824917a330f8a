-- ===== src/Controller/Keeps/Scaling.antt =====
-- Scale-out and scale-in.
use valkeycluster_operator.Prelude.{ℕ, zero, suc, ◌-◌, arith, inl, inr, seq}
use valkeycluster_operator.Prelude.Int.{ℤ, pos, pos_part, ◌-ℤ◌}
use valkeycluster_operator.Text.{Text}
use valkeycluster_operator.Dict.{Dict}
use valkeycluster_operator.Exec.{for_each, Result, ◌>>=◌, Result-cases}
use valkeycluster_operator.Exec.Keeps.{Keeps, for_each-Keeps}
use valkeycluster_operator.Api.{ValkeyCluster}
use valkeycluster_operator.Cluster.{NodeInfo}
use valkeycluster_operator.Controller.{Reconciler}
use valkeycluster_operator.Controller.View.{
  endpoint, seed, ordinals, by_id, slots_of, fattest_primary,
}
use valkeycluster_operator.Controller.Membership.{attach_replicas}
use valkeycluster_operator.Controller.Scaling.{
  take_of, Ending, fill, ended, new_primary_id, per_shard, fill_shard, meet_shard, scale_out,
}
use valkeycluster_operator.Controller.Keeps.{AdminKeeps, KubeKeeps, attach_replicas-Keeps}

module _ {W : Type 0} (P : W → Type 0) (r : Reconciler W) (cr : ValkeyCluster)
    (ha : AdminKeeps P r.admin) (hk : KubeKeeps P cr r.kube) where
  fill-Keeps :
      (fuel : ℕ) (id : Text) (need : ℤ) (idx : Dict NodeInfo) → Keeps P (fill r cr fuel id need idx)
  unfolding fill
  fill-Keeps zero id need idx w p = ground arith
  fill-Keeps (suc fuel) id need idx w p = elim (Result-cases move.0) [
    | inr (e, failed) ↦ ground (arith, moving)
    | inl (moved, done) ↦ elim (Result-cases (r.admin.state (seed cr) move.1).0) [
      | inr (e, failed) ↦ ground (arith, moving, ha.state (seed cr) move.1 moving)
      | inl (st, seen) ↦ ground (
        arith,
        moving,
        fill-Keeps fuel id (need -ℤ moved) (by_id st) (r.admin.state (seed cr) move.1).1
            (ha.state (seed cr) move.1 moving),
      )
    ]
  ]
    where
      move : Result ℤ × W
      move =
          r.admin.move_slots (seed cr) (fattest_primary idx id).0 id
            (take_of need (fattest_primary idx id).1) w

      moving : P move.1
      moving =
          ha.move_slots (seed cr) (fattest_primary idx id).0 id
            (take_of need (fattest_primary idx id).1) w p

  new_primary_id-Keeps : (i : ℕ) → Keeps P (new_primary_id r cr i)
  unfolding new_primary_id
  new_primary_id-Keeps i w p = ground (arith, ha.my_id (endpoint cr (pos i) 0) w p)

  ended-Keeps : (e : Ending) → Keeps P (ended r cr e)
  unfolding ended
  ended-Keeps e w p = ground arith

  -- the loop with the fuel it is given, and its end
  fill_all-Keeps :
      (id : Text) (need : ℤ) (idx : Dict NodeInfo)
      → Keeps P (fill r cr (pos_part need) id need idx >>= ended r cr)
  fill_all-Keeps id need idx w p = elim (Result-cases (fill r cr (pos_part need) id need idx w).0) [
    | inr (e, failed) ↦ ground (arith, fill-Keeps (pos_part need) id need idx w p)
    | inl (end, seen) ↦ ground (
      arith,
      ended-Keeps end (fill r cr (pos_part need) id need idx w).1
          (fill-Keeps (pos_part need) id need idx w p),
    )
  ]

  fill_shard-Keeps : (i : ℕ) → Keeps P (fill_shard r cr i)
  unfolding fill_shard
  fill_shard-Keeps i w p = elim (Result-cases got.0) [
    | inr (e, failed) ↦ ground (arith, got_kept)
    | inl (id, found) ↦ elim (Result-cases (r.admin.state (seed cr) got.1).0) [
      | inr (e, failed) ↦ ground (arith, ha.state (seed cr) got.1 got_kept)
      | inl (st, seen) ↦ ground (
        arith,
        fill_all-Keeps id (pos (per_shard r cr) -ℤ slots_of (by_id st) id) (by_id st)
            (r.admin.state (seed cr) got.1).1 (ha.state (seed cr) got.1 got_kept),
      )
    ]
  ]
    where
      got : Result Text × W
      got = new_primary_id r cr i w

      got_kept : P got.1
      got_kept = new_primary_id-Keeps i w p

  meet_shard-Keeps : (i : ℕ) → Keeps P (meet_shard r cr i)
  unfolding meet_shard
  meet_shard-Keeps i =
      for_each-Keeps (λ j. r.admin.meet (seed cr) (endpoint cr (pos i) j)) (ordinals cr)
        (λ j _. ha.meet (seed cr) (endpoint cr (pos i) j))

  -- observing the cluster and attaching the replicas, as at both ends of the filling
  pub observe_attach-Keeps : Keeps P (r.admin.state (seed cr) >>= attach_replicas r cr)
  observe_attach-Keeps w p = elim (Result-cases (r.admin.state (seed cr) w).0) [
    | inr (e, failed) ↦ ground (arith, ha.state (seed cr) w p)
    | inl (st, seen) ↦ ground (
      arith,
      ha.state (seed cr) w p,
      attach_replicas-Keeps P r cr ha hk st (r.admin.state (seed cr) w).1,
    )
  ]

  pub scale_out-Keeps : (old_shards : ℕ) → Keeps P (scale_out r cr old_shards)
  unfolding scale_out
  scale_out-Keeps old_shards w p =
      let added = seq old_shards (cr.spec.shards - old_shards) in
      let met = for_each added (meet_shard r cr) w in
      let attached = (r.admin.state (seed cr) >>= attach_replicas r cr) met.1 in
      let filled = for_each added (fill_shard r cr) attached.1 in
      ground (
        arith,
        for_each-Keeps {P = P} (meet_shard r cr) added (λ i _. meet_shard-Keeps i) w p,
        observe_attach-Keeps met.1,
        for_each-Keeps {P = P} (fill_shard r cr) added (λ i _. fill_shard-Keeps i) attached.1,
        observe_attach-Keeps filled.1,
      )
