-- ===== src/Controller/Keeps/Removal.antt =====
-- Scale-in: drains, and the removal of a shard that is not declared.
use valkeycluster_operator.Prelude.{
  ℕ, arith, ⊤, false, List, [], ◌∷◌, ◌≡◌, inl, inr, seq, Bool-cases,
}
use valkeycluster_operator.Prelude.Int.{ℤ, pos, ◌≤ℤ◌, ltb_ℤ}
use valkeycluster_operator.Text.{Text}
use valkeycluster_operator.Dict.{Dict}
use valkeycluster_operator.Exec.{for_each, Exec, Result, ◌>>=◌, Result-cases}
use valkeycluster_operator.Exec.Keeps.{Keeps, for_each-Keeps}
use valkeycluster_operator.Api.{ValkeyCluster}
use valkeycluster_operator.Resources.{stateful_set_name}
use valkeycluster_operator.Cluster.{NodeInfo, ClusterState}
use valkeycluster_operator.Controller.{Reconciler}
use valkeycluster_operator.Controller.View.{endpoint, seed, ordinals, by_id, slots_of}
use valkeycluster_operator.Controller.Membership.{
  find_shard_primary, forget_stale_nodes, existing_shard_indexes,
}
use valkeycluster_operator.Controller.Scaling.{
  take_of, survivor_from, first_survivor_primary, ignore_not_found, delete_pvcs, delete_shard_pvcs,
  delete_shard, drain_batch_slots, drain_batch, forget_pod, remove_shard, scale_in_from, scale_in,
  has_excess_shard_stateful_sets,
}
use valkeycluster_operator.Controller.Keeps.{
  AdminKeeps, KubeKeeps, volume_labels, find_shard_primary-Keeps, forget_everywhere-Keeps,
  forget_stale_nodes-Keeps, existing_shard_indexes-Keeps,
}

not_below : (i n : ℤ) → ltb_ℤ i n ≡ false → n ≤ℤ i
not_below i n h = ground arith

module _ {W : Type 0} {P : W → Type 0} where
  ignore_not_found-Keeps : (m : Exec W ⊤) → Keeps P m → Keeps P (ignore_not_found m)
  unfolding ignore_not_found
  ignore_not_found-Keeps m h w p = ground (arith, h w p)

module _ {W : Type 0} (P : W → Type 0) (r : Reconciler W) (cr : ValkeyCluster)
    (ha : AdminKeeps P r.admin) (hk : KubeKeeps P cr r.kube) where
  survivor_from-Keeps :
      (idx : Dict NodeInfo) (exclude : Text) (ss : List ℕ)
      → Keeps P (survivor_from r cr idx exclude ss)
  unfolding survivor_from
  survivor_from-Keeps idx exclude [] w p = p
  survivor_from-Keeps idx exclude (s ∷ ss) w p =
      let found = find_shard_primary r cr (pos s) idx w in
      ground (
        arith,
        find_shard_primary-Keeps P r cr ha hk (pos s) idx w p,
        survivor_from-Keeps idx exclude ss found.1,
      )

  drain_batch-Keeps : (idx : Dict NodeInfo) (id : Text) → Keeps P (drain_batch r cr idx id)
  unfolding drain_batch first_survivor_primary
  drain_batch-Keeps idx id w p = elim (Result-cases (first_survivor_primary r cr idx id w).0) [
    | inr (e, failed) ↦ ground (arith, survivor_from-Keeps idx id (seq 0 cr.spec.shards) w p)
    | inl (to, found) ↦ ground (
      arith,
      survivor_from-Keeps idx id (seq 0 cr.spec.shards) w p,
      ha.move_slots (seed cr) id to (take_of drain_batch_slots (slots_of idx id))
          (survivor_from r cr idx id (seq 0 cr.spec.shards) w).1,
    )
  ]

  forget_pod-Keeps : (i : ℤ) (j : ℕ) → Keeps P (forget_pod r cr i j)
  unfolding forget_pod
  forget_pod-Keeps i j w p = elim (Result-cases (r.admin.my_id (endpoint cr i j) w).0) [
    | inr (e, failed) ↦ ground (arith, ha.my_id (endpoint cr i j) w p)
    | inl (id, found) ↦ ground (
      arith,
      ha.my_id (endpoint cr i j) w p,
      forget_everywhere-Keeps P r cr ha hk id (r.admin.my_id (endpoint cr i j) w).1,
    )
  ]

  delete_shard_pvcs-Keeps : (i : ℤ) → pos cr.spec.shards ≤ℤ i → Keeps P (delete_shard_pvcs r cr i)
  unfolding delete_shard_pvcs delete_pvcs
  delete_shard_pvcs-Keeps i h w p =
      elim (Result-cases (r.kube.list_pvcs (volume_labels cr i) w).0) [
        | inr (e, failed) ↦ ground (arith, hk.list_pvcs (volume_labels cr i) w p)
        | inl (pvcs, listed) ↦ ground (
          arith,
          hk.list_pvcs (volume_labels cr i) w p,
          for_each-Keeps {P = P} (λ q. ignore_not_found (r.kube.delete_pvc q)) pvcs
              (λ q hq.
                ignore_not_found-Keeps {P = P} (r.kube.delete_pvc q)
                  (hk.delete_pvc i h w pvcs listed q hq))
              (r.kube.list_pvcs (volume_labels cr i) w).1,
        )
      ]

  delete_shard-Keeps : (i : ℤ) → pos cr.spec.shards ≤ℤ i → Keeps P (delete_shard r cr i)
  unfolding delete_shard
  delete_shard-Keeps i h w p =
      let gone = ignore_not_found (r.kube.delete_stateful_set (stateful_set_name cr i)) in
      ground (
        arith,
        ignore_not_found-Keeps {P = P} (r.kube.delete_stateful_set (stateful_set_name cr i))
            (hk.delete_stateful_set i h) w p,
        delete_shard_pvcs-Keeps i h (gone w).1,
      )

  remove_shard-Keeps : (i : ℤ) → pos cr.spec.shards ≤ℤ i → Keeps P (remove_shard r cr i)
  unfolding remove_shard
  remove_shard-Keeps i h w p = ground (
    arith,
    for_each-Keeps {P = P} (forget_pod r cr i) (ordinals cr) (λ j _. forget_pod-Keeps i j) w p,
    delete_shard-Keeps i h (for_each (ordinals cr) (forget_pod r cr i) w).1,
  )

  scale_in_from-Keeps : (is : List ℤ) → Keeps P (scale_in_from r cr is)
  unfolding scale_in_from
  scale_in_from-Keeps [] w p = p
  scale_in_from-Keeps (i ∷ is) w p = elim (Bool-cases (ltb_ℤ i (pos cr.spec.shards))) [
    | inl below ↦ ground (arith, scale_in_from-Keeps is w p)
    | inr beyond ↦ elim (Result-cases look.0) [
      | inr (e, failed) ↦ ground (arith, looked)
      | inl (st, observed) ↦ elim (Result-cases (find_shard_primary r cr i (by_id st) look.1).0) [
        | inr (e, failed) ↦
            ground (arith, find_shard_primary-Keeps P r cr ha hk i (by_id st) look.1 looked)
        | inl ((id, k), found) ↦
            let at = (find_shard_primary r cr i (by_id st) look.1).1 in
            let kept = find_shard_primary-Keeps P r cr ha hk i (by_id st) look.1 looked in
            ground (
              arith,
              drain_batch-Keeps (by_id st) id at kept,
              remove_shard-Keeps i (not_below i (pos cr.spec.shards) beyond) at kept,
              scale_in_from-Keeps is (remove_shard r cr i at).1,
            )
      ]
    ]
  ]
    where
      look : Result ClusterState × W
      look = r.admin.state (seed cr) w

      looked : P look.1
      looked = ha.state (seed cr) w p

  -- the listing of the shards, and the loop over them
  scan-Keeps : Keeps P (existing_shard_indexes r cr >>= scale_in_from r cr)
  scan-Keeps w p = elim (Result-cases (existing_shard_indexes r cr w).0) [
    | inr (e, failed) ↦ ground (arith, existing_shard_indexes-Keeps P r cr ha hk w p)
    | inl (is, listed) ↦ ground (
      arith,
      existing_shard_indexes-Keeps P r cr ha hk w p,
      scale_in_from-Keeps is (existing_shard_indexes r cr w).1,
    )
  ]

  -- Scale-in keeps what all its requests keep: of the StatefulSets it deletes none but those of
  -- shards from the declared count on, and of the volumes none but those listed under such a shard.
  pub scale_in-Keeps : Keeps P (scale_in r cr)
  unfolding scale_in
  scale_in-Keeps w p = elim (Result-cases (r.admin.state (seed cr) w).0) [
    | inr (e, failed) ↦
        ground (arith, ha.state (seed cr) w p, scan-Keeps (r.admin.state (seed cr) w).1)
    | inl (st, observed) ↦ ground (
      arith,
      ha.state (seed cr) w p,
      forget_stale_nodes-Keeps P r cr ha hk st (r.admin.state (seed cr) w).1,
      scan-Keeps (forget_stale_nodes r cr st (r.admin.state (seed cr) w).1).1,
    )
  ]

  pub has_excess-Keeps : Keeps P (has_excess_shard_stateful_sets r cr)
  unfolding has_excess_shard_stateful_sets
  has_excess-Keeps w p = ground (arith, existing_shard_indexes-Keeps P r cr ha hk w p)
