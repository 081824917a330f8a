-- ===== src/Controller/Scaling/Silent.antt =====
-- Scale-in of a shard whose pods do not answer.
use valkeycluster_operator.Prelude.{ℕ, zero, suc, ◌+◌, ◌≤◌, ◌≡◌, refl, ⊤, List, [], ◌∷◌, arith, seq}
use valkeycluster_operator.Prelude.Int.{ℤ, pos, negsuc, ◌≤ℤ◌}
use valkeycluster_operator.Text.{is_empty}
use valkeycluster_operator.Text.Decimal.{itoa}
use valkeycluster_operator.Resources.{label_shard, label_instance, stateful_set_name}
use valkeycluster_operator.Dict.{Dict}
use valkeycluster_operator.Exec.{Exec, for_each, Error, ok, err, ◌>>=◌, ◌>>◌}
use valkeycluster_operator.Api.{ValkeyCluster}
use valkeycluster_operator.Cluster.{NodeInfo, ClusterState}
use valkeycluster_operator.Controller.{Reconciler}
use valkeycluster_operator.Controller.View.{endpoint, seed, by_id}
use valkeycluster_operator.Controller.Membership.{find_from, find_shard_primary}
use valkeycluster_operator.Controller.Scaling.{
  ignore_not_found, delete_pvcs, delete_shard_pvcs, delete_shard, forget_pod, remove_shard,
  scale_in_from,
}

module _ {W : Type 0} (r : Reconciler W) (cr : ValkeyCluster) (i : ℤ) (w : W)
    (silent : (j : ℕ)
      → j ≤ cr.spec.replicas_per_shard
      → (e : Error) × (r.admin.my_id (endpoint cr i j) w ≡ (err e, w))) where
  find_from_silent :
      (idx : Dict NodeInfo) (j m : ℕ)
      → j + m ≤ suc cr.spec.replicas_per_shard
      → find_from r cr i idx (seq j m) w ≡ (ok ([], negsuc 0), w)
  unfolding find_from
  find_from_silent idx j zero l = let (e, h) = silent 0 (omega arith) in ground arith
  find_from_silent idx j (suc m) l =
      let (e, h) = silent j (omega arith) in ground (arith, find_from_silent idx (j + 1) m)

  -- no pod is forgotten
  forget_silent :
      (j m : ℕ)
      → j + m ≤ suc cr.spec.replicas_per_shard
      → for_each (seq j m) (forget_pod r cr i) w ≡ (ok tt, w)
  unfolding for_each forget_pod
  forget_silent j zero l = refl
  forget_silent j (suc m) l =
      let (e, h) = silent j (omega arith) in ground (arith, forget_silent (j + 1) m)

  -- the requests that delete the shard's StatefulSet and then the volumes listed under its labels
  abbrev pub deletions : Exec W ⊤
  deletions = do
    ignore_not_found (r.kube.delete_stateful_set (stateful_set_name cr i))
    pvcs ← r.kube.list_pvcs ((label_shard, itoa i) ∷ (label_instance, cr.name) ∷ [])
    for_each pvcs (λ p. ignore_not_found (r.kube.delete_pvc p))

  removed : remove_shard r cr i w ≡ deletions w
  unfolding remove_shard delete_shard delete_shard_pvcs delete_pvcs
  removed = rw (forget_silent 0 (suc cr.spec.replicas_per_shard) (omega arith)) refl

  -- For a shard that is not declared: if the cluster can be observed, CLUSTER MYID fails at each of the
  -- shard's pods with a declared ordinal, and neither changes the world, then scale-in deletes the
  -- shard's StatefulSet and the volumes listed under the shard, and goes on to the next, whatever
  -- slots the observed state gives to its nodes.
  pub scale_in_from_silent :
      (rest : List ℤ) (st : ClusterState)
      → pos cr.spec.shards ≤ℤ i
      → r.admin.state (seed cr) w ≡ (ok st, w)
      → scale_in_from r cr (i ∷ rest) w ≡ (deletions >> scale_in_from r cr rest) w
  unfolding scale_in_from find_shard_primary is_empty
  scale_in_from_silent rest st beyond seen =
      let nobody = find_from_silent (by_id st) 0 (suc cr.spec.replicas_per_shard) (omega arith) in
      ground (arith, nobody, removed)
