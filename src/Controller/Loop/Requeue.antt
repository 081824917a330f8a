-- ===== src/Controller/Loop/Requeue.antt =====
-- When the next pass comes.
use valkeycluster_operator.Prelude.{ℕ, ◌≡◌, Bool, true, false, arith}
use valkeycluster_operator.Exec.{Result, ok, err}
use valkeycluster_operator.Api.{ValkeyCluster}
use valkeycluster_operator.Controller.{Reconciler}
use valkeycluster_operator.Controller.Cluster.{reconcile_cluster}
use valkeycluster_operator.Controller.Loop.{reconcile_ready, requeue_after, reshard_requeue}

-- the time to the next pass, by how the pass over the cluster ended
abbrev pub next_pass : Result Bool → ℕ
next_pass (ok true) = reshard_requeue
next_pass (ok false) = requeue_after
next_pass (err _) = requeue_after

module _ {W : Type 0} (r : Reconciler W) (cr : ValkeyCluster) where
  -- With all pods ready a pass never fails: it asks for the next pass in one second while a change
  -- is in flight, and in fifteen seconds when all is at rest or the pass over the cluster failed.
  pub reconcile_ready_lem :
      (w : W)
      → reconcile_ready r cr w
        ≡ (ok (next_pass (reconcile_cluster r cr w).0), (reconcile_cluster r cr w).1)
  unfolding reconcile_ready
  reconcile_ready_lem w = ground arith
