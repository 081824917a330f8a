-- ===== src/Controller/Loop/Adoption.antt =====
-- The first pass over a resource, which adds the finalizer.
use valkeycluster_operator.Prelude.{◌≡◌, ◌∙◌, ap, false, arith}
use valkeycluster_operator.Text.{Text}
use valkeycluster_operator.Exec.{Error, ok, err}
use valkeycluster_operator.Api.{ValkeyClusterSpec, ValkeyCluster}
use valkeycluster_operator.Api.Schema.{resubmitted}
use valkeycluster_operator.Controller.{Kube, Reconciler}
use valkeycluster_operator.Controller.Loop.{finalizer, reconcile_live, reconcile_found}

-- a finalizer is added to the metadata, and an update that succeeds returns the specification that
-- the schema makes of the one that was sent
pub record Stores {W : Type 0} (k : Kube W) : Type 0 where
  pub adding : (c : ValkeyCluster) (t : Text) → (k.add_finalizer c t).spec ≡ c.spec
  pub updating :
      (c stored : ValkeyCluster) (w : W)
      → (k.update_cluster c w).0 ≡ ok stored
      → stored.spec ≡ resubmitted c.spec

zero_replicas :
    (s stored : ValkeyClusterSpec)
    → s.replicas_per_shard ≡ 0
    → stored ≡ resubmitted s
    → stored.replicas_per_shard ≡ 1
unfolding resubmitted
zero_replicas s stored zero same = rw same (ground arith)

module _ {W : Type 0} (r : Reconciler W) (laws : Stores r.kube) where
  -- Of a resource that is not being deleted and has no finalizer yet: if the update that adds it
  -- succeeds, the pass goes on with what the server has stored, whose specification is the one that
  -- was read, sent again through the schema; one that declares no replicas then has one replica per
  -- shard. If the update fails, the pass ends with its error and sends nothing more.
  pub reconcile_found-resubmitted :
      (cr : ValkeyCluster) (w : W)
      → cr.deleting ≡ false
      → r.kube.contains_finalizer cr finalizer ≡ false
      → let sent = r.kube.update_cluster (r.kube.add_finalizer cr finalizer) w in
        ((stored : ValkeyCluster)
          → sent.0 ≡ ok stored
          → (reconcile_found r cr w ≡ reconcile_live r stored sent.1)
            × (stored.spec ≡ resubmitted cr.spec)
            × (cr.spec.replicas_per_shard ≡ 0 → stored.spec.replicas_per_shard ≡ 1))
        × ((e : Error) → sent.0 ≡ err e → reconcile_found r cr w ≡ (err e, sent.1))
  unfolding reconcile_found resubmitted
  reconcile_found-resubmitted cr w alive bare = (
    λ stored got.
        let same =
          laws.updating (r.kube.add_finalizer cr finalizer) stored w got
          ∙ ap resubmitted (laws.adding cr finalizer) in
        (ground arith, same, λ zero. zero_replicas cr.spec stored.spec zero same),
    λ e failed. ground arith,
  )
