-- ===== src/Controller/Loop/Deletion.antt =====
-- The deletion of a cluster.
use valkeycluster_operator.Prelude.{ℕ, ◌≡◌, true, List, [], ◌∷◌, inl, inr, arith, Has}
use valkeycluster_operator.Text.{Text}
use valkeycluster_operator.Exec.{Error, ok, err, is_not_found, Result-cases}
use valkeycluster_operator.Exec.Loops.{for_each_all}
use valkeycluster_operator.Api.{ValkeyCluster}
use valkeycluster_operator.Resources.{label_instance}
use valkeycluster_operator.Controller.{Kube, Reconciler}
use valkeycluster_operator.Controller.Scaling.{ignore_not_found, delete_pvcs, delete_owned_pvcs}
use valkeycluster_operator.Controller.Loop.{finalizer, reconcile_delete, reconcile_found}

-- a volume is leaving if it is gone or marked for deletion, as one in use is: so it is once a request
-- to delete it has succeeded, or has found none, and no such request takes the mark off again
pub record Deletes {W : Type 0} (k : Kube W) (leaving : Text → W → Type 0) : Type 0 where
  pub deleting : (p : Text) (w : W) → (k.delete_pvc p w).0 ≡ ok tt → leaving p (k.delete_pvc p w).1
  pub missing :
      (p : Text) (w : W) (e : Error)
      → (k.delete_pvc p w).0 ≡ err e
      → is_not_found e ≡ true
      → leaving p (k.delete_pvc p w).1
  pub keeping : (p q : Text) (w : W) → leaving p w → leaving p (k.delete_pvc q w).1

module _ {W : Type 0} (r : Reconciler W) (leaving : Text → W → Type 0)
    (laws : Deletes r.kube leaving) where
  delete_one :
      (p : Text) (w : W)
      → (ignore_not_found (r.kube.delete_pvc p) w).0 ≡ ok tt
      → leaving p (ignore_not_found (r.kube.delete_pvc p) w).1
  unfolding ignore_not_found
  delete_one p w h = elim (Result-cases (r.kube.delete_pvc p w).0) [
    | inr (e, failed) ↦ ground (arith, laws.missing p w e failed)
    | inl (_, done) ↦ ground (arith, laws.deleting p w done)
  ]

  delete_other :
      (p q : Text) (w : W)
      → (ignore_not_found (r.kube.delete_pvc q) w).0 ≡ ok tt
      → leaving p w
      → leaving p (ignore_not_found (r.kube.delete_pvc q) w).1
  unfolding ignore_not_found
  delete_other p q w h g = ground (arith, laws.keeping p q w g)

  -- the volumes that are listed are leaving when their deletion ends without an error
  delete_owned :
      (cr : ValkeyCluster) (w : W)
      → (delete_owned_pvcs r cr w).0 ≡ ok tt
      → (pvcs : List Text) × ((r.kube.list_pvcs ((label_instance, cr.name) ∷ []) w).0 ≡ ok pvcs)
        × ((p : Text) → Has (λ q. q ≡ p) pvcs → leaving p (delete_owned_pvcs r cr w).1)
  unfolding delete_owned_pvcs delete_pvcs
  delete_owned cr w h =
      let listed = r.kube.list_pvcs ((label_instance, cr.name) ∷ []) w in
      elim (Result-cases listed.0) [
        | inr (e, failed) ↦ ground arith
        | inl (pvcs, got) ↦ (
          pvcs,
          got,
          λ p i. ground (
            arith,
            for_each_all (λ q. ignore_not_found (r.kube.delete_pvc q)) leaving delete_other
                delete_one pvcs listed.1 (ground arith) p i,
          ),
        )
      ]

  -- Of a resource that is being deleted and carries the finalizer: if the pass ends without an error,
  -- the volumes of the cluster were listed and every one of them was gone or marked for
  -- deletion when the finalizer was taken off, which is the last request; if listing or deleting a
  -- volume fails, the pass ends with that error and sends nothing more: the finalizer stays.
  pub reconcile_found-deleting :
      (cr : ValkeyCluster) (w : W)
      → cr.deleting ≡ true
      → r.kube.contains_finalizer cr finalizer ≡ true
      → ((n : ℕ)
          → (reconcile_found r cr w).0 ≡ ok n
          → (pvcs : List Text) × (v : W) × ((r.kube.list_pvcs ((label_instance, cr.name) ∷ []) w).0
              ≡ ok pvcs)
            × ((p : Text) → Has (λ q. q ≡ p) pvcs → leaving p v)
            × ((reconcile_found r cr w).1
                ≡ (r.kube.update_cluster (r.kube.remove_finalizer cr finalizer) v).1))
        × ((e : Error)
            → (delete_owned_pvcs r cr w).0 ≡ err e
            → reconcile_found r cr w ≡ (err e, (delete_owned_pvcs r cr w).1))
  unfolding reconcile_found reconcile_delete
  reconcile_found-deleting cr w deleting carries = (
    λ n h. elim (Result-cases (delete_owned_pvcs r cr w).0) [
      | inr (e, failed) ↦ ground arith
      | inl (_, done) ↦
          let (pvcs, listed, all_leaving) = delete_owned cr w done in
          let sent =
            r.kube.update_cluster (r.kube.remove_finalizer cr finalizer)
              (delete_owned_pvcs r cr w).1 in
          elim (Result-cases sent.0) [
            | inr (e, failed) ↦ ground arith
            | inl (_, updated) ↦
                (pvcs, (delete_owned_pvcs r cr w).1, listed, all_leaving, ground arith)
          ]
    ],
    λ e failed. ground arith,
  )
