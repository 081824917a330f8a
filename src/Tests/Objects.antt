-- ===== src/Tests/Objects.antt =====
-- Objects in a store.
use valkeycluster_operator.Prelude.{
  ℕ, ◌≡◌, refl, ◌↔◌, true, Option, none, some, List, [], ◌∷◌, inl, inr, arith, Has, ⊤,
}
use valkeycluster_operator.Prelude.Int.{pos}
use valkeycluster_operator.Text.{Text, codes, text_eq, text_eq_iff, text_eq_refl}
use valkeycluster_operator.Dict.{Dict, lookup, insert, lookup-insert}
use valkeycluster_operator.Exec.{Error, Exec, Result, ok, err, Result-cases}
use valkeycluster_operator.Api.{ValkeyCluster}
use valkeycluster_operator.Resources.{label_instance, headless_service}
use valkeycluster_operator.Resources.Workload.{StatefulSet, pod_template, stateful_set}
use valkeycluster_operator.Resources.Selection.{Matches, selected, apart, selectors_exact}
use valkeycluster_operator.Controller.{Kube, Reconciler}
use valkeycluster_operator.Controller.Objects.{
  copy_stateful_set, mutate_stateful_set, ensure_stateful_set, ensure_stateful_sets,
}
use valkeycluster_operator.Controller.Objects.Mutate.{merged, mutate_stateful_set_settles}
use valkeycluster_operator.Controller.Objects.Ensured.{
  Writes, Ensured, ensure_stateful_sets-Ensured,
}
use valkeycluster_operator.Controller.Scaling.{delete_owned_pvcs}
use valkeycluster_operator.Controller.Loop.{finalizer, reconcile_found}
use valkeycluster_operator.Controller.Loop.Deletion.{Deletes, reconcile_found-deleting}
use valkeycluster_operator.Tests.World.{demo, test_kube, quiet_admin}

selectors_exact_example :
    let labels = (pod_template (λ t. t) demo (pos 1)).labels in
    let i : ℕ = 1 in
    (Matches (selected (stateful_set (λ t. t) demo (pos 1))) labels
      ↔ ((demo.name ≡ demo.name) × (i ≡ i)))
    × (Matches (apart (pod_template (λ t. t) demo (pos 1)).anti_affinity) labels
        ↔ ((demo.name ≡ demo.name) × (i ≡ i)))
    × (Matches (headless_service demo).content.selector labels ↔ (demo.name ≡ demo.name))
selectors_exact_example = selectors_exact (λ t. t) demo demo 1 1

-- the StatefulSets by their name
abbrev Sets : Type 0
Sets = Dict StatefulSet

abbrev found_or : StatefulSet → Option StatefulSet → StatefulSet
found_or o none = o
found_or o (some s) = s

abbrev put : Text → Result StatefulSet → Exec Sets ⊤
put name (ok s) w = (ok tt, insert name s w)
put name (err e) w = (err e, w)

abbrev storing_kube : Kube Sets
storing_kube = record (test_kube []) {
  create_or_update_stateful_set =
      λ o mutate w. put o.name (mutate (found_or o (lookup o.name w))) w;
}

abbrev on_store : Reconciler Sets
on_store = record { admin = quiet_admin; kube = storing_kube }

storing_kube-Writes : Writes storing_kube (λ w name. lookup name w)
storing_kube-Writes = record {
  writing = λ o mutate w h. elim (Result-cases (mutate (found_or o (lookup o.name w)))) [
    | inr (e, failed) ↦ ground arith
    | inl (done, ran) ↦ (
      found_or o (lookup o.name w),
      done,
      ran,
      ground (arith, lookup-insert o.name o.name done w, text_eq_refl o.name),
    )
  ];
  keeping = λ o mutate w name other. elim (Result-cases (mutate (found_or o (lookup o.name w)))) [
    | inr (e, failed) ↦ ground arith
    | inl (done, ran) ↦ ground (arith, lookup-insert o.name name done w, text_eq_iff o.name name)
  ];
}

owner_stable :
    (owners more : List Text)
    → storing_kube.set_controller_reference demo owners ≡ ok more
    → storing_kube.set_controller_reference demo more ≡ ok more
owner_stable owners more h = h

abbrev first_set : StatefulSet
first_set = stateful_set (λ t. t) demo (pos 0)

abbrev first_owned : StatefulSet
first_owned = record first_set { owners = demo.name ∷ [] }

mutate_stateful_set_settles_example :
    (first_owned.name ≡ first_set.name)
    × (first_owned.namespace ≡ first_set.namespace)
    × (first_owned.labels ≡ first_set.labels)
    × (first_owned.content ≡ merged first_set first_set)
    × (mutate_stateful_set on_store demo first_set (record first_owned { created = true })
        ≡ ok (record first_owned { created = true }))
mutate_stateful_set_settles_example =
    mutate_stateful_set_settles on_store demo owner_stable first_set first_set first_owned
      (unfold mutate_stateful_set stateful_set copy_stateful_set in refl)

all_ensured : (ensure_stateful_sets on_store demo []).0 ≡ ok tt
unfolding ensure_stateful_sets ensure_stateful_set mutate_stateful_set
all_ensured = refl

ensure_stateful_sets-Ensured_example :
    Ensured on_store demo
      (λ w name. lookup name w)
      storing_kube-Writes
      2
      (ensure_stateful_sets on_store demo []).1
ensure_stateful_sets-Ensured_example =
    ensure_stateful_sets-Ensured on_store demo (λ w name. lookup name w) storing_kube-Writes []
      all_ensured 2 (omega arith)

-- a resource that is being deleted, and a world that is the list of the volumes that were deleted
abbrev leaving : ValkeyCluster
leaving = record demo { deleting = true; finalizers = finalizer ∷ [] }

abbrev deleting_kube : Kube (List Text)
deleting_kube = record (test_kube []) {
  list_pvcs = λ _ w. (ok (codes "data-0" ∷ []), w);
  delete_pvc = λ p w. (ok tt, p ∷ w);
}

abbrev on_deletions : Reconciler (List Text)
on_deletions = record { admin = quiet_admin; kube = deleting_kube }

deleting_kube-Deletes : Deletes deleting_kube (λ p w. Has (λ q. q ≡ p) w)
deleting_kube-Deletes = record {
  deleting = λ p w h. inl refl;
  missing = λ p w e h found. inl refl;
  keeping = λ p q w h. inr h;
}

reconcile_found-deleting_example :
    ((n : ℕ)
      → (reconcile_found on_deletions leaving []).0 ≡ ok n
      → (pvcs : List Text) × (v : List Text) × ((deleting_kube.list_pvcs
            ((label_instance, leaving.name) ∷ [])
            []).0
          ≡ ok pvcs)
        × ((p : Text) → Has (λ q. q ≡ p) pvcs → Has (λ q. q ≡ p) v)
        × ((reconcile_found on_deletions leaving []).1
            ≡ (deleting_kube.update_cluster
                (deleting_kube.remove_finalizer leaving finalizer)
                v).1))
    × ((e : Error)
        → (delete_owned_pvcs on_deletions leaving []).0 ≡ err e
        → reconcile_found on_deletions leaving []
          ≡ (err e, (delete_owned_pvcs on_deletions leaving []).1))
unfolding text_eq
reconcile_found-deleting_example =
    reconcile_found-deleting on_deletions (λ p w. Has (λ q. q ≡ p) w) deleting_kube-Deletes leaving
      [] refl refl
