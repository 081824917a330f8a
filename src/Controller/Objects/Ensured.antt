-- ===== src/Controller/Objects/Ensured.antt =====
-- What `ensureStatefulSets` leaves behind.
use valkeycluster_operator.Prelude.{
  ℕ, zero, suc, ◌+◌, ◌<◌, ◌≤◌, ◌≡◌, ◌≢◌, sym, subst, Option, some, arith, inl, inr, Has, seq, ◌==◌,
  ==_iff, Bool-cases,
}
use valkeycluster_operator.Prelude.Int.{pos}
use valkeycluster_operator.Text.{Text}
use valkeycluster_operator.Exec.{Result, ok, Result-cases}
use valkeycluster_operator.Exec.Loops.{for_each_all}
use valkeycluster_operator.Api.{ValkeyCluster}
use valkeycluster_operator.Resources.{stateful_set_name, shard_labels}
use valkeycluster_operator.Resources.Names.{stateful_set_name_injective}
use valkeycluster_operator.Resources.Workload.{StatefulSet, pod_template, stateful_set}
use valkeycluster_operator.Controller.{Kube, Reconciler}
use valkeycluster_operator.Controller.Objects.{
  blank_stateful_set, copy_stateful_set, mutate_stateful_set, ensure_stateful_set,
  ensure_stateful_sets,
}

-- `written` is what the operator last wrote, or found and left, under a name: `CreateOrUpdate` that
-- succeeds has mutated some object and left the outcome under the name, and touches no other name
pub record Writes {W : Type 0} (k : Kube W) (written : W → Text → Option StatefulSet) : Type 0 where
  pub writing :
      (o : StatefulSet) (mutate : StatefulSet → Result StatefulSet) (w : W)
      → let call = k.create_or_update_stateful_set o mutate w in
        call.0 ≡ ok tt
        → (found : StatefulSet) × (done : StatefulSet) × (mutate found ≡ ok done)
          × (written call.1 o.name ≡ some done)
  pub keeping :
      (o : StatefulSet) (mutate : StatefulSet → Result StatefulSet) (w : W) (name : Text)
      → name ≢ o.name
      → written (k.create_or_update_stateful_set o mutate w).1 name ≡ written w name

seq-Has : (a n i : ℕ) → a ≤ i → i < a + n → Has (λ y. y ≡ i) (seq a n)
seq-Has a zero i low high = absurd (omega arith)
seq-Has a (suc n) i low high = elim (Bool-cases (a == i)) [
  | inl same ↦ inl ((==_iff a i).0 same)
  | inr other ↦ inr (seq-Has (a + 1) n i (ground (arith, ==_iff a i)) (omega arith))
]

module _ {W : Type 0} (r : Reconciler W) (cr : ValkeyCluster)
    (written : W → Text → Option StatefulSet) (laws : Writes r.kube written) where
  -- the StatefulSet of the shard is there as it should be
  abbrev pub Ensured : ℕ → W → Type 0
  Ensured i w =
      (done : StatefulSet) × (written w (stateful_set_name cr (pos i)) ≡ some done)
      × (done.labels ≡ shard_labels cr (pos i))
      × (done.content.replicas ≡ some (1 + cr.spec.replicas_per_shard))
      × (done.content.template ≡ pod_template r.kube.digest cr (pos i))

  mutated :
      (i : ℕ) (found done : StatefulSet)
      → mutate_stateful_set r cr (stateful_set r.kube.digest cr (pos i)) found ≡ ok done
      → (done.labels ≡ shard_labels cr (pos i))
        × (done.content.replicas ≡ some (1 + cr.spec.replicas_per_shard))
        × (done.content.template ≡ pod_template r.kube.digest cr (pos i))
  unfolding mutate_stateful_set copy_stateful_set stateful_set
  mutated i found done h = elim (Result-cases (r.kube.set_controller_reference cr found.owners)) [
    | inr (e, failed) ↦ ground arith
    | inl (more, set) ↦ ground arith
  ]

  ensure_one :
      (i : ℕ) (w : W)
      → (ensure_stateful_set r cr i w).0 ≡ ok tt
      → Ensured i (ensure_stateful_set r cr i w).1
  unfolding ensure_stateful_set stateful_set
  ensure_one i w h =
      let (found, done, ran, seen) =
        laws.writing (blank_stateful_set r cr i)
          (mutate_stateful_set r cr (stateful_set r.kube.digest cr (pos i))) w h in
      let (labels, replicas, template) = mutated i found done ran in
      (done, seen, labels, replicas, template)

  ensure_other :
      (i j : ℕ) (w : W)
      → (ensure_stateful_set r cr j w).0 ≡ ok tt
      → Ensured i w
      → Ensured i (ensure_stateful_set r cr j w).1
  unfolding ensure_stateful_set stateful_set
  ensure_other i j w h (done, seen, labels, replicas, template) = elim (Bool-cases (i == j)) [
    | inl same ↦
        subst (λ k. Ensured k (ensure_stateful_set r cr j w).1) (sym ((==_iff i j).0 same))
          (ensure_one j w h)
    | inr other ↦
        let kept =
          laws.keeping (blank_stateful_set r cr j)
            (mutate_stateful_set r cr (stateful_set r.kube.digest cr (pos j))) w
            (stateful_set_name cr (pos i))
            (λ e. ground (arith, stateful_set_name_injective cr i j e, ==_iff i j)) in
        (done, ground (arith, kept, seen), labels, replicas, template)
  ]

  -- If CreateOrUpdate leaves the outcome of the mutation under the object's name and touches no other:
  -- when ensureStatefulSets ends without an error, every declared shard has a StatefulSet of its name,
  -- with the labels of the shard, the declared number of pods and the template of the resource; no
  -- round undoes what another one has done.
  pub ensure_stateful_sets-Ensured :
      (w : W)
      → (ensure_stateful_sets r cr w).0 ≡ ok tt
      → (i : ℕ) → i < cr.spec.shards
      → Ensured i (ensure_stateful_sets r cr w).1
  unfolding ensure_stateful_sets
  ensure_stateful_sets-Ensured w h i below =
      for_each_all (ensure_stateful_set r cr) Ensured ensure_other ensure_one (seq 0 cr.spec.shards)
        w h i (seq-Has 0 cr.spec.shards i (omega arith) (omega arith))
