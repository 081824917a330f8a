-- ===== src/Controller/Cluster/Met.antt =====
-- The first loop of `formCluster` in memory: every pod has a node of its own.
use valkeycluster_operator.Prelude.{
  ℕ, zero, suc, ◌<◌, ◌≡◌, refl, ap, ◌∙◌, sym, subst, false, List, [], ◌∷◌, ◌++◌, map, arith, seq,
  append_assoc, append-nil, inl,
}
use valkeycluster_operator.Prelude.Int.{pos}
use valkeycluster_operator.Text.{text_eq, text_eq_iff, text_eq_refl}
use valkeycluster_operator.Exec.{for_each, ok}
use valkeycluster_operator.Api.{ValkeyCluster}
use valkeycluster_operator.Resources.Names.{pod_fqdn_injective}
use valkeycluster_operator.Cluster.Fake.{Fake, new_node, new_fake, ensure, meet}
use valkeycluster_operator.Controller.{Kube}
use valkeycluster_operator.Controller.View.{endpoint, seed, ordinals, all_endpoints}
use valkeycluster_operator.Controller.Cluster.{meet_other}
use valkeycluster_operator.Controller.Cluster.Form.{in_memory}
use valkeycluster_operator.Controller.Cluster.Table.{
  Pod, In, Misses, Distinct, Nodes, host, table, lookup-table-none, insert-table, ensure-table,
}
use valkeycluster_operator.Controller.Cluster.Pods.{
  row, rows, pods, pod_endpoint, all_endpoints_lem, pods-Distinct,
}

pub Distinct-middle : (a b : ℕ) (ps qs : List Pod) → Distinct (ps ++ (a, b) ∷ qs) → Misses a b ps
Distinct-middle a b [] qs d = tt
Distinct-middle a b ((i, j) ∷ ps) qs d =
    (λ e f. apart i j ps d.0 (sym e) (sym f), Distinct-middle a b ps qs d.1)
  where
    apart : (i j : ℕ) (ps : List Pod) → Misses i j (ps ++ (a, b) ∷ qs) → a ≡ i → b ≡ j → ⊥
    apart i j [] m e f = m.0 e f
    apart i j (p ∷ ps) m e f = apart i j ps m.1 e f

-- a pod that is there is not one that is missing
In-Misses : (a b i j : ℕ) (ps : List Pod) → In i j ps → Misses a b ps → i ≡ a → j ≡ b → ⊥
In-Misses a b i j [] h m e f = elim h [ ]
In-Misses a b i j (p ∷ ps) h m e f = ground (arith, In-Misses a b i j ps)

pub In-append : (i j : ℕ) (ps qs : List Pod) → In i j ps → In i j (ps ++ qs)
In-append i j [] qs h = elim h [ ]
In-append i j (p ∷ ps) qs h = ground (arith, In-append i j ps qs)

pub no_shard : 0 < 0 → ⊥
no_shard h = omega arith

module _ (k : Kube Fake) (cr : ValkeyCluster) where
  -- the node of a pod that has just been met
  abbrev pub fresh : Nodes
  fresh i j = new_node (endpoint cr (pos i) j)

  pub ensure_new :
      (a b : ℕ) (ps : List Pod)
      → Misses a b ps
      → ensure (endpoint cr (pos a) b) (table cr fresh ps)
        ≡ (fresh a b, table cr fresh (ps ++ (a, b) ∷ []))
  unfolding ensure endpoint
  ensure_new a b ps m =
      ground (arith, lookup-table-none cr fresh a b ps m, insert-table cr fresh a b ps m)

  pub no_seed :
      (a b : ℕ) (done : List Pod)
      → In 0 0 done
      → Misses a b done
      → text_eq (host cr a b) (host cr 0 0) ≡ false
  no_seed a b done h m = ground (
    arith,
    text_eq_iff (host cr a b) (host cr 0 0),
    pod_fqdn_injective cr a 0 b 0,
    In-Misses a b 0 0 done h m,
  )

  -- one round, once the seed has a node
  meet_pod :
      (a b : ℕ) (done : List Pod) (f : Fake)
      → In 0 0 done
      → Misses a b done
      → ensure (seed cr) f ≡ (fresh 0 0, table cr fresh done)
      → meet_other (in_memory k cr) cr (pod_endpoint cr (a, b)) f
        ≡ (ok tt, table cr fresh (done ++ (a, b) ∷ []))
  unfolding meet_other meet seed endpoint
  meet_pod a b done f h m e = rw (no_seed a b done h m, e, ensure_new a b done m) refl

  meet_rest :
      (todo done : List Pod)
      → In 0 0 done
      → Distinct (done ++ todo)
      → for_each (map (pod_endpoint cr) todo) (meet_other (in_memory k cr) cr) (table cr fresh done)
        ≡ (ok tt, table cr fresh (done ++ todo))
  unfolding for_each seed
  meet_rest [] done h d = rw append-nil refl
  meet_rest ((a, b) ∷ todo) done h d =
      let next : (done ++ (a, b) ∷ []) ++ todo ≡ done ++ (a, b) ∷ todo =
        append_assoc done ((a, b) ∷ []) todo in
      let met =
        meet_pod a b done (table cr fresh done) h (Distinct-middle a b done todo d)
          (ensure-table cr fresh 0 0 done h) in
      rw met (
        meet_rest todo (done ++ (a, b) ∷ []) (In-append 0 0 done ((a, b) ∷ []) h)
          (subst Distinct (sym next) d)
        ∙ ap (λ ps. (ok tt, table cr fresh ps)) next)

  meet_all :
      (todo : List Pod)
      → Distinct ((0, 0) ∷ todo)
      → let met = for_each (map (pod_endpoint cr) todo) (meet_other (in_memory k cr) cr) new_fake in
        (met.0 ≡ ok tt) × (ensure (seed cr) met.1 ≡ (fresh 0 0, table cr fresh ((0, 0) ∷ todo)))
  unfolding for_each seed
  meet_all [] d = (refl, ensure_new 0 0 [] tt)
  meet_all ((a, b) ∷ todo) d =
      let here : In 0 0 ((0, 0) ∷ []) = inl (refl, refl) in
      let apart = Distinct-middle a b ((0, 0) ∷ []) todo d in
      rw
        (
          meet_pod a b ((0, 0) ∷ []) new_fake here apart (ensure_new 0 0 [] tt),
          meet_rest todo ((0, 0) ∷ (a, b) ∷ []) (inl (refl, refl)) d,
        )
        (refl, ensure-table cr fresh 0 0 ((0, 0) ∷ (a, b) ∷ todo) (inl (refl, refl)))

  skip_seed :
      (todo : List Pod) (f : Fake)
      → for_each (map (pod_endpoint cr) ((0, 0) ∷ todo)) (meet_other (in_memory k cr) cr) f
        ≡ for_each (map (pod_endpoint cr) todo) (meet_other (in_memory k cr) cr) f
  unfolding for_each meet_other seed endpoint
  skip_seed todo f = rw (text_eq_refl (host cr 0 0)) refl

  met_from :
      (n : ℕ)
      → 0 < n
      → Distinct (rows (seq 0 n) (ordinals cr))
      → let met =
          for_each
            (map (pod_endpoint cr) (rows (seq 0 n) (ordinals cr)))
            (meet_other (in_memory k cr) cr)
            new_fake in
        (met.0 ≡ ok tt)
        × (ensure (seed cr) met.1 ≡ (fresh 0 0, table cr fresh (rows (seq 0 n) (ordinals cr))))
  met_from zero h d = elim (no_shard h) [ ]
  met_from (suc n) h d =
      let todo = row 0 (seq 1 cr.spec.replicas_per_shard) ++ rows (seq 1 n) (ordinals cr) in
      rw (skip_seed todo new_fake) (meet_all todo d)

  -- When all pods have been met, assigning the first range finds a node for every pod.
  pub met_lem :
      0 < cr.spec.shards
      → let met = for_each (all_endpoints cr) (meet_other (in_memory k cr) cr) new_fake in
        (met.0 ≡ ok tt) × (ensure (seed cr) met.1 ≡ (fresh 0 0, table cr fresh (pods cr)))
  met_lem h = rw (all_endpoints_lem cr) (met_from cr.spec.shards h (pods-Distinct cr))
