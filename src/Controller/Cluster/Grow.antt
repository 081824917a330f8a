-- ===== src/Controller/Cluster/Grow.antt =====
-- Meeting the pods that are missing, in memory, when more replicas are declared.
use valkeycluster_operator.Prelude.{
  ℕ, zero, suc, ◌+◌, ◌≤◌, ◌<◌, ◌≡◌, refl, ap, sym, subst, ◌∙◌, ⊤, List, [], ◌∷◌, ◌++◌, map, arith,
  seq, All, leb, if◌then◌else◌, inl, inr, append_assoc, append-nil,
}
use valkeycluster_operator.Prelude.Int.{pos}
use valkeycluster_operator.Exec.{Exec, for_each, ok, ◌>>◌, Result-cases}
use valkeycluster_operator.Api.{ValkeyCluster}
use valkeycluster_operator.Slots.Partition.{seq-append}
use valkeycluster_operator.Cluster.Fake.{Fake, ensure, meet, state}
use valkeycluster_operator.Controller.{Kube}
use valkeycluster_operator.Controller.View.{endpoint, seed, all_endpoints, host_index}
use valkeycluster_operator.Controller.Membership.{meet_missing}
use valkeycluster_operator.Controller.Cluster.Form.{in_memory}
use valkeycluster_operator.Controller.Cluster.Table.{
  Pod, In, Misses, Distinct, Nodes, table, table_cong, lookup-table-none, insert-table,
  ensure-table,
}
use valkeycluster_operator.Controller.Cluster.Pods.{
  row, rows, pod_endpoint, all_endpoints_lem, rows-All,
}
use valkeycluster_operator.Controller.Cluster.Named.{host_index_present, host_index_absent}
use valkeycluster_operator.Controller.Cluster.Met.{fresh, Distinct-middle, In-append}
use valkeycluster_operator.Controller.Cluster.Attached.{settled, settled-placed}
use valkeycluster_operator.Controller.Cluster.Extra.{
  kept, extra, both-Distinct, kept-In, kept-Misses, extra-All,
}

then_cong :
    {W : Type 0} (m : Exec W ⊤) (k k' : Exec W ⊤)
    → ((w : W) → k w ≡ k' w)
    → (w : W) → (m >> k) w ≡ (m >> k') w
then_cong m k k' h w = elim (Result-cases (m w).0) [
  | inr (e, failed) ↦ ground arith
  | inl (_, done) ↦ ground (arith, h (m w).1)
]

row-append :
    (i : ℕ) (js ks : List ℕ) (ps : List Pod) → row i (js ++ ks) ++ ps ≡ row i js ++ (row i ks ++ ps)
row-append i [] ks ps = refl
row-append i (j ∷ js) ks ps = ap (◌∷◌ (i, j)) (row-append i js ks ps)

module _ (k : Kube Fake) (cr : ValkeyCluster) (r d : ℕ) where
  -- the cluster before the pass
  abbrev pub before : Fake
  before = table cr (settled k cr) (kept cr.spec.shards r)

  abbrev meet_pod : Pod → Exec Fake ⊤
  meet_pod p = meet_missing (in_memory k cr) cr (host_index (state before)) (pod_endpoint cr p)

  abbrev meet_pods : List Pod → Exec Fake ⊤
  meet_pods ps =
      for_each (map (pod_endpoint cr) ps)
        (meet_missing (in_memory k cr) cr (host_index (state before)))

  -- the nodes when the missing pods have been met
  abbrev pub grown : Nodes
  grown i j = if leb j r then settled k cr i j else fresh k cr i j

  meet_old : (i j : ℕ) (f : Fake) → i < cr.spec.shards → j ≤ r → meet_pod (i, j) f ≡ (ok tt, f)
  unfolding meet_missing endpoint
  meet_old i j f h l = ground (
    arith,
    host_index_present cr (settled k cr) (kept cr.spec.shards r) i j (settled-placed k cr)
        (kept-In cr.spec.shards r i j h l),
  )

  ensure_extra :
      (i j : ℕ) (ps : List Pod)
      → r < j
      → Misses i j ps
      → ensure (endpoint cr (pos i) j) (table cr grown ps)
        ≡ (grown i j, table cr grown (ps ++ (i, j) ∷ []))
  unfolding ensure endpoint
  ensure_extra i j ps h m =
      ground (arith, lookup-table-none cr grown i j ps m, insert-table cr grown i j ps m)

  meet_lem :
      (i j : ℕ) (ps : List Pod)
      → In 0 0 ps
      → Misses i j ps
      → r < j
      → meet (seed cr) (endpoint cr (pos i) j) (table cr grown ps)
        ≡ table cr grown (ps ++ (i, j) ∷ [])
  unfolding meet seed
  meet_lem i j ps h m l =
      ap (λ t. (ensure (endpoint cr (pos i) j) t.1).1) (ensure-table cr grown 0 0 ps h)
      ∙ ap (λ t. t.1) (ensure_extra i j ps l m)

  meet_new :
      (i j : ℕ) (ps : List Pod)
      → In 0 0 ps
      → Misses i j ps
      → r < j
      → meet_pod (i, j) (table cr grown ps) ≡ (ok tt, table cr grown (ps ++ (i, j) ∷ []))
  unfolding meet_missing endpoint
  meet_new i j ps h m l =
      let nobody =
        host_index_absent cr (settled k cr) (kept cr.spec.shards r) i j (settled-placed k cr)
          (kept-Misses cr.spec.shards r i j l) in
      ground (arith, nobody, meet_lem i j ps h m l)

  meet_list :
      (todo done : List Pod)
      → In 0 0 done
      → Distinct (done ++ todo)
      → All (λ p. r < p.1) todo
      → meet_pods todo (table cr grown done) ≡ (ok tt, table cr grown (done ++ todo))
  unfolding for_each
  meet_list [] done h dist l = rw append-nil refl
  meet_list ((i, j) ∷ todo) done h dist l =
      let next : (done ++ (i, j) ∷ []) ++ todo ≡ done ++ (i, j) ∷ todo =
        append_assoc done ((i, j) ∷ []) todo in
      rw (meet_new i j done h (Distinct-middle i j done todo dist) l.0) (
        meet_list todo (done ++ (i, j) ∷ []) (In-append 0 0 done ((i, j) ∷ []) h)
          (subst Distinct (sym next) dist) l.1
        ∙ ap (λ ps. (ok tt, table cr grown ps)) next)

  -- the pods that are there are passed over
  skip_old :
      (i j m : ℕ) (ps : List Pod) (f : Fake)
      → i < cr.spec.shards
      → j + m ≤ suc r
      → meet_pods (row i (seq j m) ++ ps) f ≡ meet_pods ps f
  unfolding for_each
  skip_old i j zero ps f h l = refl
  skip_old i j (suc m) ps f h l =
      rw (meet_old i j f h (omega arith)) (skip_old i (j + 1) m ps f h (omega arith))

  row_cong :
      (i : ℕ) (js : List ℕ) (ps qs : List Pod)
      → ((f : Fake) → meet_pods ps f ≡ meet_pods qs f)
      → (f : Fake) → meet_pods (row i js ++ ps) f ≡ meet_pods (row i js ++ qs) f
  unfolding for_each
  row_cong i [] ps qs h f = h f
  row_cong i (j ∷ js) ps qs h f =
      then_cong (meet_pod (i, j)) (meet_pods (row i js ++ ps)) (meet_pods (row i js ++ qs))
        (row_cong i js ps qs h) f

  skip_rows :
      (i m : ℕ) (f : Fake)
      → i + m ≤ cr.spec.shards
      → meet_pods (rows (seq i m) (seq 0 (suc r + d))) f
        ≡ meet_pods (rows (seq i m) (seq (suc r) d)) f
  skip_rows i zero f h = refl
  skip_rows i (suc m) f h =
      let split : seq 0 (suc r + d) ≡ seq 0 (suc r) ++ seq (suc r) d =
        seq-append 0 (suc r) d ∙ ap (λ (t : ℕ). seq 0 (suc r) ++ seq t d) (omega arith) in
      let rest = rows (seq (i + 1) m) (seq 0 (suc r + d)) in
      ap (λ js. meet_pods (row i js ++ rest) f) split
      ∙ ap (λ ps. meet_pods ps f) (row-append i (seq 0 (suc r)) (seq (suc r) d) rest)
      ∙ skip_old i 0 (suc r) (row i (seq (suc r) d) ++ rest) f (omega arith) (omega arith)
      ∙ row_cong i (seq (suc r) d) rest (rows (seq (i + 1) m) (seq (suc r) d))
          (λ g. skip_rows (i + 1) m g (omega arith)) f

  grown-before : table cr grown (kept cr.spec.shards r) ≡ before
  grown-before = table_cong cr grown (settled k cr) (kept cr.spec.shards r) (
      rows-All (λ p. grown p.0 p.1 ≡ settled k cr p.0 p.1) 0 cr.spec.shards 0 (suc r)
        (λ a b _ _ l. ground arith))

  -- the first loop of `reconcileMembership` meets the missing pods, shard by shard
  pub meet_all :
      0 < cr.spec.shards
      → r + d ≡ cr.spec.replicas_per_shard
      → for_each
          (all_endpoints cr)
          (meet_missing (in_memory k cr) cr (host_index (state before)))
          before
        ≡ (ok tt, table cr grown (kept cr.spec.shards r ++ extra cr.spec.shards r d))
  meet_all h e =
      let declared : suc r + d ≡ suc cr.spec.replicas_per_shard = omega arith in
      rw (all_endpoints_lem cr) (
        ap (λ (t : ℕ). meet_pods (rows (seq 0 cr.spec.shards) (seq 0 t)) before) (sym declared)
        ∙ skip_rows 0 cr.spec.shards before (omega arith)
        ∙ ap (meet_pods (extra cr.spec.shards r d)) (sym grown-before)
        ∙ meet_list (extra cr.spec.shards r d) (kept cr.spec.shards r)
            (kept-In cr.spec.shards r 0 0 h (omega arith)) (both-Distinct cr.spec.shards r d)
            (extra-All (λ p. r < p.1) cr.spec.shards r d (λ a b _ l _. l)))
