-- ===== src/Controller/Cluster/Counts.antt =====
-- What is counted on a cluster in which the first pod of every shard owns slots and the others follow
-- it.
use valkeycluster_operator.Prelude.{
  ℕ, zero, suc, ◌+◌, ◌≤◌, ◌<◌, ◌≡◌, refl, ap, true, false, ◌&&◌, List, [], ◌∷◌, ◌++◌, arith, seq,
  ltb, leb, ◌==◌, if◌then◌else◌, All,
}
use valkeycluster_operator.Text.{text_eq, text_eq_iff}
use valkeycluster_operator.Api.{ValkeyCluster}
use valkeycluster_operator.Resources.Names.{pod_fqdn_injective}
use valkeycluster_operator.Cluster.{is_primary, slot_count, total_slots}
use valkeycluster_operator.Cluster.Fake.{Fake, assigned_slots}
use valkeycluster_operator.Cluster.Fake.Sorted.{values}
use valkeycluster_operator.Controller.{Kube}
use valkeycluster_operator.Controller.View.{owns_slots, replicas_of, count_owners}
use valkeycluster_operator.Controller.Cluster.Table.{Pod, Nodes, host, table}
use valkeycluster_operator.Controller.Cluster.Pods.{row, rows, pods}
use valkeycluster_operator.Controller.Cluster.Named.{host-is_empty}
use valkeycluster_operator.Controller.Cluster.Attached.{led-owns_slots, settled}

module _ (cr : ValkeyCluster) where
  -- the slots that are assigned depend on the counts of the nodes alone
  pub assigned_slots-table :
      (g g' : Nodes) (ps : List Pod)
      → All (λ p. slot_count (g p.0 p.1) ≡ slot_count (g' p.0 p.1)) ps
      → assigned_slots (table cr g ps) ≡ assigned_slots (table cr g' ps)
  unfolding assigned_slots
  assigned_slots-table g g' [] h = refl
  assigned_slots-table g g' ((i, j) ∷ ps) (e, es) = rw (e, assigned_slots-table g g' ps es) refl

module _ (k : Kube Fake) (cr : ValkeyCluster) where
  follower : (i j : ℕ) → 0 < j → is_primary (settled k cr i j) ≡ false
  unfolding is_primary text_eq
  follower i j p = ground (arith, host-is_empty cr i 0)

  pub follower-owns_slots : (i j : ℕ) → 0 < j → owns_slots (settled k cr i j) ≡ false
  unfolding owns_slots
  follower-owns_slots i j p = rw (follower i j p) refl

  pub replicas_row :
      (a i j m : ℕ) (ps : List Pod)
      → 0 < j
      → replicas_of (host cr a 0) (values (table cr (settled k cr) (row i (seq j m) ++ ps)))
        ≡ (if i == a then m else 0)
          + replicas_of (host cr a 0) (values (table cr (settled k cr) ps))
  unfolding replicas_of
  replicas_row a i j zero ps p = ground arith
  replicas_row a i j (suc m) ps p = ground (
    arith,
    follower i j p,
    host-is_empty cr i 0,
    text_eq_iff (host cr i 0) (host cr a 0),
    pod_fqdn_injective cr i a 0 0,
    ap (λ (t : ℕ). host cr t 0),
    replicas_row a i (j + 1) m ps,
  )

  pub count_row :
      (i j m : ℕ) (ps : List Pod)
      → 0 < j
      → count_owners (values (table cr (settled k cr) (row i (seq j m) ++ ps)))
        ≡ count_owners (values (table cr (settled k cr) ps))
  unfolding count_owners
  count_row i j zero ps p = refl
  count_row i j (suc m) ps p = ground (arith, follower-owns_slots i j p, count_row i (j + 1) m ps)

  led-is_primary : (i : ℕ) → is_primary (settled k cr i 0) ≡ true
  unfolding is_primary text_eq
  led-is_primary i = refl

  -- with `r` other pods in each shard, the first pod of a shard has these for replicas, and no others
  pub replicas_rows :
      (r a i m : ℕ)
      → replicas_of
          (host cr a 0)
          (values (table cr (settled k cr) (rows (seq i m) (seq 0 (suc r)))))
        ≡ (if leb i a && ltb a (i + m) then r else 0)
  unfolding replicas_of
  replicas_rows r a i zero = ground arith
  replicas_rows r a i (suc m) =
      let others = rows (seq (i + 1) m) (seq 0 (suc r)) in
      ground (arith, led-is_primary i, replicas_row a i 1 r others, replicas_rows r a (i + 1) m)

  pub replicas_of-settled :
      (a : ℕ)
      → a < cr.spec.shards
      → replicas_of (host cr a 0) (values (table cr (settled k cr) (pods cr)))
        ≡ cr.spec.replicas_per_shard
  replicas_of-settled a h =
      ground (arith, replicas_rows cr.spec.replicas_per_shard a 0 cr.spec.shards)

  module _ (some_shard : 0 < cr.spec.shards) (few : cr.spec.shards ≤ total_slots) where
    pub count_rows :
        (r i m : ℕ)
        → count_owners (values (table cr (settled k cr) (rows (seq i m) (seq 0 (suc r))))) ≡ m
    unfolding count_owners
    count_rows r i zero = refl
    count_rows r i (suc m) =
        let others = rows (seq (i + 1) m) (seq 0 (suc r)) in
        ground (
          arith,
          led-owns_slots k cr some_shard few i,
          count_row i 1 r others,
          count_rows r (i + 1) m,
        )

    pub count_owners-settled :
        count_owners (values (table cr (settled k cr) (pods cr))) ≡ cr.spec.shards
    count_owners-settled = count_rows cr.spec.replicas_per_shard 0 cr.spec.shards
