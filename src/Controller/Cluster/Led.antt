-- ===== src/Controller/Cluster/Led.antt =====
-- The second loop of `formCluster` in memory: the first pod of every shard owns the shard's range.
use valkeycluster_operator.Prelude.{
  ℕ, zero, suc, ◌+◌, ◌<◌, ◌≡◌, refl, ap, sym, subst, ◌∙◌, ◌&&◌, [], ◌∷◌, ◌++◌, arith, ltb, leb,
  ◌==◌, if◌then◌else◌,
}
use valkeycluster_operator.Prelude.Int.{pos}
use valkeycluster_operator.Exec.{ok}
use valkeycluster_operator.Api.{ValkeyCluster}
use valkeycluster_operator.Slots.{shard_range, ranges_from, distribute}
use valkeycluster_operator.Slots.Partition.{distribute_pos}
use valkeycluster_operator.Cluster.{SlotRange, NodeInfo}
use valkeycluster_operator.Cluster.Fake.{Fake, ensure, make_primary, add_slots}
use valkeycluster_operator.Controller.{Kube}
use valkeycluster_operator.Controller.View.{endpoint, seed}
use valkeycluster_operator.Controller.Cluster.{assign_from}
use valkeycluster_operator.Controller.Cluster.Form.{in_memory}
use valkeycluster_operator.Controller.Cluster.Table.{
  Nodes, update, table, table_cong, modify-table, ensure-table,
}
use valkeycluster_operator.Controller.Cluster.Pods.{pods, pods-Distinct, pods-In, pods-All}
use valkeycluster_operator.Controller.Cluster.Met.{no_shard, fresh}

abbrev pub give : SlotRange → NodeInfo → NodeInfo
give range n = record (make_primary n) { slots = n.slots ++ range ∷ [] }

module _ (k : Kube Fake) (cr : ValkeyCluster) where
  abbrev pub range_of : ℕ → SlotRange
  range_of i = shard_range cr.spec.shards i

  -- the nodes after `m` rounds, from shard `i` on
  abbrev assigned : Nodes → ℕ → ℕ → Nodes
  assigned g i zero = g
  assigned g i (suc m) = assigned (update i 0 (give (range_of i)) g) (suc i) m

  assigned_at :
      (g : Nodes) (i m a b : ℕ)
      → assigned g i m a b
        ≡ (if b == 0 && (leb i a && ltb a (i + m)) then give (range_of a) (g a b) else g a b)
  assigned_at g i zero a b = ground arith
  assigned_at g i (suc m) a b =
      ground (arith, assigned_at (update i 0 (give (range_of i)) g) (suc i) m a b)

  add_slots-table :
      (i : ℕ) (range : SlotRange) (n : NodeInfo) (g : Nodes) (f : Fake)
      → ensure (endpoint cr (pos i) 0) f ≡ (n, table cr g (pods cr))
      → add_slots (endpoint cr (pos i) 0) (range ∷ []) f
        ≡ table cr (update i 0 (give range) g) (pods cr)
  unfolding add_slots endpoint
  add_slots-table i range n g f e =
      rw e (modify-table cr i 0 (give range) g (pods cr) (pods-Distinct cr))

  assign_rest :
      (i m : ℕ) (g : Nodes)
      → i + m ≡ cr.spec.shards
      → assign_from (in_memory k cr) cr i (ranges_from cr.spec.shards i m) (table cr g (pods cr))
        ≡ (ok tt, table cr (assigned g i m) (pods cr))
  unfolding assign_from ranges_from
  assign_rest i zero g e = refl
  assign_rest i (suc m) g e =
      let next : i + 1 ≡ suc i = omega arith in
      let here = ensure-table cr g i 0 (pods cr) (pods-In cr i 0 (omega arith) (omega arith)) in
      let g' = update i 0 (give (range_of i)) g in
      rw (add_slots-table i (range_of i) (g i 0) g (table cr g (pods cr)) here) (
        subst
          (λ (t : ℕ).
            assign_from (in_memory k cr) cr (suc i) (ranges_from cr.spec.shards t m)
              (table cr g' (pods cr))
            ≡ (ok tt, table cr (assigned g' (suc i) m) (pods cr)))
          (sym next) (assign_rest (suc i) m g' (omega arith)))

  -- the first pods own the ranges
  abbrev pub led : Nodes
  led i j = if j == 0 then give (range_of i) (fresh k cr i 0) else fresh k cr i j

  assigned-led :
      table cr (assigned (fresh k cr) 0 cr.spec.shards) (pods cr) ≡ table cr led (pods cr)
  assigned-led = table_cong cr (assigned (fresh k cr) 0 cr.spec.shards) led (pods cr) (
      pods-All (λ p. assigned (fresh k cr) 0 cr.spec.shards p.0 p.1 ≡ led p.0 p.1) cr
        (λ a b l m. ground (arith, assigned_at (fresh k cr) 0 cr.spec.shards a b)))

  led_from :
      (n : NodeInfo) (f : Fake) (s : ℕ)
      → 0 < s
      → s ≡ cr.spec.shards
      → ensure (seed cr) f ≡ (n, table cr (fresh k cr) (pods cr))
      → assign_from (in_memory k cr) cr 0 (ranges_from cr.spec.shards 0 s) f
        ≡ (ok tt, table cr (assigned (fresh k cr) 0 s) (pods cr))
  unfolding assign_from ranges_from seed
  led_from n f zero h e here = elim (no_shard h) [ ]
  led_from n f (suc s) h e here =
      rw (add_slots-table 0 (range_of 0) n (fresh k cr) f here)
        (assign_rest 1 s (update 0 0 (give (range_of 0)) (fresh k cr)) (omega arith))

  pub led_lem :
      (n : NodeInfo) (f : Fake)
      → 0 < cr.spec.shards
      → ensure (seed cr) f ≡ (n, table cr (fresh k cr) (pods cr))
      → assign_from (in_memory k cr) cr 0 (distribute (pos cr.spec.shards)) f
        ≡ (ok tt, table cr led (pods cr))
  led_lem n f h here =
      rw (distribute_pos cr.spec.shards h)
        (led_from n f cr.spec.shards h refl here ∙ ap (λ t. (ok tt, t)) assigned-led)
