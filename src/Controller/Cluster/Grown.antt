-- ===== src/Controller/Cluster/Grown.antt =====
-- What is counted when every shard has been given `d` replicas more.
use valkeycluster_operator.Prelude.{
  ℕ, zero, suc, ◌+◌, ◌≤◌, ◌<◌, ◌≡◌, refl, ap, ◌∙◌, ◌&&◌, List, [], ◌∷◌, ◌++◌, arith, seq, ltb, leb,
  if◌then◌else◌,
}
use valkeycluster_operator.Prelude.Int.{ℤ, pos, ◌+ℤ◌, int_laws}
use valkeycluster_operator.Text.{Text}
use valkeycluster_operator.Api.{ValkeyCluster}
use valkeycluster_operator.Cluster.{slot_count, count_slots, total_slots}
use valkeycluster_operator.Cluster.Fake.{Fake, assigned_slots}
use valkeycluster_operator.Cluster.Fake.Sorted.{values}
use valkeycluster_operator.Controller.{Kube}
use valkeycluster_operator.Controller.View.{replicas_of, count_owners}
use valkeycluster_operator.Controller.Cluster.Table.{Pod, host, table}
use valkeycluster_operator.Controller.Cluster.Pods.{row, rows}
use valkeycluster_operator.Controller.Cluster.Counts.{
  replicas_row, count_row, replicas_rows, count_rows,
}
use valkeycluster_operator.Controller.Cluster.Attached.{settled}
use valkeycluster_operator.Controller.Cluster.Extra.{kept, extra}

zero_left : (a : ℤ) → pos 0 +ℤ a ≡ a
zero_left a = omega int_laws

module _ (k : Kube Fake) (cr : ValkeyCluster) where
  abbrev at : List Pod → Fake
  at ps = table cr (settled k cr) ps

  replicas-append :
      (id : Text) (ps qs : List Pod)
      → replicas_of id (values (at (ps ++ qs)))
        ≡ replicas_of id (values (at ps)) + replicas_of id (values (at qs))
  unfolding replicas_of
  replicas-append id [] qs = omega arith
  replicas-append id (p ∷ ps) qs = ground (arith, replicas-append id ps qs)

  owners-append :
      (ps qs : List Pod)
      → count_owners (values (at (ps ++ qs)))
        ≡ count_owners (values (at ps)) + count_owners (values (at qs))
  unfolding count_owners
  owners-append [] qs = omega arith
  owners-append (p ∷ ps) qs = ground (arith, owners-append ps qs)

  assigned-append :
      (ps qs : List Pod)
      → assigned_slots (at qs) ≡ pos 0
      → assigned_slots (at (ps ++ qs)) ≡ assigned_slots (at ps)
  unfolding assigned_slots
  assigned-append [] qs e = e
  assigned-append ((i, j) ∷ ps) qs e =
      ap (◌+ℤ◌ (slot_count (settled k cr i j))) (assigned-append ps qs e)

  replicas_extra :
      (r a i m d : ℕ)
      → replicas_of (host cr a 0) (values (at (rows (seq i m) (seq (suc r) d))))
        ≡ (if leb i a && ltb a (i + m) then d else 0)
  unfolding replicas_of
  replicas_extra r a i zero d = ground arith
  replicas_extra r a i (suc m) d =
      let others = rows (seq (i + 1) m) (seq (suc r) d) in
      ground (arith, replicas_row k cr a i (suc r) d others, replicas_extra r a (i + 1) m d)

  owners_extra : (r i m d : ℕ) → count_owners (values (at (rows (seq i m) (seq (suc r) d)))) ≡ 0
  unfolding count_owners
  owners_extra r i zero d = refl
  owners_extra r i (suc m) d =
      count_row k cr i (suc r) d (rows (seq (i + 1) m) (seq (suc r) d)) (omega arith)
      ∙ owners_extra r (i + 1) m d

  -- a pod that is not the first owns no slots
  follower_count : (i j : ℕ) → 0 < j → slot_count (settled k cr i j) ≡ pos 0
  unfolding slot_count count_slots
  follower_count i j p = ground arith

  assigned_row :
      (i j d : ℕ) (ps : List Pod)
      → 0 < j
      → assigned_slots (at (row i (seq j d) ++ ps)) ≡ assigned_slots (at ps)
  unfolding assigned_slots
  assigned_row i j zero ps p = refl
  assigned_row i j (suc d) ps p = rw (follower_count i j p) (
      zero_left (assigned_slots (at (row i (seq (j + 1) d) ++ ps)))
      ∙ assigned_row i (j + 1) d ps (omega arith))

  assigned_extra : (r i m d : ℕ) → assigned_slots (at (rows (seq i m) (seq (suc r) d))) ≡ pos 0
  unfolding assigned_slots
  assigned_extra r i zero d = refl
  assigned_extra r i (suc m) d =
      assigned_row i (suc r) d (rows (seq (i + 1) m) (seq (suc r) d)) (omega arith)
      ∙ assigned_extra r (i + 1) m d

  module _ (r d : ℕ) where
    abbrev both : Fake
    both = at (kept cr.spec.shards r ++ extra cr.spec.shards r d)

    pub grown_replicas :
        (a : ℕ) → a < cr.spec.shards → replicas_of (host cr a 0) (values both) ≡ r + d
    grown_replicas a h = ground (
      arith,
      replicas-append (host cr a 0) (kept cr.spec.shards r) (extra cr.spec.shards r d),
      replicas_rows k cr r a 0 cr.spec.shards,
      replicas_extra r a 0 cr.spec.shards d,
    )

    pub grown_assigned : assigned_slots both ≡ assigned_slots (at (kept cr.spec.shards r))
    grown_assigned =
        assigned-append (kept cr.spec.shards r) (extra cr.spec.shards r d)
          (assigned_extra r 0 cr.spec.shards d)

    pub grown_owners :
        0 < cr.spec.shards
        → cr.spec.shards ≤ total_slots
        → count_owners (values both) ≡ cr.spec.shards
    grown_owners some_shard few =
        let parts = owners-append (kept cr.spec.shards r) (extra cr.spec.shards r d) in
        omega (
          arith,
          parts,
          count_rows k cr some_shard few r 0 cr.spec.shards,
          owners_extra r 0 cr.spec.shards d,
        )
