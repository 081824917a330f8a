-- ===== src/Controller/Cluster/Attach.antt =====
-- `attachReplicas` on a table of pods: those that do not follow their first pod yet come to do so.
use valkeycluster_operator.Prelude.{
  Bool-cases, All, List, [], leb, ltb, true, false, ◌&&◌, ◌==◌, inl, inr, ℕ, zero, suc, ◌+◌, ◌≤◌,
  ◌<◌, ◌≡◌, refl, ap, ◌∙◌, arith, seq, if◌then◌else◌,
}
use valkeycluster_operator.Prelude.Int.{pos, eqb_ℤ}
use valkeycluster_operator.Text.{Text}
use valkeycluster_operator.Dict.{Dict}
use valkeycluster_operator.Exec.{for_each, ok}
use valkeycluster_operator.Api.{ValkeyCluster}
use valkeycluster_operator.Cluster.{NodeInfo}
use valkeycluster_operator.Cluster.Fake.{Fake, my_id, slave_flags, replicate}
use valkeycluster_operator.Controller.{Kube}
use valkeycluster_operator.Controller.View.{endpoint}
use valkeycluster_operator.Controller.Membership.{
  is_owner, replicates, find_from, find_shard_primary, attach_one, attach_shard,
}
use valkeycluster_operator.Controller.Cluster.Form.{in_memory}
use valkeycluster_operator.Controller.Cluster.Table.{
  All-of, Distinct, Pod, In, Nodes, update, host, table, table_cong, modify-table, ensure-table,
}
use valkeycluster_operator.Controller.Cluster.Named.{host-is_empty, Named}

abbrev pub follow : Text → NodeInfo → NodeInfo
follow id n = record n { master_id = id; flags = slave_flags; slots = [] }

-- In the index `idx`, the first pod of every shard owns slots, and exactly the pods with an ordinal
-- below `lo` follow it.
pub record IsIndexed (cr : ValkeyCluster) (idx : Dict NodeInfo) (lo : ℕ) : Type 0 where
  pub owner : (i : ℕ) → i < cr.spec.shards → is_owner idx (host cr i 0) ≡ true
  pub following :
      (i j : ℕ)
      → i < cr.spec.shards
      → 0 < j
      → j ≤ cr.spec.replicas_per_shard
      → replicates idx (host cr i j) (host cr i 0) ≡ ltb j lo

-- `g` with one pod attached, if its ordinal is not below `lo`
abbrev joined : ValkeyCluster → ℕ → ℕ → ℕ → Nodes → Nodes
joined cr lo i j g a b =
    if (a == i && b == j) && leb lo b then follow (host cr a 0) (g a b) else g a b

module _ (k : Kube Fake) (cr : ValkeyCluster) (ps : List Pod) (dist : Distinct ps)
    (covers : (i j : ℕ) → i < cr.spec.shards → j ≤ cr.spec.replicas_per_shard → In i j ps)
    (idx : Dict NodeInfo) (lo : ℕ) (indexed : IsIndexed cr idx lo) where
  pub my_id_at :
      (g : Nodes) (i j : ℕ)
      → Named cr g
      → i < cr.spec.shards
      → j ≤ cr.spec.replicas_per_shard
      → my_id (endpoint cr (pos i) j) (table cr g ps) ≡ (host cr i j, table cr g ps)
  unfolding my_id
  my_id_at g i j named h l = rw (ensure-table cr g i j ps (covers i j h l), named i j) refl

  replicate_at :
      (g : Nodes) (i j : ℕ)
      → i < cr.spec.shards
      → j ≤ cr.spec.replicas_per_shard
      → replicate (endpoint cr (pos i) j) (host cr i 0) (table cr g ps)
        ≡ table cr (update i j (follow (host cr i 0)) g) ps
  unfolding replicate endpoint
  replicate_at g i j h l =
      rw (ensure-table cr g i j ps (covers i j h l))
        (modify-table cr i j (follow (host cr i 0)) g ps dist)

  attach_new :
      (i j : ℕ) (g : Nodes)
      → Named cr g
      → i < cr.spec.shards
      → 0 < j
      → lo ≤ j
      → j ≤ cr.spec.replicas_per_shard
      → attach_one (in_memory k cr) cr idx (pos i) (host cr i 0) (pos 0) j (table cr g ps)
        ≡ (ok tt, table cr (joined cr lo i j g) ps)
  unfolding attach_one
  attach_new i j g named h p n l =
      let other : eqb_ℤ (pos j) (pos 0) ≡ false = ground arith in
      let unseen : replicates idx (host cr i j) (host cr i 0) ≡ false =
        ground (arith, indexed.following i j h p l) in
      rw (other, my_id_at g i j named h l, unseen, replicate_at g i j h l)
        (ap (λ t. (ok tt, t))
          (table_cong cr (update i j (follow (host cr i 0)) g) (joined cr lo i j g) ps
            (All-of _ ps (λ q. ground arith))))

  attach_old :
      (i j : ℕ) (g : Nodes)
      → Named cr g
      → i < cr.spec.shards
      → 0 < j
      → j < lo
      → j ≤ cr.spec.replicas_per_shard
      → attach_one (in_memory k cr) cr idx (pos i) (host cr i 0) (pos 0) j (table cr g ps)
        ≡ (ok tt, table cr (joined cr lo i j g) ps)
  unfolding attach_one
  attach_old i j g named h p n l =
      let other : eqb_ℤ (pos j) (pos 0) ≡ false = ground arith in
      let seen : replicates idx (host cr i j) (host cr i 0) ≡ true =
        ground (arith, indexed.following i j h p l) in
      rw (other, my_id_at g i j named h l, seen)
        (ap (λ t. (ok tt, t))
          (table_cong cr g (joined cr lo i j g) ps (All-of _ ps (λ q. ground arith))))

  attach_pod :
      (i j : ℕ) (g : Nodes)
      → Named cr g
      → i < cr.spec.shards
      → 0 < j
      → j ≤ cr.spec.replicas_per_shard
      → attach_one (in_memory k cr) cr idx (pos i) (host cr i 0) (pos 0) j (table cr g ps)
        ≡ (ok tt, table cr (joined cr lo i j g) ps)
  attach_pod i j g named h p l = elim (Bool-cases (ltb j lo)) [
    | inl old ↦ attach_old i j g named h p (ground arith) l
    | inr new ↦ attach_new i j g named h p (ground arith) l
  ]

  joined-Named : (g : Nodes) (i j : ℕ) → Named cr g → Named cr (joined cr lo i j g)
  joined-Named g i j named a b = ground (arith, named a b)

  -- the nodes when `m` pods of shard `i`, from ordinal `j` on, have been attended to
  abbrev follow_row : Nodes → ℕ → ℕ → ℕ → Nodes
  follow_row g i j zero = g
  follow_row g i j (suc m) = follow_row (joined cr lo i j g) i (j + 1) m

  follow_row_at :
      (g : Nodes) (i j m a b : ℕ)
      → follow_row g i j m a b ≡ (
          if a == i && (leb j b && (ltb b (j + m) && leb lo b))
          then follow (host cr a 0) (g a b)
          else g a b)
  follow_row_at g i j zero a b = ground arith
  follow_row_at g i j (suc m) a b =
      ground (arith, follow_row_at (joined cr lo i j g) i (j + 1) m a b)

  follow_row-Named : (g : Nodes) (i j m : ℕ) → Named cr g → Named cr (follow_row g i j m)
  follow_row-Named g i j zero named = named
  follow_row-Named g i j (suc m) named =
      follow_row-Named (joined cr lo i j g) i (j + 1) m (joined-Named g i j named)

  attach_row :
      (i j m : ℕ) (g : Nodes)
      → Named cr g
      → i < cr.spec.shards
      → 0 < j
      → j + m ≡ suc cr.spec.replicas_per_shard
      → for_each
          (seq j m)
          (attach_one (in_memory k cr) cr idx (pos i) (host cr i 0) (pos 0))
          (table cr g ps)
        ≡ (ok tt, table cr (follow_row g i j m) ps)
  unfolding for_each
  attach_row i j zero g named h p e = refl
  attach_row i j (suc m) g named h p e = rw (attach_pod i j g named h p (omega arith)) (
      attach_row i (j + 1) m (joined cr lo i j g) (joined-Named g i j named) h (omega arith)
        (omega arith))

  -- the first pod of a shard is found as its primary
  find_first :
      (i : ℕ) (g : Nodes)
      → Named cr g
      → i < cr.spec.shards
      → find_shard_primary (in_memory k cr) cr (pos i) idx (table cr g ps)
        ≡ (ok (host cr i 0, pos 0), table cr g ps)
  unfolding find_shard_primary find_from
  find_first i g named h = ground (arith, my_id_at g i 0 named h (omega arith), indexed.owner i h)

  attach_shard_at :
      (i : ℕ) (g : Nodes)
      → Named cr g
      → i < cr.spec.shards
      → attach_shard (in_memory k cr) cr idx i (table cr g ps)
        ≡ (ok tt, table cr (follow_row g i 1 cr.spec.replicas_per_shard) ps)
  unfolding attach_shard for_each
  attach_shard_at i g named h =
      rw (find_first i g named h, host-is_empty cr i 0)
        (attach_row i 1 cr.spec.replicas_per_shard g named h (omega arith) (omega arith))

  -- the nodes when `m` shards, from shard `i` on, have been attended to
  abbrev pub follow_rows : Nodes → ℕ → ℕ → Nodes
  follow_rows g i zero = g
  follow_rows g i (suc m) = follow_rows (follow_row g i 1 cr.spec.replicas_per_shard) (i + 1) m

  pub follow_rows_at :
      (g : Nodes) (i m a b : ℕ)
      → b ≤ cr.spec.replicas_per_shard
      → follow_rows g i m a b ≡ (
          if leb i a && (ltb a (i + m) && (ltb 0 b && leb lo b))
          then follow (host cr a 0) (g a b)
          else g a b)
  follow_rows_at g i zero a b l = ground arith
  follow_rows_at g i (suc m) a b l = ground (
    arith,
    follow_rows_at (follow_row g i 1 cr.spec.replicas_per_shard) (i + 1) m a b l,
    follow_row_at g i 1 cr.spec.replicas_per_shard a b,
  )

  attach_rows :
      (i m : ℕ) (g : Nodes)
      → Named cr g
      → i + m ≡ cr.spec.shards
      → for_each (seq i m) (attach_shard (in_memory k cr) cr idx) (table cr g ps)
        ≡ (ok tt, table cr (follow_rows g i m) ps)
  unfolding for_each
  attach_rows i zero g named e = refl
  attach_rows i (suc m) g named e = rw (attach_shard_at i g named (omega arith)) (
      attach_rows (i + 1) m (follow_row g i 1 cr.spec.replicas_per_shard)
        (follow_row-Named g i 1 cr.spec.replicas_per_shard named) (omega arith))

  -- the loop over the declared shards leaves any nodes that agree with these on the pods
  pub attach_declared :
      (g g' : Nodes)
      → Named cr g
      → All (λ p. follow_rows g 0 cr.spec.shards p.0 p.1 ≡ g' p.0 p.1) ps
      → for_each (seq 0 cr.spec.shards) (attach_shard (in_memory k cr) cr idx) (table cr g ps)
        ≡ (ok tt, table cr g' ps)
  attach_declared g g' named same =
      attach_rows 0 cr.spec.shards g named (omega arith)
      ∙ ap (λ t. (ok tt, t)) (table_cong cr (follow_rows g 0 cr.spec.shards) g' ps same)
