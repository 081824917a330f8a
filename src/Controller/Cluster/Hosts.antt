-- ===== src/Controller/Cluster/Hosts.antt =====
-- The hosts of the declared pods, as `existingPodHosts` lists them.
use valkeycluster_operator.Prelude.{
  ℕ, zero, suc, ◌+◌, ◌≤◌, ◌<◌, ◌≡◌, refl, ap, ◌∙◌, true, false, List, [], ◌∷◌, ◌++◌, map, any,
  arith, seq, Has, inl, inr,
}
use valkeycluster_operator.Prelude.Int.{ℤ, pos, leb_ℤ}
use valkeycluster_operator.Text.{Text, text_eq, text_eq_iff}
use valkeycluster_operator.Api.{ValkeyCluster}
use valkeycluster_operator.Cluster.{NodeInfo}
use valkeycluster_operator.Controller.View.{ordinals}
use valkeycluster_operator.Controller.Membership.{hosts_of, is_stale}
use valkeycluster_operator.Controller.Cluster.Table.{Pod, In, host}
use valkeycluster_operator.Controller.Cluster.Pods.{row, rows, pods, pods-In}
use valkeycluster_operator.Controller.Cluster.Named.{host-is_empty}

any-text_eq : (t : Text) (ts : List Text) → Has (λ u. u ≡ t) ts → any (λ u. text_eq u t) ts ≡ true
any-text_eq t [] h = elim h [ ]
any-text_eq t (u ∷ us) h = ground (arith, text_eq_iff u t, any-text_eq t us)

excess_from : (n a m : ℕ) → a + m ≤ n → any (λ i. leb_ℤ (pos n) i) (map pos (seq a m)) ≡ false
excess_from n a zero h = refl
excess_from n a (suc m) h = ground (arith, excess_from n (a + 1) m)

-- the indexes of the declared shards
abbrev pub declared : ValkeyCluster → List ℤ
declared cr = map pos (seq 0 cr.spec.shards)

module _ (cr : ValkeyCluster) where
  abbrev pod_host : Pod → Text
  pod_host p = host cr p.0 p.1

  row_hosts :
      (i : ℕ) (js : List ℕ) (ps : List Pod)
      → map (host cr i) js ++ map pod_host ps ≡ map pod_host (row i js ++ ps)
  row_hosts i [] ps = refl
  row_hosts i (j ∷ js) ps = ap (◌∷◌ (host cr i j)) (row_hosts i js ps)

  hosts_of-pods : (is : List ℕ) → hosts_of cr (map pos is) ≡ map pod_host (rows is (ordinals cr))
  unfolding hosts_of
  hosts_of-pods [] = refl
  hosts_of-pods (i ∷ is) =
      ap (◌++◌ (map (host cr i) (ordinals cr))) (hosts_of-pods is)
      ∙ row_hosts i (ordinals cr) (rows is (ordinals cr))

  Has-hosts : (i j : ℕ) (ps : List Pod) → In i j ps → Has (λ u. u ≡ host cr i j) (map pod_host ps)
  Has-hosts i j [] h = elim h [ ]
  Has-hosts i j ((a, b) ∷ ps) (inl (e, f)) = inl (rw (e, f) refl)
  Has-hosts i j ((a, b) ∷ ps) (inr later) = inr (Has-hosts i j ps later)

  -- a pod of a declared shard is none that is to be forgotten
  pub not_stale :
      (i j : ℕ) (n : NodeInfo)
      → i < cr.spec.shards
      → j ≤ cr.spec.replicas_per_shard
      → n.host ≡ host cr i j
      → is_stale (hosts_of cr (declared cr)) n ≡ false
  unfolding is_stale
  not_stale i j n h l e =
      rw
        (
          e,
          hosts_of-pods (seq 0 cr.spec.shards),
          any-text_eq (host cr i j) _ (Has-hosts i j (pods cr) (pods-In cr i j h l)),
          host-is_empty cr i j,
        )
        refl

  pub excess_none : any (λ i. leb_ℤ (pos cr.spec.shards) i) (declared cr) ≡ false
  excess_none = excess_from cr.spec.shards 0 cr.spec.shards (omega arith)
