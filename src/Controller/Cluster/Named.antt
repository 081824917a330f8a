-- ===== src/Controller/Cluster/Named.antt =====
-- Tables in which every node has its host for its identity.
use valkeycluster_operator.Prelude.{
  ℕ, ◌≤◌, ◌<◌, ◌≡◌, ◌≢◌, none, refl, sym, ◌∙◌, false, some, List, [], ◌∷◌, ◌++◌, All, Has, inl, inr,
}
use valkeycluster_operator.Text.{Text, is_empty}
use valkeycluster_operator.Dict.{lookup}
use valkeycluster_operator.Api.{ValkeyCluster}
use valkeycluster_operator.Resources.{pod_fqdn}
use valkeycluster_operator.Resources.Names.{pod_fqdn_injective}
use valkeycluster_operator.Cluster.{NodeInfo}
use valkeycluster_operator.Cluster.Fake.{state}
use valkeycluster_operator.Cluster.Fake.Sorted.{values}
use valkeycluster_operator.Controller.View.{by_id, host_index}
use valkeycluster_operator.Controller.View.Index.{
  lookup-by_id, lookup-by_id-none, lookup-host_index, lookup-host_index-none,
}
use valkeycluster_operator.Controller.Cluster.Table.{All-of, Misses, Pod, In, Nodes, host, table}
use valkeycluster_operator.Controller.Cluster.Pods.{pods, pods-In}

middle-is_empty : (t : Text) (c : ℕ) (u : Text) → is_empty (t ++ c ∷ u) ≡ false
unfolding is_empty
middle-is_empty [] c u = refl
middle-is_empty (b ∷ t) c u = refl

module _ (cr : ValkeyCluster) where
  pub host-is_empty : (i j : ℕ) → is_empty (host cr i j) ≡ false
  unfolding pod_fqdn
  host-is_empty i j = middle-is_empty _ _ _

  pub All-values :
      (P : NodeInfo → Type 0) (g : Nodes) (ps : List Pod)
      → All (λ p. P (g p.0 p.1)) ps
      → All P (values (table cr g ps))
  All-values P g [] h = tt
  All-values P g ((i, j) ∷ ps) h = (h.0, All-values P g ps h.1)

  Has-values :
      (P : NodeInfo → Type 0) (g : Nodes) (i j : ℕ) (ps : List Pod)
      → In i j ps
      → P (g i j)
      → Has P (values (table cr g ps))
  Has-values P g i j [] h p = elim h [ ]
  Has-values P g i j ((a, b) ∷ ps) (inl (e, f)) p = inl (rw (e, f) p)
  Has-values P g i j ((a, b) ∷ ps) (inr later) p = inr (Has-values P g i j ps later p)

  -- each node has its host for its identity
  abbrev pub Named : Nodes → Type 0
  Named g = (i j : ℕ) → (g i j).id ≡ host cr i j

  -- what a node is found under, if it is its host
  module _ (key : NodeInfo → Text) (g : Nodes) (keyed : (i j : ℕ) → key (g i j) ≡ host cr i j)
      (ps : List Pod) (i j : ℕ) where
    same_node : All (λ n. key n ≡ host cr i j → n ≡ g i j) (values (table cr g ps))
    same_node =
        All-values (λ n. key n ≡ host cr i j → n ≡ g i j) g ps
          (All-of (λ p. key (g p.0 p.1) ≡ host cr i j → g p.0 p.1 ≡ g i j) ps
            (λ p e.
              let (s, o) = pod_fqdn_injective cr p.0 i p.1 j (sym (keyed p.0 p.1) ∙ e) in
              rw (s, o) refl))

    other_nodes : Misses i j ps → All (λ n. key n ≢ host cr i j) (values (table cr g ps))
    other_nodes m = All-values (λ n. key n ≢ host cr i j) g ps (Misses-All ps m)
      where
        Misses-All : (qs : List Pod) → Misses i j qs → All (λ p. key (g p.0 p.1) ≢ host cr i j) qs
        Misses-All [] h = tt
        Misses-All ((a, b) ∷ qs) h = (
          (λ e. let (s, o) = pod_fqdn_injective cr a i b j (sym (keyed a b) ∙ e) in h.0 s o),
          Misses-All qs h.1,
        )

    node_present : In i j ps → Has (λ n. key n ≡ host cr i j) (values (table cr g ps))
    node_present h = Has-values (λ n. key n ≡ host cr i j) g i j ps h (keyed i j)

  module _ (g : Nodes) (ps : List Pod) (i j : ℕ) where
    pub index_present :
        Named g → In i j ps → lookup (host cr i j) (by_id (state (table cr g ps))) ≡ some (g i j)
    index_present named h =
        lookup-by_id (host cr i j) (g i j) (table cr g ps) (same_node (λ n. n.id) g named ps i j)
          (node_present (λ n. n.id) g named ps i j h)

    pub index_absent :
        Named g → Misses i j ps → lookup (host cr i j) (by_id (state (table cr g ps))) ≡ none
    index_absent named m =
        lookup-by_id-none (host cr i j) (table cr g ps) (other_nodes (λ n. n.id) g named ps i j m)

    pub host_index_present :
        ((a b : ℕ) → (g a b).host ≡ host cr a b)
        → In i j ps
        → lookup (host cr i j) (host_index (state (table cr g ps))) ≡ some (g i j)
    host_index_present placed h =
        lookup-host_index (host cr i j) (g i j) (table cr g ps)
          (same_node (λ n. n.host) g placed ps i j) (node_present (λ n. n.host) g placed ps i j h)

    pub host_index_absent :
        ((a b : ℕ) → (g a b).host ≡ host cr a b)
        → Misses i j ps
        → lookup (host cr i j) (host_index (state (table cr g ps))) ≡ none
    host_index_absent placed m =
        lookup-host_index-none (host cr i j) (table cr g ps)
          (other_nodes (λ n. n.host) g placed ps i j m)

  pub index_at :
      (g : Nodes) (i j : ℕ)
      → Named g
      → i < cr.spec.shards
      → j ≤ cr.spec.replicas_per_shard
      → lookup (host cr i j) (by_id (state (table cr g (pods cr)))) ≡ some (g i j)
  index_at g i j named h l = index_present g (pods cr) i j named (pods-In cr i j h l)

  pub host_index_at :
      (g : Nodes) (i j : ℕ)
      → ((a b : ℕ) → (g a b).host ≡ host cr a b)
      → i < cr.spec.shards
      → j ≤ cr.spec.replicas_per_shard
      → lookup (host cr i j) (host_index (state (table cr g (pods cr)))) ≡ some (g i j)
  host_index_at g i j placed h l = host_index_present g (pods cr) i j placed (pods-In cr i j h l)
