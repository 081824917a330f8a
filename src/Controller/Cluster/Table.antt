-- ===== src/Controller/Cluster/Table.antt =====
-- The in-memory cluster as a table of the pods of a cluster: for pod `j` of shard `i` a node at its
-- host.
use valkeycluster_operator.Prelude.{
  ℕ, ◌≡◌, ◌≢◌, refl, ◌&&◌, none, some, List, [], ◌∷◌, ◌++◌, arith, All, Has, ◌==◌, if◌then◌else◌,
}
use valkeycluster_operator.Prelude.Int.{pos}
use valkeycluster_operator.Text.{Text, text_eq_iff}
use valkeycluster_operator.Dict.{lookup, insert}
use valkeycluster_operator.Api.{ValkeyCluster}
use valkeycluster_operator.Resources.{pod_fqdn}
use valkeycluster_operator.Resources.Names.{pod_fqdn_injective}
use valkeycluster_operator.Cluster.{NodeInfo}
use valkeycluster_operator.Cluster.Fake.{Fake, modify, ensure}
use valkeycluster_operator.Controller.View.{endpoint}

-- a shard and an ordinal
abbrev pub Pod : Type 0
Pod = ℕ × ℕ

pub All-of : (P : Pod → Type 0) (ps : List Pod) → ((p : Pod) → P p) → All P ps
All-of P [] h = tt
All-of P (p ∷ ps) h = (h p, All-of P ps h)

abbrev pub In : ℕ → ℕ → List Pod → Type 0
In i j ps = Has (λ p. (p.0 ≡ i) × (p.1 ≡ j)) ps

abbrev pub Misses : ℕ → ℕ → List Pod → Type 0
Misses i j ps = All (λ p. (p.0 ≡ i) → p.1 ≢ j) ps

-- no pod stands twice
abbrev pub Distinct : List Pod → Type 0
Distinct [] = Unit
Distinct ((i, j) ∷ ps) = Misses i j ps × Distinct ps

abbrev pub Nodes : Type 0
Nodes = ℕ → ℕ → NodeInfo

-- `g` with the node of one pod changed
abbrev pub update : ℕ → ℕ → (NodeInfo → NodeInfo) → Nodes → Nodes
update a b h g i j = if i == a && j == b then h (g i j) else g i j

module _ (cr : ValkeyCluster) where
  abbrev pub host : ℕ → ℕ → Text
  host i j = pod_fqdn cr (pos i) j

  abbrev pub table : Nodes → List Pod → Fake
  table g [] = []
  table g ((i, j) ∷ ps) = (host i j, g i j) ∷ table g ps

  pub lookup-table :
      (g : Nodes) (i j : ℕ) (ps : List Pod)
      → In i j ps
      → lookup (host i j) (table g ps) ≡ some (g i j)
  unfolding lookup
  lookup-table g i j [] h = elim h [ ]
  lookup-table g i j ((a, b) ∷ ps) h = ground (
    arith,
    text_eq_iff (host a b) (host i j),
    pod_fqdn_injective cr a i b j,
    lookup-table g i j ps,
  )

  pub lookup-table-none :
      (g : Nodes) (i j : ℕ) (ps : List Pod) → Misses i j ps → lookup (host i j) (table g ps) ≡ none
  unfolding lookup
  lookup-table-none g i j [] h = refl
  lookup-table-none g i j ((a, b) ∷ ps) h = ground (
    arith,
    text_eq_iff (host a b) (host i j),
    pod_fqdn_injective cr a i b j,
    lookup-table-none g i j ps h.1,
  )

  pub table_cong :
      (g g' : Nodes) (ps : List Pod)
      → All (λ p. g p.0 p.1 ≡ g' p.0 p.1) ps
      → table g ps ≡ table g' ps
  table_cong g g' [] h = refl
  table_cong g g' ((i, j) ∷ ps) (e, es) = rw (e, table_cong g g' ps es) refl

  update_missed :
      (a b : ℕ) (h : NodeInfo → NodeInfo) (g : Nodes) (ps : List Pod)
      → Misses a b ps
      → table (update a b h g) ps ≡ table g ps
  update_missed a b h g [] m = refl
  update_missed a b h g ((i, j) ∷ ps) m = ground (arith, update_missed a b h g ps m.1)

  pub modify-table :
      (a b : ℕ) (h : NodeInfo → NodeInfo) (g : Nodes) (ps : List Pod)
      → Distinct ps
      → modify (host a b) h (table g ps) ≡ table (update a b h g) ps
  unfolding modify
  modify-table a b h g [] d = refl
  modify-table a b h g ((i, j) ∷ ps) d = ground (
    arith,
    text_eq_iff (host i j) (host a b),
    pod_fqdn_injective cr i a j b,
    update_missed a b h g ps,
    modify-table a b h g ps d.1,
  )

  pub insert-table :
      (g : Nodes) (i j : ℕ) (ps : List Pod)
      → Misses i j ps
      → insert (host i j) (g i j) (table g ps) ≡ table g (ps ++ (i, j) ∷ [])
  unfolding insert
  insert-table g i j [] m = refl
  insert-table g i j ((a, b) ∷ ps) m = ground (
    arith,
    text_eq_iff (host a b) (host i j),
    pod_fqdn_injective cr a i b j,
    insert-table g i j ps m.1,
  )

  pub ensure-table :
      (g : Nodes) (i j : ℕ) (ps : List Pod)
      → In i j ps
      → ensure (endpoint cr (pos i) j) (table g ps) ≡ (g i j, table g ps)
  unfolding ensure endpoint
  ensure-table g i j ps h = ground (arith, lookup-table g i j ps h)
