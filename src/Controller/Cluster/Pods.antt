-- ===== src/Controller/Cluster/Pods.antt =====
-- The pods of the declared shards.
use valkeycluster_operator.Prelude.{
  ℕ, zero, suc, ◌+◌, ◌≤◌, ◌<◌, ◌≡◌, ◌≢◌, refl, ap, ◌∙◌, List, [], ◌∷◌, ◌++◌, map, arith, All, inl,
  inr, seq, subst, sym, ◌==◌, Bool-cases,
}
use valkeycluster_operator.Prelude.Int.{pos}
use valkeycluster_operator.Api.{ValkeyCluster}
use valkeycluster_operator.Cluster.{Endpoint}
use valkeycluster_operator.Controller.View.{endpoint, ordinals, endpoints_from, all_endpoints}
use valkeycluster_operator.Controller.Cluster.Table.{Pod, In, Misses, Distinct}

abbrev pub row : ℕ → List ℕ → List Pod
row i [] = []
row i (j ∷ js) = (i, j) ∷ row i js

abbrev pub rows : List ℕ → List ℕ → List Pod
rows [] js = []
rows (i ∷ is) js = row i js ++ rows is js

abbrev pub pods : ValkeyCluster → List Pod
pods cr = rows (seq 0 cr.spec.shards) (ordinals cr)

module _ (cr : ValkeyCluster) where
  abbrev pub pod_endpoint : Pod → Endpoint
  pod_endpoint p = endpoint cr (pos p.0) p.1

  row_endpoints :
      (i : ℕ) (js : List ℕ) (ps : List Pod)
      → map (endpoint cr (pos i)) js ++ map pod_endpoint ps ≡ map pod_endpoint (row i js ++ ps)
  row_endpoints i [] ps = refl
  row_endpoints i (j ∷ js) ps = ap (◌∷◌ (endpoint cr (pos i) j)) (row_endpoints i js ps)

  rows_endpoints : (is : List ℕ) → endpoints_from cr is ≡ map pod_endpoint (rows is (ordinals cr))
  unfolding endpoints_from
  rows_endpoints [] = refl
  rows_endpoints (i ∷ is) =
      ap (◌++◌ (map (endpoint cr (pos i)) (ordinals cr))) (rows_endpoints is)
      ∙ row_endpoints i (ordinals cr) (rows is (ordinals cr))

  pub all_endpoints_lem : all_endpoints cr ≡ map pod_endpoint (pods cr)
  unfolding all_endpoints
  all_endpoints_lem = rows_endpoints (seq 0 cr.spec.shards)

pub row-Misses_shard :
    (a b i : ℕ) (js : List ℕ) (ps : List Pod) → i ≢ a → Misses a b ps → Misses a b (row i js ++ ps)
row-Misses_shard a b i [] ps h m = m
row-Misses_shard a b i (j ∷ js) ps h m = (λ e _. h e, row-Misses_shard a b i js ps h m)

pub row-Misses_ordinal :
    (a b i j k : ℕ) (ps : List Pod) → b < j → Misses a b ps → Misses a b (row i (seq j k) ++ ps)
row-Misses_ordinal a b i j zero ps h m = m
row-Misses_ordinal a b i j (suc k) ps h m =
    (λ _ e. omega arith, row-Misses_ordinal a b i (j + 1) k ps (omega arith) m)

pub rows-Misses : (a b i k : ℕ) (js : List ℕ) → a < i → Misses a b (rows (seq i k) js)
rows-Misses a b i zero js h = tt
rows-Misses a b i (suc k) js h =
    row-Misses_shard a b i js _ (λ e. omega arith) (rows-Misses a b (i + 1) k js (omega arith))

pub row-Distinct :
    (i j k : ℕ) (ps : List Pod)
    → ((b : ℕ) → Misses i b ps)
    → Distinct ps
    → Distinct (row i (seq j k) ++ ps)
row-Distinct i j zero ps m d = d
row-Distinct i j (suc k) ps m d =
    (row-Misses_ordinal i j i (j + 1) k ps (omega arith) (m j), row-Distinct i (j + 1) k ps m d)

pub rows-Distinct : (i k j m : ℕ) → Distinct (rows (seq i k) (seq j m))
rows-Distinct i zero j m = tt
rows-Distinct i (suc k) j m =
    row-Distinct i j m _ (λ b. rows-Misses i b (i + 1) k (seq j m) (omega arith))
      (rows-Distinct (i + 1) k j m)

pub pods-Distinct : (cr : ValkeyCluster) → Distinct (pods cr)
pods-Distinct cr = rows-Distinct 0 cr.spec.shards 0 (suc cr.spec.replicas_per_shard)

pub row-In_here : (i b j k : ℕ) (ps : List Pod) → j ≤ b → b < j + k → In i b (row i (seq j k) ++ ps)
row-In_here i b j zero ps l h = ground arith
row-In_here i b j (suc k) ps l h = ground (arith, row-In_here i b (j + 1) k ps)

pub row-In_later : (a b i : ℕ) (js : List ℕ) (ps : List Pod) → In a b ps → In a b (row i js ++ ps)
row-In_later a b i [] ps h = h
row-In_later a b i (j ∷ js) ps h = inr (row-In_later a b i js ps h)

pub rows-In :
    (a b i k j m : ℕ) → i ≤ a → a < i + k → j ≤ b → b < j + m → In a b (rows (seq i k) (seq j m))
rows-In a b i zero j m l h c t = ground arith
rows-In a b i (suc k) j m l h c t = elim (Bool-cases (i == a)) [
  | inl same ↦
      let e : i ≡ a = ground arith in
      subst (λ (s : ℕ). In a b (row s (seq j m) ++ rows (seq (i + 1) k) (seq j m))) (sym e)
        (row-In_here a b j m _ c t)
  | inr other ↦
      row-In_later a b i (seq j m) _ (rows-In a b (i + 1) k j m (ground arith) (omega arith) c t)
]

pub pods-In :
    (cr : ValkeyCluster) (i j : ℕ)
    → i < cr.spec.shards
    → j ≤ cr.spec.replicas_per_shard
    → In i j (pods cr)
pods-In cr i j h l =
    rows-In i j 0 cr.spec.shards 0 (suc cr.spec.replicas_per_shard) (omega arith) (omega arith)
      (omega arith) (omega arith)

row-All :
    (P : Pod → Type 0) (i j k : ℕ) (ps : List Pod)
    → ((b : ℕ) → j ≤ b → b < j + k → P (i, b))
    → All P ps
    → All P (row i (seq j k) ++ ps)
row-All P i j zero ps h a = a
row-All P i j (suc k) ps h a = (
  h j (omega arith) (omega arith),
  row-All P i (j + 1) k ps (λ b g l. h b (omega (arith, g)) (omega (arith, l))) a,
)

pub rows-All :
    (P : Pod → Type 0) (i k j m : ℕ)
    → ((a b : ℕ) → a < i + k → j ≤ b → b < j + m → P (a, b))
    → All P (rows (seq i k) (seq j m))
rows-All P i zero j m h = tt
rows-All P i (suc k) j m h =
    row-All P i j m _ (λ b g l. h i b (omega arith) g l)
      (rows-All P (i + 1) k j m (λ a b l g t. h a b (omega (arith, l)) g t))

-- what holds of every ordinal of every shard holds of all pods
pub pods-All :
    (P : Pod → Type 0) (cr : ValkeyCluster)
    → ((a b : ℕ) → a < cr.spec.shards → b ≤ cr.spec.replicas_per_shard → P (a, b))
    → All P (pods cr)
pods-All P cr h =
    rows-All P 0 cr.spec.shards 0 (suc cr.spec.replicas_per_shard)
      (λ a b l _ m. h a b (omega (arith, l)) (omega (arith, m)))
