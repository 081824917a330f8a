-- ===== src/Controller/Cluster/Extra.antt =====
-- The pods of a cluster whose shards have `r` replicas each, and the `d` pods per shard that are
-- missing.
use valkeycluster_operator.Prelude.{
  ℕ, zero, suc, ◌+◌, ◌≤◌, ◌<◌, ◌≡◌, ◌≢◌, List, [], ◌∷◌, ◌++◌, arith, seq, All, inl, inr, Bool-cases,
  leb, All-append,
}
use valkeycluster_operator.Controller.Cluster.Table.{Pod, In, Misses, Distinct}
use valkeycluster_operator.Controller.Cluster.Met.{In-append}
use valkeycluster_operator.Controller.Cluster.Pods.{
  rows, row-Misses_ordinal, rows-Distinct, rows-All, rows-In,
}

-- the pods of the first `n` shards with `r` replicas each, and the next `d` pods of each shard
abbrev pub kept : ℕ → ℕ → List Pod
kept n r = rows (seq 0 n) (seq 0 (suc r))

abbrev pub extra : ℕ → ℕ → ℕ → List Pod
extra n r d = rows (seq 0 n) (seq (suc r) d)

rows-Misses_ordinal : (a b i m j d : ℕ) → b < j → Misses a b (rows (seq i m) (seq j d))
rows-Misses_ordinal a b i zero j d h = tt
rows-Misses_ordinal a b i (suc m) j d h =
    row-Misses_ordinal a b i j d _ h (rows-Misses_ordinal a b (i + 1) m j d h)

Misses-append : (a b : ℕ) (ps qs : List Pod) → Misses a b ps → Misses a b qs → Misses a b (ps ++ qs)
Misses-append a b [] qs h m = m
Misses-append a b (p ∷ ps) qs h m = (h.0, Misses-append a b ps qs h.1 m)

Distinct-append :
    (ps qs : List Pod)
    → Distinct ps
    → Distinct qs
    → All (λ p. Misses p.0 p.1 qs) ps
    → Distinct (ps ++ qs)
Distinct-append [] qs d e h = e
Distinct-append ((a, b) ∷ ps) qs d e h =
    (Misses-append a b ps qs d.0 h.0, Distinct-append ps qs d.1 e h.1)

pub both-Distinct : (n r d : ℕ) → Distinct (kept n r ++ extra n r d)
both-Distinct n r d =
    Distinct-append (kept n r) (extra n r d) (rows-Distinct 0 n 0 (suc r))
      (rows-Distinct 0 n (suc r) d)
      (rows-All (λ p. Misses p.0 p.1 (extra n r d)) 0 n 0 (suc r)
        (λ a b _ _ l. rows-Misses_ordinal a b 0 n (suc r) d (omega (arith, l))))

pub kept-In : (n r i j : ℕ) → i < n → j ≤ r → In i j (kept n r)
kept-In n r i j h l =
    rows-In i j 0 n 0 (suc r) (omega arith) (omega arith) (omega arith) (omega arith)

-- a pod with a larger ordinal is missing
pub kept-Misses : (n r i j : ℕ) → r < j → Misses i j (kept n r)
kept-Misses n r i j h =
    rows-All (λ p. p.0 ≡ i → p.1 ≢ j) 0 n 0 (suc r) (λ a b _ _ l e f. omega arith)

In-right : (i j : ℕ) (ps qs : List Pod) → In i j qs → In i j (ps ++ qs)
In-right i j [] qs h = h
In-right i j (p ∷ ps) qs h = inr (In-right i j ps qs h)

pub both-In : (n r d i j : ℕ) → i < n → j ≤ r + d → In i j (kept n r ++ extra n r d)
both-In n r d i j h l = elim (Bool-cases (leb j r)) [
  | inl old ↦ In-append i j (kept n r) (extra n r d) (kept-In n r i j h (ground arith))
  | inr new ↦
      In-right i j (kept n r) (extra n r d)
        (rows-In i j 0 n (suc r) d (omega arith) (omega arith) (ground arith) (omega arith))
]

-- the missing pods have larger ordinals
pub extra-All :
    (P : Pod → Type 0) (n r d : ℕ)
    → ((a b : ℕ) → a < n → r < b → b ≤ r + d → P (a, b))
    → All P (extra n r d)
extra-All P n r d h =
    rows-All P 0 n (suc r) d
      (λ a b l g t. h a b (omega (arith, l)) (omega (arith, g)) (omega (arith, t)))

-- what holds of every ordinal up to `r + d` of every shard
pub both-All :
    (P : Pod → Type 0) (n r d : ℕ)
    → ((a b : ℕ) → a < n → b ≤ r + d → P (a, b))
    → All P (kept n r ++ extra n r d)
both-All P n r d h =
    All-append P (kept n r) (extra n r d)
      (rows-All P 0 n 0 (suc r) (λ a b l _ t. h a b (omega (arith, l)) (omega (arith, t))))
      (extra-All P n r d (λ a b l _ t. h a b l t))
