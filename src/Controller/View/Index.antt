-- ===== src/Controller/View/Index.antt =====
-- What `byID` finds.
use valkeycluster_operator.Prelude.{
  arith, refl, ◌≡◌, ◌≢◌, none, ap, some, List, [], ◌∷◌, All, Has, ◌⊎◌, inl, inr, Bool-cases,
}
use valkeycluster_operator.Text.{Text, text_eq, text_eq_iff}
use valkeycluster_operator.Dict.{Dict, lookup, insert, lookup-insert}
use valkeycluster_operator.Cluster.{NodeInfo}
use valkeycluster_operator.Cluster.Fake.{Fake, state}
use valkeycluster_operator.Cluster.Fake.Sorted.{values, All-state, Has-state}
use valkeycluster_operator.Controller.View.{index_by, by_id, host_index}

lookup-index_by :
    (key : NodeInfo → Text) (k : Text) (v : NodeInfo) (ns : List NodeInfo) (m : Dict NodeInfo)
    → All (λ n. key n ≡ k → n ≡ v) ns
    → Has (λ n. key n ≡ k) ns ⊎ (lookup k m ≡ some v)
    → lookup k (index_by key ns m) ≡ some v
unfolding index_by
lookup-index_by key k v [] m h (inl i) = elim i [ ]
lookup-index_by key k v [] m h (inr e) = e
lookup-index_by key k v (n ∷ ns) m h found =
    lookup-index_by key k v ns (insert (key n) n m) h.1 (elim found [
      | inl (inr later) ↦ inl later
      | inl (inl here) ↦ inr (inserted here)
      | inr before ↦ elim (Bool-cases (text_eq (key n) k)) [
        | inl same ↦ inr (inserted ((text_eq_iff (key n) k).0 same))
        | inr other ↦ inr (rw (lookup-insert (key n) k n m, other) before)
      ]
    ])
  where
    inserted : key n ≡ k → lookup k (insert (key n) n m) ≡ some v
    inserted e = rw (lookup-insert (key n) k n m, (text_eq_iff (key n) k).1 e) (ap some (h.0 e))

lookup-index_by-none :
    (key : NodeInfo → Text) (k : Text) (ns : List NodeInfo) (m : Dict NodeInfo)
    → All (λ n. key n ≢ k) ns
    → lookup k m ≡ none
    → lookup k (index_by key ns m) ≡ none
unfolding index_by
lookup-index_by-none key k [] m h e = e
lookup-index_by-none key k (n ∷ ns) m h e =
    lookup-index_by-none key k ns (insert (key n) n m) h.1
      (ground (arith, lookup-insert (key n) k n m, text_eq_iff (key n) k, h.0))

-- a node of the in-memory cluster is found under its identity, or under its host, if no other node
-- has the same
module _ (k : Text) (v : NodeInfo) (f : Fake) where
  pub lookup-by_id :
      All (λ n. n.id ≡ k → n ≡ v) (values f)
      → Has (λ n. n.id ≡ k) (values f)
      → lookup k (by_id (state f)) ≡ some v
  unfolding by_id
  lookup-by_id same found =
      lookup-index_by (λ n. n.id) k v (state f).nodes [] (All-state (λ n. n.id ≡ k → n ≡ v) f same)
        (inl (Has-state (λ n. n.id ≡ k) f found))

  pub lookup-host_index :
      All (λ n. n.host ≡ k → n ≡ v) (values f)
      → Has (λ n. n.host ≡ k) (values f)
      → lookup k (host_index (state f)) ≡ some v
  unfolding host_index
  lookup-host_index same found =
      lookup-index_by (λ n. n.host) k v (state f).nodes []
        (All-state (λ n. n.host ≡ k → n ≡ v) f same) (inl (Has-state (λ n. n.host ≡ k) f found))

-- and nothing is found under a text that no node has
module _ (k : Text) (f : Fake) where
  empty : lookup {V = NodeInfo} k [] ≡ none
  unfolding lookup
  empty = refl

  pub lookup-by_id-none : All (λ n. n.id ≢ k) (values f) → lookup k (by_id (state f)) ≡ none
  unfolding by_id
  lookup-by_id-none h =
      lookup-index_by-none (λ n. n.id) k (state f).nodes [] (All-state (λ n. n.id ≢ k) f h) empty

  pub lookup-host_index-none :
      All (λ n. n.host ≢ k) (values f) → lookup k (host_index (state f)) ≡ none
  unfolding host_index
  lookup-host_index-none h =
      lookup-index_by-none (λ n. n.host) k (state f).nodes [] (All-state (λ n. n.host ≢ k) f h)
        empty
