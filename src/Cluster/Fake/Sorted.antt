-- ===== src/Cluster/Fake/Sorted.antt =====
-- The nodes that `State` lists are those of the map, in another order.
use valkeycluster_operator.Prelude.{
  ℕ, ◌+◌, ◌≡◌, refl, List, [], ◌∷◌, arith, All, Has, inl, inr, Bool-cases,
}
use valkeycluster_operator.Text.{text_lt}
use valkeycluster_operator.Cluster.{NodeInfo}
use valkeycluster_operator.Cluster.Fake.{Fake, insert_by_id, sorted_nodes, state}

-- the nodes, in the order of the map
abbrev pub values : Fake → List NodeInfo
values [] = []
values ((_, n) ∷ f) = n ∷ values f

-- a measure that adds up over the nodes does not see their order
module _ (sum : List NodeInfo → ℕ) (part : NodeInfo → ℕ)
    (adds : (n : NodeInfo) (ns : List NodeInfo) → sum (n ∷ ns) ≡ part n + sum ns) where
  sum-insert_by_id : (n : NodeInfo) (ns : List NodeInfo) → sum (insert_by_id n ns) ≡ sum (n ∷ ns)
  unfolding insert_by_id
  sum-insert_by_id n [] = refl
  sum-insert_by_id n (m ∷ ms) = elim (Bool-cases (text_lt m.id n.id)) [
    | inl less ↦ rw less (
        omega (
          arith,
          adds m (insert_by_id n ms),
          sum-insert_by_id n ms,
          adds n ms,
          adds n (m ∷ ms),
          adds m ms,
        ))
    | inr more ↦ rw more refl
  ]

  sum-sorted_nodes : (f : Fake) → sum (sorted_nodes f) ≡ sum (values f)
  unfolding sorted_nodes
  sum-sorted_nodes [] = refl
  sum-sorted_nodes ((k, n) ∷ f) = omega (
    arith,
    sum-insert_by_id n (sorted_nodes f),
    sum-sorted_nodes f,
    adds n (sorted_nodes f),
    adds n (values f),
  )

  pub sum-state : (f : Fake) → sum (state f).nodes ≡ sum (values f)
  unfolding state
  sum-state f = sum-sorted_nodes f

module _ (P : NodeInfo → Type 0) where
  All-insert_by_id :
      (n : NodeInfo) (ns : List NodeInfo) → P n → All P ns → All P (insert_by_id n ns)
  unfolding insert_by_id
  All-insert_by_id n [] p ps = (p, tt)
  All-insert_by_id n (m ∷ ms) p (q, ps) = ground (arith, All-insert_by_id n ms p ps)

  All-sorted_nodes : (f : Fake) → All P (values f) → All P (sorted_nodes f)
  unfolding sorted_nodes
  All-sorted_nodes [] h = tt
  All-sorted_nodes ((k, n) ∷ f) h = All-insert_by_id n (sorted_nodes f) h.0 (All-sorted_nodes f h.1)

  pub All-state : (f : Fake) → All P (values f) → All P (state f).nodes
  unfolding state
  All-state f h = All-sorted_nodes f h

  Has-insert_by_id :
      (n : NodeInfo) (ns : List NodeInfo) → Has P (n ∷ ns) → Has P (insert_by_id n ns)
  unfolding insert_by_id
  Has-insert_by_id n [] h = h
  Has-insert_by_id n (m ∷ ms) h = ground (arith, Has-insert_by_id n ms)

  Has-sorted_nodes : (f : Fake) → Has P (values f) → Has P (sorted_nodes f)
  unfolding sorted_nodes
  Has-sorted_nodes [] h = h
  Has-sorted_nodes ((k, n) ∷ f) (inl p) = Has-insert_by_id n (sorted_nodes f) (inl p)
  Has-sorted_nodes ((k, n) ∷ f) (inr later) =
      Has-insert_by_id n (sorted_nodes f) (inr (Has-sorted_nodes f later))

  pub Has-state : (f : Fake) → Has P (values f) → Has P (state f).nodes
  unfolding state
  Has-state f h = Has-sorted_nodes f h
