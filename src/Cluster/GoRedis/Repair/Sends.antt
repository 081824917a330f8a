-- ===== src/Cluster/GoRedis/Repair/Sends.antt =====
-- Which commands `RepairSlots` sends, what it counts, and what it brings about.
use valkeycluster_operator.Prelude.{
  ℕ, suc, ◌≡◌, refl, true, some, List, [], ◌∷◌, inl, inr, arith, Has, Bool-cases, Option-cases,
}
use valkeycluster_operator.Prelude.Int.{ℤ}
use valkeycluster_operator.Text.{Text, codes}
use valkeycluster_operator.Text.Decimal.{itoa}
use valkeycluster_operator.Exec.{ok, ignore, Result-cases, for_each}
use valkeycluster_operator.Exec.Keeps.{Keeps, for_each-Keeps}
use valkeycluster_operator.Cluster.{Endpoint, NodeInfo, is_primary}
use valkeycluster_operator.Cluster.Parse.{parse_nodes}
use valkeycluster_operator.Cluster.GoRedis.{Admin, dial}
use valkeycluster_operator.Cluster.GoRedis.Open.{
  is_reachable, sweep_options, collect_from, collect_open_slots,
}
use valkeycluster_operator.Cluster.GoRedis.Open.Sweep.{collect_from-Keeps}
use valkeycluster_operator.Cluster.GoRedis.Move.{client_for, set_slot}
use valkeycluster_operator.Cluster.GoRedis.Repair.{
  repair_owner, may_stray, keys_or_none, rescue, assert_owner, repair_slot, repair_from,
  repair_slots,
}

-- the commands of a repair of a slot whose owner is `owner`, at one node: stray keys go to the owner, and
-- at a master the markers of the slot are cleared and the owner is set
pub record RepairKeeps {W : Type 0} (P : W → Type 0) (a : Admin W) (owner : NodeInfo) (s : ℤ)
    (n : NodeInfo) : Type 0 where
  pub reading :
      may_stray owner n ≡ true → Keeps P (a.client.cluster_get_keys_in_slot (client_for n) s 1000)
  pub rescuing :
      may_stray owner n ≡ true
      → (k : Text) → Keeps P (a.client.migrate (client_for n) owner.ip (itoa owner.port) k 0 10)
  pub clearing :
      is_primary n ≡ true
      → Keeps P (a.client.do_command (client_for n) (set_slot s (codes "STABLE" ∷ [])))
  pub owning :
      is_primary n ≡ true
      → Keeps P (a.client.do_command (client_for n) (set_slot s (codes "NODE" ∷ owner.id ∷ [])))

module _ {W : Type 0} (P : W → Type 0) (a : Admin W) where
  module _ (owner : NodeInfo) (s : ℤ) (n : NodeInfo) (h : RepairKeeps P a owner s n) where
    rescue-Keeps : Keeps P (rescue a owner s n)
    unfolding rescue
    rescue-Keeps w p = elim (Bool-cases (may_stray owner n)) [
      | inr other ↦ ground arith
      | inl stray ↦
          let got = a.client.cluster_get_keys_in_slot (client_for n) s 1000 w in
          ground (
            arith,
            h.reading stray w p,
            for_each-Keeps {P = P}
                (λ k. ignore (a.client.migrate (client_for n) owner.ip (itoa owner.port) k 0 10))
                (keys_or_none got.0) (λ k _. h.rescuing stray k) got.1,
          )
    ]

    pub assert_owner-Keeps : Keeps P (assert_owner a owner s n)
    unfolding assert_owner
    assert_owner-Keeps w p = elim (Bool-cases (is_primary n)) [
      | inr other ↦ ground arith
      | inl master ↦
          let cleared = a.client.do_command (client_for n) (set_slot s (codes "STABLE" ∷ [])) w in
          ground (arith, h.clearing master w p, h.owning master cleared.1)
    ]

  pub repair_slot-Keeps :
      (nodes : List NodeInfo) (owner : NodeInfo) (s : ℤ)
      → ((n : NodeInfo) → Has (λ m. m ≡ n) nodes → RepairKeeps P a owner s n)
      → Keeps P (repair_slot a nodes owner s)
  unfolding repair_slot
  repair_slot-Keeps nodes owner s h w p = ground (
    arith,
    for_each-Keeps {P = P} (rescue a owner s) nodes (λ n i. rescue-Keeps owner s n (h n i)) w p,
    for_each-Keeps {P = P} (assert_owner a owner s) nodes
        (λ n i. assert_owner-Keeps owner s n (h n i)) (for_each nodes (rescue a owner s) w).1,
  )

  pub repair_from-Keeps :
      (nodes : List NodeInfo) (ss : List ℤ) (k : ℕ)
      → ((s : ℤ) (owner : NodeInfo)
          → Has (λ t. t ≡ s) ss
          → repair_owner nodes s ≡ some owner
          → (n : NodeInfo) → Has (λ m. m ≡ n) nodes
          → RepairKeeps P a owner s n)
      → Keeps P (repair_from a nodes ss k)
  unfolding repair_from
  repair_from-Keeps nodes [] k h w p = p
  repair_from-Keeps nodes (s ∷ ss) k h w p = elim (Option-cases (repair_owner nodes s)) [
    | inl unowned ↦ ground (arith, repair_from-Keeps nodes ss k (λ t o i. h t o (inr i)) w p)
    | inr (owner, found) ↦ ground (
      arith,
      repair_slot-Keeps nodes owner s (h s owner (inl refl) found) w p,
      repair_from-Keeps nodes ss (suc k) (λ t o i. h t o (inr i)) (repair_slot a nodes owner s w).1,
    )
  ]

  -- `RepairSlots` keeps every predicate on the world that is kept by reading the nodes, of the seed and of
  -- the nodes that the sweep asks, and by the commands of a repair, of a slot that the sweep found, for
  -- the owner that the nodes that were read give it: it sends nothing else, however commands end.
  pub repair_slots-Keeps :
      (seed : Endpoint) (w : W)
      → Keeps P (a.client.cluster_nodes (dial seed))
      → ((n : NodeInfo)
          → is_reachable n ≡ true
          → Keeps P (a.client.cluster_nodes (sweep_options n)))
      → ((raw : Text) (open_slots : List ℤ)
          → let read = a.client.cluster_nodes (dial seed) w in
            read.0 ≡ ok raw
            → (collect_open_slots a (parse_nodes raw) read.1).0 ≡ ok open_slots
            → (s : ℤ) (owner : NodeInfo) → Has (λ t. t ≡ s) open_slots
            → repair_owner (parse_nodes raw) s ≡ some owner
            → (n : NodeInfo) → Has (λ m. m ≡ n) (parse_nodes raw)
            → RepairKeeps P a owner s n)
      → P w
      → P (repair_slots a seed w).1
  unfolding repair_slots collect_open_slots
  repair_slots-Keeps seed w reads sweeps h p =
      let read = a.client.cluster_nodes (dial seed) w in
      elim (Result-cases read.0) [
        | inr (e, failed) ↦ ground (arith, reads w p)
        | inl (raw, got) ↦
            let swept = collect_from a (parse_nodes raw) [] read.1 in
            elim (Result-cases swept.0) [
              | inr (e, failed) ↦
                  ground
                    (arith, collect_from-Keeps a P (parse_nodes raw) [] sweeps read.1 (reads w p))
              | inl (found, ran) ↦ ground (
                arith,
                repair_from-Keeps (parse_nodes raw) found 0 (h raw found got ran) swept.1
                    (collect_from-Keeps a P (parse_nodes raw) [] sweeps read.1 (reads w p)),
              )
            ]
      ]
