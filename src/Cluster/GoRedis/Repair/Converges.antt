-- ===== src/Cluster/GoRedis/Repair/Converges.antt =====
-- What `RepairSlots` counts, and that it leaves no marker.
use valkeycluster_operator.Prelude.{
  ℕ, suc, ◌+◌, ◌≡◌, refl, sym, subst, Bool, true, false, none, some, List, [], ◌∷◌, inl, inr, arith,
  Has, Option-cases,
}
use valkeycluster_operator.Prelude.Int.{ℤ, pos}
use valkeycluster_operator.Text.{Text, codes}
use valkeycluster_operator.Text.Decimal.{itoa}
use valkeycluster_operator.Exec.{ok, ignore, for_each}
use valkeycluster_operator.Exec.Keeps.{Keeps}
use valkeycluster_operator.Exec.Loops.{for_each_ok, for_each_establishes}
use valkeycluster_operator.Cluster.{Endpoint, NodeInfo, is_primary}
use valkeycluster_operator.Cluster.Parse.{parse_nodes}
use valkeycluster_operator.Cluster.GoRedis.{Options, Admin, dial}
use valkeycluster_operator.Cluster.GoRedis.Open.{collect_from, collect_open_slots}
use valkeycluster_operator.Cluster.GoRedis.Open.Sweep.{collect_from_ok}
use valkeycluster_operator.Cluster.GoRedis.Move.{client_for, set_slot}
use valkeycluster_operator.Cluster.GoRedis.Repair.{
  repair_owner, keys_or_none, rescue, assert_owner, repair_slot, repair_from, repair_slots,
}
use valkeycluster_operator.Cluster.GoRedis.Repair.Sends.{
  RepairKeeps, assert_owner-Keeps, repair_from-Keeps,
}

-- the open slots that have an owner with an IP
abbrev pub repairable : List NodeInfo → List ℤ → ℕ
repairable nodes [] = 0
repairable nodes (s ∷ ss) = elim (repair_owner nodes s) [
  | none ↦ repairable nodes ss
  | some _ ↦ suc (repairable nodes ss)
]

module _ {W : Type 0} (a : Admin W) where
  rescue_ok : (owner : NodeInfo) (s : ℤ) (n : NodeInfo) (w : W) → (rescue a owner s n w).0 ≡ ok tt
  unfolding rescue
  rescue_ok owner s n w =
      let got = a.client.cluster_get_keys_in_slot (client_for n) s 1000 w in
      ground (
        arith,
        for_each_ok
            (λ k. ignore (a.client.migrate (client_for n) owner.ip (itoa owner.port) k 0 10))
            (λ k v. refl) (keys_or_none got.0) got.1,
      )

  assert_owner_ok :
      (owner : NodeInfo) (s : ℤ) (n : NodeInfo) (w : W) → (assert_owner a owner s n w).0 ≡ ok tt
  unfolding assert_owner
  assert_owner_ok owner s n w = ground arith

  repair_slot_ok :
      (nodes : List NodeInfo) (owner : NodeInfo) (s : ℤ) (w : W)
      → (repair_slot a nodes owner s w).0 ≡ ok tt
  unfolding repair_slot
  repair_slot_ok nodes owner s w =
      let rescued = for_each nodes (rescue a owner s) w in
      ground (
        arith,
        for_each_ok (rescue a owner s) (rescue_ok owner s) nodes w,
        for_each_ok (assert_owner a owner s) (assert_owner_ok owner s) nodes rescued.1,
      )

  repair_from-repairable :
      (nodes : List NodeInfo) (ss : List ℤ) (k : ℕ) (w : W)
      → (repair_from a nodes ss k w).0 ≡ ok (pos (k + repairable nodes ss))
  unfolding repair_from
  repair_from-repairable nodes [] k w = ground arith
  repair_from-repairable nodes (s ∷ ss) k w = elim (Option-cases (repair_owner nodes s)) [
    | inl unowned ↦ ground (arith, repair_from-repairable nodes ss k w)
    | inr (owner, found) ↦ ground (
      arith,
      repair_slot_ok nodes owner s w,
      repair_from-repairable nodes ss (suc k) (repair_slot a nodes owner s w).1,
    )
  ]

  -- After CLUSTER NODES of the seed has answered, `RepairSlots` does not fail, whatever the commands that
  -- it sends return: it reports how many of the open slots that its sweep has found have an owner with
  -- an IP among the nodes that were read.
  pub repair_slots-repairable :
      (seed : Endpoint) (raw : Text) (w : W)
      → let read = a.client.cluster_nodes (dial seed) w in
        read.0 ≡ ok raw
        → (open_slots : List ℤ) × ((collect_open_slots a (parse_nodes raw) read.1).0
            ≡ ok open_slots)
          × ((repair_slots a seed w).0 ≡ ok (pos (repairable (parse_nodes raw) open_slots)))
  unfolding repair_slots collect_open_slots
  repair_slots-repairable seed raw w h =
      let nodes = parse_nodes raw in
      let read = a.client.cluster_nodes (dial seed) w in
      let (found, swept) = collect_from_ok a nodes [] read.1 in
      (
        found,
        swept,
        ground (arith, repair_from-repairable nodes found 0 (collect_from a nodes [] read.1).1),
      )

-- the markers of open slots at the nodes, as far as a repair goes: `SETSLOT STABLE` that succeeds clears
-- the marker of its slot, and no command of a repair sets one
pub record Markers {W : Type 0} (a : Admin W) (marked : W → Options → ℤ → Bool) : Type 0 where
  pub cleared :
      (o : Options) (s : ℤ) (w : W)
      → let sent = a.client.do_command o (set_slot s (codes "STABLE" ∷ [])) w in
        sent.0 ≡ ok tt → marked sent.1 o s ≡ false
  pub reading :
      (o p : Options) (s t : ℤ) (count : ℕ)
      → Keeps (λ w. marked w o s ≡ false) (a.client.cluster_get_keys_in_slot p t count)
  pub migrating :
      (o p : Options) (s : ℤ) (host port k : Text)
      → Keeps (λ w. marked w o s ≡ false) (a.client.migrate p host port k 0 10)
  pub clearing :
      (o p : Options) (s t : ℤ)
      → Keeps (λ w. marked w o s ≡ false) (a.client.do_command p (set_slot t (codes "STABLE" ∷ [])))
  pub owning :
      (o p : Options) (s t : ℤ) (id : Text)
      → Keeps
          (λ w. marked w o s ≡ false)
          (a.client.do_command p (set_slot t (codes "NODE" ∷ id ∷ [])))

module _ {W : Type 0} (a : Admin W) (marked : W → Options → ℤ → Bool)
    (laws : Markers a marked) where
  quiet :
      (o : Options) (s : ℤ) (owner : NodeInfo) (t : ℤ) (n : NodeInfo)
      → RepairKeeps (λ w. marked w o s ≡ false) a owner t n
  quiet o s owner t n = record {
    reading = λ _. laws.reading o (client_for n) s t 1000;
    rescuing = λ _ k. laws.migrating o (client_for n) s owner.ip (itoa owner.port) k;
    clearing = λ _. laws.clearing o (client_for n) s t;
    owning = λ _. laws.owning o (client_for n) s t owner.id;
  }

  module _ (nodes : List NodeInfo) (n : NodeInfo) (here : Has (λ m. m ≡ n) nodes)
      (master : is_primary n ≡ true) (s : ℤ)
      (answers : (w : W)
        → (a.client.do_command (client_for n) (set_slot s (codes "STABLE" ∷ [])) w).0 ≡ ok tt) where
    assert_owner-clears :
        (owner : NodeInfo) (w : W) → marked (assert_owner a owner s n w).1 (client_for n) s ≡ false
    unfolding assert_owner
    assert_owner-clears owner w =
        let sent = a.client.do_command (client_for n) (set_slot s (codes "STABLE" ∷ [])) w in
        let clean : marked sent.1 (client_for n) s ≡ false =
          laws.cleared (client_for n) s w (answers w) in
        rw master (laws.owning (client_for n) (client_for n) s s owner.id sent.1 clean)

    repair_slot-clears :
        (owner : NodeInfo) (w : W)
        → marked (repair_slot a nodes owner s w).1 (client_for n) s ≡ false
    unfolding repair_slot
    repair_slot-clears owner w =
        let rescued = for_each nodes (rescue a owner s) w in
        ground (
          arith,
          for_each_ok (rescue a owner s) (rescue_ok a owner s) nodes w,
          for_each_establishes (assert_owner a owner s) (assert_owner_ok a owner s)
              (λ v. marked v (client_for n) s ≡ false) n nodes here
              (λ m _.
                assert_owner-Keeps (λ v. marked v (client_for n) s ≡ false) a owner s m
                  (quiet (client_for n) s owner s m))
              (assert_owner-clears owner) rescued.1,
        )

    repair_from-clears_head :
        (ss : List ℤ) (k : ℕ) (w : W) (owner : NodeInfo)
        → repair_owner nodes s ≡ some owner
        → marked (repair_from a nodes (s ∷ ss) k w).1 (client_for n) s ≡ false
    unfolding repair_from
    repair_from-clears_head ss k w owner found =
        let repaired = repair_slot a nodes owner s w in
        ground (
          arith,
          repair_slot_ok a nodes owner s w,
          repair_slot-clears owner w,
          repair_from-Keeps (λ v. marked v (client_for n) s ≡ false) a nodes ss (suc k)
              (λ t o _ _ m _. quiet (client_for n) s o t m) repaired.1,
        )

    repair_from-clears :
        (ss : List ℤ) (k : ℕ) (w : W) (owner : NodeInfo)
        → Has (λ t. t ≡ s) ss
        → repair_owner nodes s ≡ some owner
        → marked (repair_from a nodes ss k w).1 (client_for n) s ≡ false
    unfolding repair_from
    repair_from-clears [] k w owner i found = elim i [ ]
    repair_from-clears (t ∷ ss) k w owner (inl same) found =
        subst (λ u. marked (repair_from a nodes (u ∷ ss) k w).1 (client_for n) s ≡ false) (sym same)
          (repair_from-clears_head ss k w owner found)
    repair_from-clears (t ∷ ss) k w owner (inr later) found =
        elim (Option-cases (repair_owner nodes t)) [
          | inl unowned ↦ ground (arith, repair_from-clears ss k w owner later found)
          | inr (other, has_owner) ↦ ground (
            arith,
            repair_slot_ok a nodes other t w,
            repair_from-clears ss (suc k) (repair_slot a nodes other t w).1 owner later found,
          )
        ]

  -- If `SETSLOT STABLE` clears a marker when it succeeds, and the other commands of a repair set none:
  -- when `RepairSlots` is done, no master among the nodes that it read holds a marker of a slot that
  -- its sweep found open, whose owner is among those nodes with an IP, and for which that master
  -- accepts `SETSLOT STABLE`.
  pub repair_slots-clears :
      (seed : Endpoint) (raw : Text) (open_slots : List ℤ) (w : W)
      → let read = a.client.cluster_nodes (dial seed) w in
        read.0 ≡ ok raw
        → (collect_open_slots a (parse_nodes raw) read.1).0 ≡ ok open_slots
        → (n owner : NodeInfo) (s : ℤ) → Has (λ m. m ≡ n) (parse_nodes raw)
        → is_primary n ≡ true
        → ((v : W)
            → (a.client.do_command (client_for n) (set_slot s (codes "STABLE" ∷ [])) v).0 ≡ ok tt)
        → Has (λ t. t ≡ s) open_slots
        → repair_owner (parse_nodes raw) s ≡ some owner
        → marked (repair_slots a seed w).1 (client_for n) s ≡ false
  unfolding repair_slots
  repair_slots-clears seed raw open_slots w h swept n owner s here master answers i found =
      let read = a.client.cluster_nodes (dial seed) w in
      ground (
        arith,
        repair_from-clears (parse_nodes raw) n here master s answers open_slots 0
            (collect_open_slots a (parse_nodes raw) read.1).1 owner i found,
      )
