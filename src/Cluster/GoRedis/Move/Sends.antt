-- ===== src/Cluster/GoRedis/Move/Sends.antt =====
-- Which commands `MoveSlots` sends, as a predicate that they keep.
use valkeycluster_operator.Prelude.{
  ℕ, zero, suc, ◌≡◌, refl, Option, none, some, List, [], ◌∷◌, inl, inr, arith, Has,
}
use valkeycluster_operator.Prelude.Int.{ℤ, pos_part}
use valkeycluster_operator.Text.{Text, codes}
use valkeycluster_operator.Exec.{Result, ok, Result-cases}
use valkeycluster_operator.Exec.Keeps.{Keeps, for_each-Keeps}
use valkeycluster_operator.Cluster.{Endpoint, NodeInfo}
use valkeycluster_operator.Cluster.Parse.{parse_nodes}
use valkeycluster_operator.Cluster.GoRedis.{Options, Admin, dial}
use valkeycluster_operator.Cluster.GoRedis.Move.{
  Emptying, ended, client_for, find_node, pick_slots, set_slot, migrate_keys_args, master_clients,
  assign_owner, empty_slot, hand_over, clear_slot, move_slot, move_each, move_between, move_counted,
  move_slots,
}

-- the commands of a move of `slots` between two nodes: the keys of those slots are read from the source
-- and sent from there to the target, and the slots are marked at both and handed to the target at the
-- masters
pub record MoveKeeps {W : Type 0} (P : W → Type 0) (a : Admin W) (from to : NodeInfo)
    (masters : List Options) (slots : List ℤ) : Type 0 where
  pub reading :
      (s : ℤ)
      → Has (λ t. t ≡ s) slots
      → (count : ℕ) → Keeps P (a.client.cluster_get_keys_in_slot (client_for from) s count)
  pub importing :
      (s : ℤ)
      → Has (λ t. t ≡ s) slots
      → Keeps P
          (a.client.do_command (client_for to) (set_slot s (codes "IMPORTING" ∷ from.id ∷ [])))
  pub migrating :
      (s : ℤ)
      → Has (λ t. t ≡ s) slots
      → Keeps P
          (a.client.do_command (client_for from) (set_slot s (codes "MIGRATING" ∷ to.id ∷ [])))
  pub sending :
      (s : ℤ)
      → Has (λ t. t ≡ s) slots
      → (w : W) (keys : List Text)
      → (a.client.cluster_get_keys_in_slot (client_for from) s 128 w).0 ≡ ok keys
      → Keeps P (a.client.do_command (client_for from) (migrate_keys_args to keys))
  pub owning :
      (s : ℤ)
      → Has (λ t. t ≡ s) slots
      → (cl : Options) → Has (λ m. m ≡ cl) masters
      → Keeps P (a.client.do_command cl (set_slot s (codes "NODE" ∷ to.id ∷ [])))

module _ {W : Type 0} (P : W → Type 0) (a : Admin W) (from to : NodeInfo) (masters : List Options)
    (slots : List ℤ) (h : MoveKeeps P a from to masters slots) (s : ℤ)
    (chosen : Has (λ t. t ≡ s) slots) where
  empty_slot-Keeps : (fuel : ℕ) → Keeps P (empty_slot a from to fuel s)
  unfolding empty_slot
  empty_slot-Keeps zero w p = p
  empty_slot-Keeps (suc f) w p = elim (Result-cases asked.0) [
    | inr (e, failed) ↦ ground (arith, h.reading s chosen 128 w p)
    | inl ([], none_left) ↦ ground (arith, h.reading s chosen 128 w p)
    | inl (k ∷ ks, got) ↦ ground (
      arith,
      h.reading s chosen 128 w p,
      h.sending s chosen w (k ∷ ks) got asked.1,
      empty_slot-Keeps f
          (a.client.do_command (client_for from) (migrate_keys_args to (k ∷ ks)) asked.1).1,
    )
  ]
    where
      asked : Result (List Text) × W
      asked = a.client.cluster_get_keys_in_slot (client_for from) s 128 w

  ended-Keeps : (e : Emptying) → Keeps P (ended e)
  unfolding ended
  ended-Keeps e w p = ground arith

  hand_over-Keeps : (fuel : ℕ) → Keeps P (hand_over a fuel from to masters s)
  unfolding hand_over
  hand_over-Keeps fuel w p =
      let marked =
        a.client.do_command (client_for to) (set_slot s (codes "IMPORTING" ∷ from.id ∷ [])) w in
      let both =
        a.client.do_command (client_for from) (set_slot s (codes "MIGRATING" ∷ to.id ∷ []))
          marked.1 in
      elim (Result-cases (empty_slot a from to fuel s both.1).0) [
        | inr (e, failed) ↦ ground (
          arith,
          h.importing s chosen w p,
          h.migrating s chosen marked.1,
          empty_slot-Keeps fuel both.1,
        )
        | inl (end, done) ↦ ground (
          arith,
          h.importing s chosen w p,
          h.migrating s chosen marked.1,
          empty_slot-Keeps fuel both.1,
          ended-Keeps end (empty_slot a from to fuel s both.1).1,
        )
      ]

  assign_owner-Keeps : Keeps P (assign_owner a masters to.id s)
  unfolding assign_owner
  assign_owner-Keeps =
      for_each-Keeps (λ cl. a.client.do_command cl (set_slot s (codes "NODE" ∷ to.id ∷ []))) masters
        (h.owning s chosen)

  clear_slot-Keeps :
      (fuel : ℕ) (probe : List Text) → Keeps P (clear_slot a fuel from to masters s probe)
  unfolding clear_slot
  clear_slot-Keeps fuel [] w p = p
  clear_slot-Keeps fuel (k ∷ ks) w p = hand_over-Keeps fuel w p

  move_slot-Keeps : (fuel : ℕ) → Keeps P (move_slot a fuel from to masters s)
  unfolding move_slot
  move_slot-Keeps fuel w p =
      let probed = a.client.cluster_get_keys_in_slot (client_for from) s 1 w in
      elim (Result-cases probed.0) [
        | inr (e, failed) ↦ ground (arith, h.reading s chosen 1 w p)
        | inl (probe, got) ↦ ground (
          arith,
          h.reading s chosen 1 w p,
          clear_slot-Keeps fuel probe probed.1,
          assign_owner-Keeps (clear_slot a fuel from to masters s probe probed.1).1,
        )
      ]

module _ {W : Type 0} (P : W → Type 0) (a : Admin W) (fuel : ℕ) where
  pub move_each-Keeps :
      (from to : NodeInfo) (masters : List Options) (slots : List ℤ)
      → MoveKeeps P a from to masters slots
      → (ss : List ℤ) (k : ℕ) → ((s : ℤ) → Has (λ t. t ≡ s) ss → Has (λ t. t ≡ s) slots)
      → (w : W) → P w
      → P (move_each a fuel from to masters ss k w).1
  unfolding move_each
  move_each-Keeps from to masters slots h [] k sub w p = p
  move_each-Keeps from to masters slots h (s ∷ ss) k sub w p =
      let step = move_slot a fuel from to masters s w in
      ground (
        arith,
        move_slot-Keeps P a from to masters slots h s (sub s (inl refl)) fuel w p,
        move_each-Keeps from to masters slots h ss (suc k) (λ t i. sub t (inr i)) step.1,
      )

  between-Keeps :
      (nodes : List NodeInfo) (source target : Option NodeInfo) (n : ℕ)
      → ((from to : NodeInfo)
          → source ≡ some from
          → target ≡ some to
          → MoveKeeps P a from to (master_clients nodes) (pick_slots from.slots n))
      → (w : W) → P w
      → P (move_between a fuel nodes source target n w).1
  unfolding move_between
  between-Keeps nodes none target n h w p = p
  between-Keeps nodes (some from) none n h w p = p
  between-Keeps nodes (some from) (some to) n h w p =
      move_each-Keeps from to (master_clients nodes) (pick_slots from.slots n) (h from to refl refl)
        (pick_slots from.slots n) 0 (λ s i. i) w p

  -- `MoveSlots` keeps every predicate on the world that is kept by reading the nodes and by the commands
  -- of a move of the chosen slots, and of those only, between the source and the target that were read:
  -- it sends nothing else, however it ends.
  pub move_slots-Keeps :
      (seed : Endpoint) (from_id to_id : Text) (n : ℤ) (w : W)
      → Keeps P (a.client.cluster_nodes (dial seed))
      → ((raw : Text) (from to : NodeInfo)
          → (a.client.cluster_nodes (dial seed) w).0 ≡ ok raw
          → find_node from_id (parse_nodes raw) ≡ some from
          → find_node to_id (parse_nodes raw) ≡ some to
          → MoveKeeps P a from to
              (master_clients (parse_nodes raw))
              (pick_slots from.slots (pos_part n)))
      → P w
      → P (move_slots a fuel seed from_id to_id n w).1
  unfolding move_slots move_counted
  move_slots-Keeps seed from_id to_id n w reads h p =
      let read = a.client.cluster_nodes (dial seed) w in
      elim (Result-cases read.0) [
        | inr (e, failed) ↦ ground (arith, reads w p)
        | inl (raw, got) ↦ ground (
          arith,
          reads w p,
          between-Keeps (parse_nodes raw) (find_node from_id (parse_nodes raw))
              (find_node to_id (parse_nodes raw)) (pos_part n)
              (λ from to source target. h raw from to got source target) read.1,
        )
      ]
