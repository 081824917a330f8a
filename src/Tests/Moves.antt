-- ===== src/Tests/Moves.antt =====
-- Moves over a small network.
use valkeycluster_operator.Prelude.{
  ℕ, zero, suc, ◌-◌, ◌≡◌, refl, ◌⊎◌, true, List, [], ◌∷◌, if◌then◌else◌, leb, ltb, length, arith,
  All, Has, some,
}
use valkeycluster_operator.Prelude.Int.{ℤ, pos, ◌+ℤ◌, ◌-ℤ◌}
use valkeycluster_operator.Text.{Text, codes, text_eq}
use valkeycluster_operator.Exec.{for_each, Error, ok, err}
use valkeycluster_operator.Cluster.{SlotRange, NodeInfo, is_primary, range_count}
use valkeycluster_operator.Cluster.Masters.{IsMaster}
use valkeycluster_operator.Cluster.Parse.{parse_nodes}
use valkeycluster_operator.Cluster.GoRedis.{Admin, dial}
use valkeycluster_operator.Cluster.GoRedis.Move.{
  emptied, pick_slots, client_for, find_node, empty_slot, move_slots, move_counted, move_between,
  pick_range, move_each, move_slot, clear_slot, assign_owner, master_clients,
}
use valkeycluster_operator.Cluster.GoRedis.Move.Pick.{take, all_slots, pick_slots-take}
use valkeycluster_operator.Cluster.GoRedis.Move.Count.{Shrinks, move_slots-reports, empty_slot_ends}
use valkeycluster_operator.Cluster.GoRedis.Move.Assigns.{Owners, move_slots-Given}
use valkeycluster_operator.Cluster.GoRedis.Move.Sends.{move_slots-Keeps}
use valkeycluster_operator.Tests.Network.{node_a, node_b, quiet_client, over, quiet, here, parsed}

abbrev two_ranges : List SlotRange
two_ranges = record { start = pos 5; end = pos 6 } ∷ record { start = pos 9; end = pos 11 } ∷ []

pick_slots-take_example :
    (pick_slots two_ranges 3 ≡ take 3 (all_slots two_ranges))
    × (length (pick_slots two_ranges 3)
        ≡ (if leb 3 (length (all_slots two_ranges)) then 3 else length (all_slots two_ranges)))
pick_slots-take_example = pick_slots-take two_ranges 3

one_moves : (move_slots quiet 3 here (codes "a") (codes "b") (pos 1) tt).0 ≡ ok (pos 1)
unfolding move_slots move_counted move_between find_node text_eq pick_slots pick_range move_each
    move_slot clear_slot assign_owner for_each master_clients is_primary range_count ◌+ℤ◌ ◌-ℤ◌
one_moves = rw parsed refl

move_slots-reports_example :
    (raw : Text) × (from : NodeInfo) × (to : NodeInfo) × ((quiet.client.cluster_nodes
        (dial here)
        tt).0
      ≡ ok raw)
    × (find_node (codes "a") (parse_nodes raw) ≡ some from)
    × (find_node (codes "b") (parse_nodes raw) ≡ some to)
    × (pos 1
        ≡ pos (if leb 1 (length (all_slots from.slots)) then 1 else length (all_slots from.slots)))
move_slots-reports_example =
    move_slots-reports quiet 3 here (codes "a") (codes "b") (pos 1) (pos 1) tt (λ h. ground arith)
      one_moves

-- the world is the number of keys in the slot, and every command sends one of them away
abbrev draining : Admin ℕ
draining = over (record quiet_client {
  cluster_get_keys_in_slot = λ _ _ _ w. (ok (keys w), w);
  do_command = λ _ _ w. (ok tt, w - 1);
})
  where
    keys : ℕ → List Text
    keys zero = []
    keys (suc n) = codes "k" ∷ []

draining-Shrinks : Shrinks draining node_a node_b (pos 5) (λ w. w)
draining-Shrinks k ks zero asked sent = ground arith
draining-Shrinks k ks (suc n) asked sent = ground arith

empty_slot_ends_example :
    ((e : Error) × ((empty_slot draining node_a node_b 4 (pos 5) 3).0 ≡ err e))
    ⊎ (((empty_slot draining node_a node_b 4 (pos 5) 3).0 ≡ ok emptied)
        × ((v : ℕ) × (draining.client.cluster_get_keys_in_slot (client_for node_a) (pos 5) 128 v
              ≡ (ok [], (empty_slot draining node_a node_b 4 (pos 5) 3).1))))
empty_slot_ends_example =
    empty_slot_ends draining node_a node_b (pos 5) (λ w. w) draining-Shrinks 4 3 (omega arith)

-- the world is the list of the commands that were sent
abbrev pub recording : Admin (List (List Text))
recording = over (record quiet_client { do_command = λ _ args w. (ok tt, args ∷ w) })

-- all commands are of more than three words
abbrev pub Long : List (List Text) → Type 0
Long = All (λ args. ltb 3 (length args) ≡ true)

move_slots-Keeps_example : Long (move_slots recording 3 here (codes "a") (codes "b") (pos 1) []).1
move_slots-Keeps_example =
    move_slots-Keeps Long recording 3 here (codes "a") (codes "b") (pos 1) [] (λ w p. p)
      (λ _ _ _ _ _ _. record {
        reading = λ _ _ _ w p. p;
        importing = λ _ _ w p. (refl, p);
        migrating = λ _ _ w p. (refl, p);
        sending = λ _ _ _ _ _ w p. (ground arith, p);
        owning = λ _ _ _ _ w p. (refl, p);
      })
      tt

-- the world is the owner that was named last
abbrev owner_after : List Text → Text → Text
owner_after (_ ∷ _ ∷ _ ∷ how ∷ id ∷ []) w = if text_eq how (codes "NODE") then id else w
owner_after _ w = w

abbrev naming : Admin Text
naming = over (record quiet_client { do_command = λ _ args w. (ok tt, owner_after args w) })

naming-Owners : Owners naming (λ w _ _. w)
unfolding text_eq
naming-Owners = record {
  assigned = λ o s id w h. refl;
  assigning = λ o p s t id w h. refl;
  reading = λ o p s t id count w h. h;
  importing = λ o p s t id source w h. h;
  migrating = λ o p s t id target w h. h;
  sending = λ o p s id to keys w h. h;
}

one_named : (move_slots naming 3 here (codes "a") (codes "b") (pos 1) []).0 ≡ ok (pos 1)
unfolding move_slots move_counted move_between find_node text_eq pick_slots pick_range move_each
    move_slot clear_slot assign_owner for_each master_clients is_primary range_count ◌+ℤ◌ ◌-ℤ◌
one_named = rw parsed refl

move_slots-Given_example :
    (raw : Text) × (from : NodeInfo) × (to : NodeInfo) × ((naming.client.cluster_nodes
        (dial here)
        []).0
      ≡ ok raw)
    × (find_node (codes "a") (parse_nodes raw) ≡ some from)
    × (find_node (codes "b") (parse_nodes raw) ≡ some to)
    × ((s : ℤ)
        → Has (λ t. t ≡ s) (take 1 (all_slots from.slots))
        → (n : NodeInfo) → Has (λ q. q ≡ n) (parse_nodes raw)
        → IsMaster n
        → (move_slots naming 3 here (codes "a") (codes "b") (pos 1) []).1 ≡ to.id)
move_slots-Given_example =
    move_slots-Given naming (λ w _ _. w) naming-Owners 3 here (codes "a") (codes "b") (pos 1)
      (pos 1) [] (λ h. ground arith) one_named
