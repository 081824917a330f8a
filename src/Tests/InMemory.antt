-- ===== src/Tests/InMemory.antt =====
-- The in-memory cluster.
use valkeycluster_operator.Prelude.{◌≡◌, refl, some, List, [], ◌∷◌, arith, if◌then◌else◌}
use valkeycluster_operator.Prelude.Int.{pos, ◌+ℤ◌, ◌-ℤ◌, ltb_ℤ}
use valkeycluster_operator.Text.{codes, text_eq}
use valkeycluster_operator.Dict.{lookup}
use valkeycluster_operator.Cluster.{NodeInfo, slot_count, count_slots}
use valkeycluster_operator.Cluster.Fake.{
  Fake, new_fake, new_node, assigned_slots, move_slots, state,
}
use valkeycluster_operator.Cluster.Fake.Slots.{count_at, move_slots_conserves}
use valkeycluster_operator.Cluster.Fake.Invariant.{IsValid}
use valkeycluster_operator.Cluster.Fake.Calls.{
  Call, meet_call, replicate_call, failover_call, move_slots_call, reshard_call, fix_call, run,
  run-IsValid,
}
use valkeycluster_operator.Exec.{ok}
use valkeycluster_operator.Controller.Cluster.{desired_of, form_cluster}
use valkeycluster_operator.Controller.View.{summarize}
use valkeycluster_operator.Topology.{decide, no_action}
use valkeycluster_operator.Controller.Cluster.Form.{in_memory}
use valkeycluster_operator.Controller.Cluster.Converges.{form_cluster-settles}
use valkeycluster_operator.Tests.World.{demo, test_kube, pod}

abbrev node_a : NodeInfo
node_a = record (new_node (pod (codes "a"))) { slots = record { start = pos 0; end = pos 9 } ∷ [] }

abbrev node_b : NodeInfo
node_b = new_node (pod (codes "b"))

abbrev two_nodes : Fake
two_nodes = (codes "a", node_a) ∷ (codes "b", node_b) ∷ []

move_slots_conserves_example :
    let (moved, f') = move_slots (codes "a") (codes "b") (pos 4) two_nodes in
    (moved ≡ (if ltb_ℤ (slot_count node_a) (pos 4) then slot_count node_a else pos 4))
    × (assigned_slots f' ≡ assigned_slots two_nodes)
    × (count_at (codes "a") f' ≡ some (slot_count node_a -ℤ moved))
    × (count_at (codes "b") f' ≡ some (slot_count node_b +ℤ moved))
unfolding slot_count count_slots ◌+ℤ◌ ◌-ℤ◌
move_slots_conserves_example =
    move_slots_conserves (codes "a") (codes "b") (pos 4) two_nodes node_a node_b (λ e. ground arith)
      (unfold lookup text_eq in refl) (unfold lookup text_eq in refl) (omega arith) (omega arith)
      (omega arith)

abbrev some_calls : List Call
some_calls =
    meet_call (pod (codes "a")) (pod (codes "b"))
    ∷ replicate_call (pod (codes "b")) (codes "a")
    ∷ failover_call (pod (codes "b"))
    ∷ move_slots_call (codes "b") (codes "a") 5
    ∷ reshard_call [] (codes "a") 0
    ∷ fix_call
    ∷ []

run-IsValid_example : IsValid (run some_calls new_fake)
run-IsValid_example = run-IsValid some_calls new_fake (tt, tt)

form_cluster-settles_example :
    let done = form_cluster (in_memory (test_kube []) demo) demo new_fake in
    (done.0 ≡ ok tt) × ((decide (desired_of demo) (summarize (state done.1))).kind ≡ no_action)
form_cluster-settles_example = form_cluster-settles (test_kube []) demo (omega arith) (omega arith)
