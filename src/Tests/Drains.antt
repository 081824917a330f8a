-- ===== src/Tests/Drains.antt =====
-- A drain of a small cluster in memory.
use valkeycluster_operator.Prelude.{◌≡◌, refl, some, [], ◌∷◌, arith}
use valkeycluster_operator.Prelude.Int.{pos, ◌+ℤ◌, ◌-ℤ◌}
use valkeycluster_operator.Text.{Text, codes, text_eq, is_empty}
use valkeycluster_operator.Dict.{lookup}
use valkeycluster_operator.Exec.{ok}
use valkeycluster_operator.Cluster.{NodeInfo, slot_count, count_slots, range_count, is_primary}
use valkeycluster_operator.Cluster.Fake.{Fake, my_id, ensure, new_node, assigned_slots}
use valkeycluster_operator.Cluster.Fake.Slots.{count_at}
use valkeycluster_operator.Controller.Cluster.Form.{in_memory}
use valkeycluster_operator.Resources.{pod_fqdn, pod_name, stateful_set_name, headless_service_name}
use valkeycluster_operator.Text.Decimal.{itoa, format_nat}
use valkeycluster_operator.Controller.Membership.{find_shard_primary, find_from, is_owner}
use valkeycluster_operator.Controller.View.{owns_slots, endpoint, slots_of}
use valkeycluster_operator.Controller.Scaling.{survivor_from, first_survivor_primary, drain_batch}
use valkeycluster_operator.Controller.Scaling.Drain.{batch, drain_batch-conserves}
use valkeycluster_operator.Tests.World.{demo, test_kube, pod}

abbrev departing_node : NodeInfo
departing_node = record (new_node (pod (codes "x"))) {
  slots = record { start = pos 0; end = pos 1999 } ∷ [];
}

abbrev surviving_id : Text
surviving_id = codes "demo-shard-0-0.demo-nodes.ns.svc"

abbrev surviving_node : NodeInfo
surviving_node = record (new_node (pod surviving_id)) {
  slots = record { start = pos 2000; end = pos 2009 } ∷ [];
}

abbrev two_shards : Fake
two_shards = (codes "x", departing_node) ∷ (surviving_id, surviving_node) ∷ []

first_host : pod_fqdn demo (pos 0) 0 ≡ surviving_id
unfolding pod_fqdn pod_name stateful_set_name headless_service_name itoa format_nat
first_host = refl

survivor_found :
    first_survivor_primary (in_memory (test_kube []) demo) demo two_shards (codes "x") two_shards
    ≡ (ok surviving_id, two_shards)
unfolding first_survivor_primary survivor_from find_shard_primary find_from is_owner lookup text_eq
    my_id ensure endpoint is_primary slot_count count_slots range_count ◌+ℤ◌ ◌-ℤ◌ is_empty
    owns_slots
survivor_found = rw first_host refl

drain_batch-conserves_example :
    let (r, f') =
      drain_batch (in_memory (test_kube []) demo) demo two_shards (codes "x") two_shards in
    (r ≡ ok tt)
    × (assigned_slots f' ≡ assigned_slots two_shards)
    × (count_at (codes "x") f'
        ≡ some (slot_count departing_node -ℤ batch (slot_count departing_node)))
    × (count_at surviving_id f'
        ≡ some (slot_count surviving_node +ℤ batch (slot_count departing_node)))
unfolding slots_of lookup text_eq is_empty slot_count count_slots range_count ◌+ℤ◌ ◌-ℤ◌
drain_batch-conserves_example =
    drain_batch-conserves (test_kube []) demo two_shards (codes "x") surviving_id two_shards
      two_shards departing_node surviving_node survivor_found refl (λ e. ground arith) refl refl
      refl (omega arith) (omega arith)
