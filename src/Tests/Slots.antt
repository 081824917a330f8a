-- ===== src/Tests/Slots.antt =====
-- The split of the slots.
use valkeycluster_operator.Prelude.{◌≡◌, arith, seq, length, All}
use valkeycluster_operator.Prelude.Int.{pos}
use valkeycluster_operator.Cluster.{total_slots}
use valkeycluster_operator.Slots.{distribute, target_counts}
use valkeycluster_operator.Slots.Partition.{slots_in, distribute-partition}
use valkeycluster_operator.Slots.Balance.{IsFair, target_counts_balanced}

distribute-partition_example : slots_in (distribute (pos 3)) ≡ seq 0 total_slots
distribute-partition_example = distribute-partition 3 (omega arith)

target_counts_balanced_example :
    (length (target_counts (pos 5)) ≡ 5) × All (IsFair 5) (target_counts (pos 5))
target_counts_balanced_example = target_counts_balanced 5 (omega arith)
