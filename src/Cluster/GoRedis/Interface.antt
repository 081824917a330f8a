-- ===== src/Cluster/GoRedis/Interface.antt =====
-- internal/cluster/goredis.go: `Admin` as a `ClusterAdmin`. The fuel is that of the loop that empties a
-- slot.
use valkeycluster_operator.Prelude.{ℕ}
use valkeycluster_operator.Cluster.Admin.{ClusterAdmin}
use valkeycluster_operator.Cluster.GoRedis.{
  Admin, my_id, meet, add_slots, replicate, forget, failover, rebalance, reshard, fix,
}
use valkeycluster_operator.Cluster.GoRedis.Open.{state}
use valkeycluster_operator.Cluster.GoRedis.Move.{move_slots}
use valkeycluster_operator.Cluster.GoRedis.Repair.{repair_slots}

abbrev pub go_redis : {W : Type 0} → Admin W → ℕ → ClusterAdmin W
go_redis a fuel = record {
  state = state a;
  my_id = my_id a;
  meet = meet a;
  add_slots = add_slots a;
  replicate = replicate a;
  forget = forget a;
  failover = failover a;
  rebalance = rebalance a;
  reshard = reshard a;
  move_slots = move_slots a fuel;
  fix = fix a;
  repair_slots = repair_slots a;
}
