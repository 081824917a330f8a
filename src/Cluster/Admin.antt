-- ===== src/Cluster/Admin.antt =====
-- internal/cluster/admin.go: `ClusterAdmin`, the interface between the reconciler and a cluster,
-- over a world `W`. `MoveSlots` returns a count beside its error; callers put that count in a
-- message only, so it stands in the error here.
use valkeycluster_operator.Prelude.{⊤, List}
use valkeycluster_operator.Prelude.Int.{ℤ}
use valkeycluster_operator.Text.{Text}
use valkeycluster_operator.Exec.{Exec}
use valkeycluster_operator.Cluster.{Endpoint, SlotRange, ClusterState, RebalanceOpts}

pub record ClusterAdmin (W : Type 0) : Type 0 where
  pub state : Endpoint → Exec W ClusterState
  pub my_id : Endpoint → Exec W Text
  pub meet : Endpoint → Endpoint → Exec W ⊤
  pub add_slots : Endpoint → List SlotRange → Exec W ⊤
  pub replicate : Endpoint → Text → Exec W ⊤
  pub forget : Endpoint → Text → Exec W ⊤
  pub failover : Endpoint → Exec W ⊤
  pub rebalance : Endpoint → RebalanceOpts → Exec W ⊤
  pub reshard : Endpoint → Text → Text → ℤ → Exec W ⊤
  pub move_slots : Endpoint → Text → Text → ℤ → Exec W ℤ
  pub fix : Endpoint → Exec W ⊤
  pub repair_slots : Endpoint → Exec W ℤ
