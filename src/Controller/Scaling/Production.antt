-- ===== src/Controller/Scaling/Production.antt =====
-- `scaleOut` over the network: its filling loop needs no promise of the cluster.
use valkeycluster_operator.Prelude.{ℕ, ◌≤◌, ◌≢◌}
use valkeycluster_operator.Prelude.Int.{ℤ, pos_part}
use valkeycluster_operator.Text.{Text}
use valkeycluster_operator.Dict.{Dict}
use valkeycluster_operator.Exec.{ok}
use valkeycluster_operator.Api.{ValkeyCluster}
use valkeycluster_operator.Cluster.{NodeInfo}
use valkeycluster_operator.Cluster.GoRedis.{Admin}
use valkeycluster_operator.Cluster.GoRedis.Interface.{go_redis}
use valkeycluster_operator.Cluster.GoRedis.Move.Count.{move_slots_bounds}
use valkeycluster_operator.Controller.{Kube, Reconciler}
use valkeycluster_operator.Controller.Scaling.{out_of_fuel, fill}
use valkeycluster_operator.Controller.Scaling.Fill.{fill_ends}

module _ {W : Type 0} (a : Admin W) (fuel : ℕ) (k : Kube W) (cr : ValkeyCluster) where
  abbrev pub production : Reconciler W
  production = record { admin = go_redis a fuel; kube = k }

  -- Over the network, whatever the nodes answer, the loop that fills a new primary ends within as many
  -- rounds as it needs slots: `MoveSlots` itself sees to it that no round takes slots back.
  pub production-fill_ends :
      (rounds : ℕ) (id : Text) (need : ℤ) (idx : Dict NodeInfo) (w : W)
      → pos_part need ≤ rounds
      → (fill production cr rounds id need idx w).0 ≢ ok out_of_fuel
  production-fill_ends =
      fill_ends production cr
        (λ ep from to n w m h. (move_slots_bounds a fuel ep from to n m w h).0)
