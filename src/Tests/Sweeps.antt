-- ===== src/Tests/Sweeps.antt =====
-- The sweep over a small network, and the filling loop over it.
use valkeycluster_operator.Prelude.{ℕ, ◌≤◌, ◌≡◌, ◌↔◌, refl, true, [], ◌∷◌, Has, ⊤, arith}
use valkeycluster_operator.Prelude.Int.{ℤ, pos}
use valkeycluster_operator.Text.{Text, codes}
use valkeycluster_operator.Exec.{Error, cause, ok, err, ◌>>◌}
use valkeycluster_operator.Cluster.{ClusterState}
use valkeycluster_operator.Cluster.Parse.{parse_info, parse_nodes}
use valkeycluster_operator.Cluster.GoRedis.Open.{state}
use valkeycluster_operator.Cluster.GoRedis.Open.Reads.{IsFormed, IsCovered}
use valkeycluster_operator.Cluster.GoRedis.Open.Sweep.{Shows, state-Shows}
use valkeycluster_operator.Cluster.Admin.{ClusterAdmin}
use valkeycluster_operator.Controller.{Reconciler}
use valkeycluster_operator.Controller.View.{endpoint}
use valkeycluster_operator.Controller.Scaling.{scale_in_from}
use valkeycluster_operator.Controller.Scaling.Silent.{deletions, scale_in_from_silent}
use valkeycluster_operator.Tests.World.{demo, test_kube, quiet_admin, departing}
use valkeycluster_operator.Tests.Network.{reply, node_a, quiet, here}

abbrev told : Text
told = codes "cluster_state:ok\r\ncluster_slots_assigned:2\r\n"

state-Shows_example :
    (s : ClusterState) × (state quiet here tt ≡ (ok s, tt))
    × ((s.formed ≡ true) ↔ IsFormed (parse_info told))
    × ((s.slots_covered ≡ true) ↔ IsCovered (parse_info told))
    × (s.nodes ≡ parse_nodes reply)
    × ((s.open_slots ≡ true) ↔ ((k : ℤ) × Has (Shows quiet tt k) (parse_nodes reply)))
state-Shows_example = state-Shows quiet (λ o w. refl) here tt told reply refl refl

-- a cluster whose pods do not answer CLUSTER MYID, and one of whose nodes owns slots
abbrev silent_admin : ClusterAdmin ⊤
silent_admin = record quiet_admin {
  state = λ _ w. (
    ok (record { formed = true; slots_covered = true; open_slots = true; nodes = node_a ∷ [] }),
    w,
  );
  my_id = λ _ w. (err (cause (codes "timeout")), w);
}

abbrev on_silent : Reconciler ⊤
on_silent = record { admin = silent_admin; kube = test_kube departing }

silent_pods :
    (j : ℕ)
    → j ≤ demo.spec.replicas_per_shard
    → (e : Error) × (silent_admin.my_id (endpoint demo (pos 3) j) tt ≡ (err e, tt))
silent_pods j l = (cause (codes "timeout"), refl)

scale_in_from_silent_example :
    scale_in_from on_silent demo (pos 3 ∷ []) tt
    ≡ (deletions on_silent demo (pos 3) tt silent_pods >> scale_in_from on_silent demo []) tt
scale_in_from_silent_example =
    scale_in_from_silent on_silent demo (pos 3) tt silent_pods []
      (record { formed = true; slots_covered = true; open_slots = true; nodes = node_a ∷ [] })
      (omega arith) refl
