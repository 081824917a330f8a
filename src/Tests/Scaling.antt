-- ===== src/Tests/Scaling.antt =====
-- Adding and removing shards.
use valkeycluster_operator.Prelude.{ℕ, ◌+◌, ◌≤◌, ◌≡◌, ◌≢◌, refl, ◌⊎◌, true, false, [], ◌∷◌, arith}
use valkeycluster_operator.Prelude.Int.{pos, pos_part}
use valkeycluster_operator.Text.{codes}
use valkeycluster_operator.Dict.{Dict}
use valkeycluster_operator.Exec.{ok}
use valkeycluster_operator.Cluster.{NodeInfo}
use valkeycluster_operator.Cluster.Admin.{ClusterAdmin}
use valkeycluster_operator.Cluster.Fake.{new_node}
use valkeycluster_operator.Controller.{Reconciler}
use valkeycluster_operator.Controller.View.{fattest_primary}
use valkeycluster_operator.Controller.View.Fattest.{AtMost, Attained, fattest_primary_max}
use valkeycluster_operator.Controller.Scaling.{fill, out_of_fuel}
use valkeycluster_operator.Controller.Scaling.Fill.{
  MovesForward, CountsTarget, fill_ends, fill_bounded,
}
use valkeycluster_operator.Tests.World.{demo, pod, test_kube}

abbrev full_node : NodeInfo
full_node = record (new_node (pod (codes "a"))) {
  slots = record { start = pos 0; end = pos 9 } ∷ [];
}

abbrev one_full : Dict NodeInfo
one_full = (codes "a", full_node) ∷ []

-- a cluster of which only the slots of the new primary are known: every move gives what is asked
abbrev counting_admin : ClusterAdmin ℕ
counting_admin = record {
  state = λ _ w. (
    ok (record { formed = true; slots_covered = true; open_slots = false; nodes = full_node ∷ [] }),
    w,
  );
  my_id = λ ep w. (ok ep.host, w);
  meet = λ _ _ w. (ok tt, w);
  add_slots = λ _ _ w. (ok tt, w);
  replicate = λ _ _ w. (ok tt, w);
  forget = λ _ _ w. (ok tt, w);
  failover = λ _ w. (ok tt, w);
  rebalance = λ _ _ w. (ok tt, w);
  reshard = λ _ _ _ _ w. (ok tt, w);
  move_slots = λ _ _ _ n w. (ok (pos (pos_part n)), w + pos_part n);
  fix = λ _ w. (ok tt, w);
  repair_slots = λ _ w. (ok (pos 0), w);
}

abbrev on_counts : Reconciler ℕ
on_counts = record { admin = counting_admin; kube = test_kube [] }

counts_forward : MovesForward on_counts
counts_forward ep from to n w m e = ground arith

fill_ends_example : (fill on_counts demo 4 (codes "b") (pos 4) one_full 0).0 ≢ ok out_of_fuel
fill_ends_example =
    fill_ends on_counts demo counts_forward 4 (codes "b") (pos 4) one_full 0 (omega arith)

fattest_primary_max_example :
    let found = fattest_primary one_full (codes "b") in
    AtMost (codes "b") found.1 one_full
    × ((found ≡ ([], pos 0)) ⊎ Attained (codes "b") found one_full)
fattest_primary_max_example = fattest_primary_max one_full (codes "b")

counts_target : CountsTarget on_counts (codes "b") (λ w. w)
counts_target = record {
  observing = λ ep w. refl;
  moving = λ ep from n m w e. ground arith;
  failing = λ ep from n w e h. ground arith;
}

fill_bounded_example : (fill on_counts demo 4 (codes "b") (pos 4) one_full 0).1 ≤ 0 + 4
fill_bounded_example =
    fill_bounded on_counts demo (codes "b") (λ w. w) counts_target 4 (pos 4) one_full 0
