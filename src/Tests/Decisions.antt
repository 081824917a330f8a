-- ===== src/Tests/Decisions.antt =====
-- Decisions of the topology, and the plan of a pass.
use valkeycluster_operator.Prelude.{◌≡◌, ◌↔◌, refl, true, [], ◌∷◌}
use valkeycluster_operator.Prelude.Int.{pos}
use valkeycluster_operator.Text.{text_eq}
use valkeycluster_operator.Text.Decimal.{atoi}
use valkeycluster_operator.Exec.{ok}
use valkeycluster_operator.Dict.{lookup}
use valkeycluster_operator.Cluster.{ClusterState}
use valkeycluster_operator.Cluster.Fake.{new_fake}
use valkeycluster_operator.Topology.{
  Desired, Observed, decide, scale_out_shards, scale_in_shards, repair, no_action, plan,
}
use valkeycluster_operator.Topology.Precedence.{Decides, decide_iff}
use valkeycluster_operator.Controller.View.{summarize}
use valkeycluster_operator.Controller.View.Rest.{IsAtRest, rests_iff}
use valkeycluster_operator.Controller.Membership.{existing_shard_indexes, shard_indexes}
use valkeycluster_operator.Controller.Cluster.{desired_of, choose_plan}
use valkeycluster_operator.Controller.Cluster.Override.{repair_overridden}
use valkeycluster_operator.Tests.World.{demo, on_fake}

abbrev wanted : Desired
wanted = record { shards = 5; replicas_per_shard = 1 }

abbrev three_shards : Observed
three_shards = record {
  formed = true;
  slots_covered = true;
  primary_count = 3;
  replica_counts = 1 ∷ 1 ∷ 1 ∷ [];
}

decide_iff_example :
    ((decide wanted three_shards).kind ≡ scale_out_shards)
    ↔ Decides wanted three_shards scale_out_shards
decide_iff_example = decide_iff wanted three_shards scale_out_shards

-- a formed cluster with an open slot
abbrev interrupted : ClusterState
interrupted = record { formed = true; slots_covered = true; open_slots = true; nodes = [] }

rests_iff_example :
    ((decide wanted (summarize interrupted)).kind ≡ no_action) ↔ IsAtRest wanted interrupted
rests_iff_example = rests_iff wanted interrupted

repair_overridden_example :
    ((decide (desired_of demo) (summarize interrupted)).kind ≡ repair)
    × (choose_plan on_fake demo interrupted new_fake ≡ (ok (plan scale_in_shards), new_fake))
unfolding summarize existing_shard_indexes shard_indexes lookup text_eq atoi
repair_overridden_example =
    repair_overridden on_fake demo interrupted new_fake new_fake (pos 0 ∷ pos 3 ∷ []) refl refl refl
      refl
