-- ===== src/Tests/Statuses.antt =====
-- Published statuses.
use valkeycluster_operator.Prelude.{ℕ, ◌≡◌, ◌≢◌, ◌⊎◌, refl, true, false, none, some, [], ◌∷◌}
use valkeycluster_operator.Prelude.Int.{pos, ◌+ℤ◌, ◌-ℤ◌}
use valkeycluster_operator.Text.{Text, codes, text_eq}
use valkeycluster_operator.Text.Decimal.{itoa, format_nat}
use valkeycluster_operator.Dict.{insert, lookup}
use valkeycluster_operator.Resources.{pod_fqdn, pod_name, stateful_set_name, headless_service_name}
use valkeycluster_operator.Api.{is_true}
use valkeycluster_operator.Cluster.{NodeInfo, ClusterState, is_primary, slot_count, count_slots}
use valkeycluster_operator.Topology.{decide, no_action, scale_replicas}
use valkeycluster_operator.Controller.View.{summarize, host_index, owns_slots, count_owners}
use valkeycluster_operator.Controller.Cluster.{desired_of}
use valkeycluster_operator.Controller.Status.{
  Update, ready_shards, count_ready, shard_primary, condition, available, set_cond,
}
use valkeycluster_operator.Controller.Status.SetCond.{find, transition, IsDistinct, set_cond_lem}
use valkeycluster_operator.Controller.Status.Truth.{IsAllReady, publish_ready, publish_ready-decide}
use valkeycluster_operator.Tests.World.{demo}

abbrev serving : Update
serving = available is_true (codes "Ready") []

set_cond_lem_example :
    let after = (set_cond 9 serving demo).status.conditions in
    (find (codes "Available") after ≡ some (condition serving 2 (transition 9 serving none)))
    × ((t : Text) → t ≢ codes "Available" → find t after ≡ find t [])
    × (IsDistinct [] → IsDistinct after)
set_cond_lem_example = set_cond_lem 9 serving demo

abbrev owner : ℕ → ℕ → ℕ → NodeInfo
owner i a b = record {
  id = pod_fqdn demo (pos i) 0;
  host = pod_fqdn demo (pos i) 0;
  ip = [];
  port = pos 6379;
  flags = codes "master" ∷ [];
  master_id = [];
  slots = record { start = pos a; end = pos b } ∷ [];
  connected = true;
}

-- three shards of one master each, which owns a third of the slots
abbrev all_well : ClusterState
all_well = record {
  formed = true;
  slots_covered = true;
  open_slots = false;
  nodes = owner 0 0 5460 ∷ owner 1 5461 10921 ∷ owner 2 10922 16383 ∷ [];
}

all_well-IsAllReady : IsAllReady demo all_well
unfolding ready_shards count_ready shard_primary host_index insert lookup text_eq pod_fqdn pod_name
    stateful_set_name headless_service_name itoa format_nat owns_slots is_primary slot_count
    count_slots count_owners ◌+ℤ◌ ◌-ℤ◌
all_well-IsAllReady = record { serving = refl; owners = refl; covered = refl; stable = refl }

publish_ready-decide_example :
    let kind = (decide (desired_of demo) (summarize all_well)).kind in
    (kind ≡ no_action) ⊎ (kind ≡ scale_replicas)
publish_ready-decide_example =
    publish_ready-decide 9 demo all_well demo refl
      ((publish_ready 9 demo all_well demo).1 all_well-IsAllReady)
