-- ===== src/Tests/Removals.antt =====
-- A pass over a cluster of which the world records the StatefulSets that were deleted.
use valkeycluster_operator.Prelude.{◌≢◌, List, ◌∷◌, arith, All}
use valkeycluster_operator.Prelude.Int.{ℤ, pos, negsuc, ◌≤ℤ◌}
use valkeycluster_operator.Text.{Text}
use valkeycluster_operator.Exec.{ok}
use valkeycluster_operator.Exec.Keeps.{Keeps}
use valkeycluster_operator.Resources.{stateful_set_name}
use valkeycluster_operator.Resources.Names.{stateful_set_name_injective}
use valkeycluster_operator.Controller.{Kube, Reconciler}
use valkeycluster_operator.Controller.Keeps.{AdminKeeps, KubeKeeps}
use valkeycluster_operator.Controller.Keeps.Pass.{reconcile_live-Keeps}
use valkeycluster_operator.Controller.Loop.{reconcile_live}
use valkeycluster_operator.Tests.World.{demo, test_kube, quiet_admin, departing}

-- the world is the list of the StatefulSets that were deleted
abbrev recording_kube : Kube (List Text)
recording_kube = record (test_kube departing) { delete_stateful_set = λ name w. (ok tt, name ∷ w) }

abbrev on_record : Reconciler (List Text)
on_record = record { admin = quiet_admin; kube = recording_kube }

-- the StatefulSet of shard 0 was not deleted
abbrev FirstStays : List Text → Type 0
FirstStays = All (λ t. t ≢ stateful_set_name demo (pos 0))

admin_keeps : AdminKeeps FirstStays quiet_admin
admin_keeps = record {
  state = λ _ w h. h;
  my_id = λ _ w h. h;
  meet = λ _ _ w h. h;
  add_slots = λ _ _ w h. h;
  replicate = λ _ _ w h. h;
  forget = λ _ _ w h. h;
  move_slots = λ _ _ _ _ w h. h;
  repair_slots = λ _ w h. h;
}

other_name : (i : ℤ) → pos 3 ≤ℤ i → stateful_set_name demo i ≢ stateful_set_name demo (pos 0)
other_name (pos n) h e = ground (arith, stateful_set_name_injective demo n 0 e)
other_name (negsuc n) h e = ground arith

kube_keeps : KubeKeeps FirstStays demo recording_kube
kube_keeps = record {
  get_cluster = λ w h. h;
  update_status = λ _ w h. h;
  retry_on_conflict = λ m h. h;
  create_or_update_config_map = λ _ _ w h. h;
  create_or_update_service = λ _ _ w h. h;
  create_or_update_stateful_set = λ _ _ w h. h;
  ready_replicas = λ _ w h. h;
  list_stateful_sets = λ _ w h. h;
  list_pvcs = λ _ w h. h;
  delete_stateful_set = λ i hi w h. (other_name i hi, h);
  delete_pvc = λ _ _ _ _ _ _ _ w h. h;
}

reconcile_live-Keeps_example : Keeps FirstStays (reconcile_live on_record demo)
reconcile_live-Keeps_example = reconcile_live-Keeps FirstStays on_record demo admin_keeps kube_keeps
