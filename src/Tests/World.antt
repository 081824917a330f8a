-- ===== src/Tests/World.antt =====
-- A resource, an in-memory cluster and a Kubernetes API that answers every request.
use valkeycluster_operator.Prelude.{true, false, none, some, List, [], ◌∷◌, any}
use valkeycluster_operator.Prelude.Int.{pos}
use valkeycluster_operator.Text.{Text, codes, text_eq}
use valkeycluster_operator.Dict.{Dict}
use valkeycluster_operator.Exec.{ok}
use valkeycluster_operator.Api.{ValkeyCluster, unset, no_phase}
use valkeycluster_operator.Resources.{label_shard}
use valkeycluster_operator.Cluster.{Endpoint}
use valkeycluster_operator.Cluster.Admin.{ClusterAdmin}
use valkeycluster_operator.Cluster.Fake.{Fake, fake_admin}
use valkeycluster_operator.Controller.{Kube, Reconciler}

abbrev pub demo : ValkeyCluster
demo = record {
  name = codes "demo";
  namespace = codes "ns";
  generation = 2;
  deleting = false;
  finalizers = [];
  spec = record {
    shards = 3;
    replicas_per_shard = 1;
    image = codes "valkey/valkey:8";
    storage = record { size = 1; storage_class_name = [] };
    memory_limit = some 1000;
    persistence = record { mode = unset; append_fsync = [] };
    performance = record { io_threads = pos 0; maxmemory_policy = [] };
    ha_policy = record {
      min_replicas_to_write = pos 0;
      require_full_coverage = none;
      cluster_node_timeout_millis = pos 0;
    };
  };
  status = record {
    phase = no_phase;
    observed_generation = 0;
    ready_shards = 0;
    shards = [];
    conditions = [];
  };
}

abbrev pub test_kube : {W : Type 0} → List (Dict Text) → Kube W
test_kube listed = record {
  now = λ _. 7;
  get_cluster = λ w. (ok demo, w);
  update_cluster = λ c w. (ok c, w);
  update_status = λ _ w. (ok tt, w);
  retry_on_conflict = λ m. m;
  create_or_update_config_map = λ _ _ w. (ok tt, w);
  create_or_update_service = λ _ _ w. (ok tt, w);
  create_or_update_stateful_set = λ _ _ w. (ok tt, w);
  ready_replicas = λ _ w. (ok 2, w);
  list_stateful_sets = λ _ w. (ok listed, w);
  delete_stateful_set = λ _ w. (ok tt, w);
  list_pvcs = λ _ w. (ok [], w);
  delete_pvc = λ _ w. (ok tt, w);
  set_controller_reference = λ c _. ok (c.name ∷ []);
  contains_finalizer = λ c f. any (λ g. text_eq g f) c.finalizers;
  add_finalizer = λ c f. record c { finalizers = f ∷ c.finalizers };
  remove_finalizer = λ c f. record c { finalizers = [] };
  digest = λ t. t;
}

-- the StatefulSets of shards 0 and 3 are there
abbrev pub departing : List (Dict Text)
departing = ((label_shard, codes "0") ∷ []) ∷ ((label_shard, codes "3") ∷ []) ∷ []

abbrev pub on_fake : Reconciler Fake
on_fake = record { admin = fake_admin; kube = test_kube departing }

abbrev pub pod : Text → Endpoint
pod host = record { host = host; port = pos 6379; pod_name = host; namespace = codes "ns" }

-- a formed cluster without nodes that accepts every operation
abbrev pub quiet_admin : {W : Type 0} → ClusterAdmin W
quiet_admin = record {
  state = λ _ w.
      (ok (record { formed = true; slots_covered = true; open_slots = false; nodes = [] }), w);
  my_id = λ ep w. (ok ep.host, w);
  meet = λ _ _ w. (ok tt, w);
  add_slots = λ _ _ w. (ok tt, w);
  replicate = λ _ _ w. (ok tt, w);
  forget = λ _ _ w. (ok tt, w);
  failover = λ _ w. (ok tt, w);
  rebalance = λ _ _ w. (ok tt, w);
  reshard = λ _ _ _ _ w. (ok tt, w);
  move_slots = λ _ _ _ _ w. (ok (pos 0), w);
  fix = λ _ w. (ok tt, w);
  repair_slots = λ _ w. (ok (pos 0), w);
}
