-- ===== src/Controller/Keeps/Network.antt =====
-- The reconciler over the network: what its commands to the nodes keep, its whole pass keeps.
use valkeycluster_operator.Prelude.{ℕ, List}
use valkeycluster_operator.Prelude.Int.{ℤ}
use valkeycluster_operator.Text.{Text}
use valkeycluster_operator.Exec.Keeps.{Keeps}
use valkeycluster_operator.Cluster.{NodeInfo}
use valkeycluster_operator.Cluster.GoRedis.{Options, Admin}
use valkeycluster_operator.Cluster.GoRedis.Move.{set_slot, migrate_keys_args}

-- the requests to nodes and resolver that the operations of a pass consist of; of the commands that are
-- sent word by word, these are CLUSTER SETSLOT and MIGRATE
pub record ClientKeeps {W : Type 0} (P : W → Type 0) (a : Admin W) : Type 0 where
  pub cluster_info : (o : Options) → Keeps P (a.client.cluster_info o)
  pub cluster_nodes : (o : Options) → Keeps P (a.client.cluster_nodes o)
  pub cluster_my_id : (o : Options) → Keeps P (a.client.cluster_my_id o)
  pub cluster_meet : (o : Options) (ip port : Text) → Keeps P (a.client.cluster_meet o ip port)
  pub cluster_add_slots_range :
      (o : Options) (start end : ℤ) → Keeps P (a.client.cluster_add_slots_range o start end)
  pub cluster_replicate : (o : Options) (id : Text) → Keeps P (a.client.cluster_replicate o id)
  pub cluster_forget : (o : Options) (id : Text) → Keeps P (a.client.cluster_forget o id)
  pub cluster_get_keys_in_slot :
      (o : Options) (s : ℤ) (count : ℕ) → Keeps P (a.client.cluster_get_keys_in_slot o s count)
  pub setting_slot :
      (o : Options) (s : ℤ) (how : List Text) → Keeps P (a.client.do_command o (set_slot s how))
  pub migrating :
      (o : Options) (to : NodeInfo) (keys : List Text)
      → Keeps P (a.client.do_command o (migrate_keys_args to keys))
  pub migrate :
      (o : Options) (host port k : Text) (db timeout : ℕ)
      → Keeps P (a.client.migrate o host port k db timeout)
  pub lookup_host : (host : Text) → Keeps P (a.resolver.lookup_host host)
