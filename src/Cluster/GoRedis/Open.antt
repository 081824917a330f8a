-- ===== src/Cluster/GoRedis/Open.antt =====
-- internal/cluster/goredis.go: `State` and `collectOpenSlots`.
pub mod Reads
pub mod Sweep
use valkeycluster_operator.Prelude.{
  ℕ, Bool, true, false, not, ◌&&◌, ◌||◌, none, some, List, [], ◌∷◌, if◌then◌else◌, ltb, length,
}
use valkeycluster_operator.Prelude.Int.{ℤ, pos, negsuc, ltb_ℤ, eqb_ℤ}
use valkeycluster_operator.Text.{Text, codes, text_eq, is_empty}
use valkeycluster_operator.Text.Decimal.{atoi}
use valkeycluster_operator.Dict.{Dict, lookup}
use valkeycluster_operator.Exec.{Exec, ok, err, pure, try, with_context, ◌>>=◌, ◌>>◌}
use valkeycluster_operator.Cluster.{Endpoint, NodeInfo, ClusterState, has_flag, total_slots}
use valkeycluster_operator.Cluster.Parse.{parse_info, parse_nodes, parse_open_slots, add_slot}
use valkeycluster_operator.Cluster.GoRedis.{Options, Admin, dial, node_addr}

-- a node that the sweep asks: connected, and flagged neither as failing nor as having no address
unfoldable pub is_reachable : NodeInfo → Bool
is_reachable n =
    n.connected
    && not (has_flag n (codes "fail") || has_flag n (codes "fail?") || has_flag n (codes "noaddr"))

-- the client of the sweep: two seconds to dial and to read, and no retries
unfoldable pub sweep_options : NodeInfo → Options
sweep_options n = record {
  addr = node_addr n;
  dial_timeout = 2;
  read_timeout = 2;
  max_retries = negsuc 0;
}

-- `seen[s] = true` for every slot
unfoldable pub add_all : List ℤ → List ℤ → List ℤ
add_all [] seen = seen
add_all (s ∷ ss) seen = add_all ss (add_slot s seen)

-- `kv[k]`: the empty text where the key is missing
unfoldable pub value_of : Text → Dict Text → Text
value_of k kv = elim (lookup k kv) [ none ↦ [] | some v ↦ v ]

-- the fields `Formed` and `SlotsCovered`
unfoldable pub info_formed : Dict Text → Bool
info_formed kv =
    not (is_empty (value_of (codes "cluster_state") kv))
    && ltb_ℤ (pos 0) (atoi (value_of (codes "cluster_slots_assigned") kv)).0

unfoldable pub info_covered : Dict Text → Bool
info_covered kv =
    text_eq (value_of (codes "cluster_state") kv) (codes "ok")
    && eqb_ℤ (atoi (value_of (codes "cluster_slots_assigned") kv)).0 (pos total_slots)

module _ {W : Type 0} (a : Admin W) where
  open a use {client}

  -- the loop of `collectOpenSlots`
  unfoldable pub collect_from : List NodeInfo → List ℤ → Exec W (List ℤ)
  collect_from [] seen = pure seen
  collect_from (n ∷ ns) seen = elim (is_reachable n) [
    | false ↦ collect_from ns seen
    | true ↦ do
      got ← try (client.cluster_nodes (sweep_options n))
      elim got [
        | err _ ↦ collect_from ns seen
        | ok raw ↦ collect_from ns (add_all (parse_open_slots raw) seen)
      ]
  ]

  -- `collectOpenSlots`
  unfoldable pub collect_open_slots : List NodeInfo → Exec W (List ℤ)
  collect_open_slots nodes = collect_from nodes []

  -- `State`
  unfoldable pub state : Endpoint → Exec W ClusterState
  state seed = do
    info ← with_context (codes "cluster info") (client.cluster_info (dial seed))
    raw ← with_context (codes "cluster nodes") (client.cluster_nodes (dial seed))
    let kv = parse_info info
    let nodes = parse_nodes raw
    open_slots ← collect_open_slots nodes
    pure (record {
      formed = info_formed kv;
      slots_covered = info_covered kv;
      open_slots = ltb 0 (length open_slots);
      nodes = nodes;
    })
