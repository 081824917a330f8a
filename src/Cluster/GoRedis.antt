-- ===== src/Cluster/GoRedis.antt =====
-- internal/cluster/goredis.go: `Admin`, the implementation of `ClusterAdmin` over the network. What it
-- uses of the go-redis client, of the resolver and of the execution of commands in pods is a record
-- over the world `W`. Closing a connection has no effect here, and a context is left out.
pub mod Open
pub mod Move
pub mod Repair
pub mod Interface
pub mod PodExec
use valkeycluster_operator.Prelude.{
  ℕ, ⊤, Bool, true, false, none, some, List, [], ◌∷◌, ◌++◌, map, if◌then◌else◌,
}
use valkeycluster_operator.Prelude.Int.{ℤ, pos, negsuc, leb_ℤ}
use valkeycluster_operator.Text.{Text, codes, is_empty}
use valkeycluster_operator.Text.Decimal.{itoa}
use valkeycluster_operator.Exec.{
  for_each, Exec, Error, cause, ok, err, pure, raise, with_context, ◌>>=◌, ◌>>◌,
}
use valkeycluster_operator.Cluster.{Endpoint, SlotRange, NodeInfo, RebalanceOpts, addr}

-- the options of a client: the address, and limits of which zero stands for the default. A client is
-- what its options make it, so that a cached one is the same as a new one
pub record Options : Type 0 where
  pub addr : Text
  pub dial_timeout : ℕ
  pub read_timeout : ℕ
  pub max_retries : ℤ

-- the commands of the client that are used. `do_command` sends its arguments as they are, numbers in
-- decimal; `migrate` has the host, the port, the key, the database and the timeout in seconds
pub record Client (W : Type 0) : Type 0 where
  pub cluster_info : Options → Exec W Text
  pub cluster_nodes : Options → Exec W Text
  pub cluster_my_id : Options → Exec W Text
  pub cluster_meet : Options → Text → Text → Exec W ⊤
  pub cluster_add_slots_range : Options → ℤ → ℤ → Exec W ⊤
  pub cluster_replicate : Options → Text → Exec W ⊤
  pub cluster_forget : Options → Text → Exec W ⊤
  pub cluster_failover : Options → Exec W ⊤
  pub cluster_get_keys_in_slot : Options → ℤ → ℕ → Exec W (List Text)
  pub do_command : Options → List Text → Exec W ⊤
  pub migrate : Options → Text → Text → Text → ℕ → ℕ → Exec W ⊤

-- `net.ParseIP`, whether it finds an address, and `LookupHost` of the default resolver
pub record Resolver (W : Type 0) : Type 0 where
  pub is_ip : Text → Bool
  pub lookup_host : Text → Exec W (List Text)

-- `PodExecutor`: namespace, pod, container and command
pub record PodExecutor (W : Type 0) : Type 0 where
  pub exec : Text → Text → Text → List Text → Exec W Text

-- `Admin`, with the client and the resolver that it reaches through their packages
pub record Admin (W : Type 0) : Type 0 where
  pub executor : PodExecutor W
  pub container : Text
  pub client : Client W
  pub resolver : Resolver W

-- the options of a client of which only the address is given
abbrev pub options : Text → Options
options a = record { addr = a; dial_timeout = 0; read_timeout = 0; max_retries = pos 0 }

-- `dial`
unfoldable pub dial : Endpoint → Options
dial e = options (addr e)

-- where a node is reached: by its IP, or by its host if it has none
unfoldable pub node_addr : NodeInfo → Text
node_addr n = (if is_empty n.ip then n.host else n.ip) ++ b':' ∷ itoa n.port

abbrev pub migrate_timeout_millis : Text
migrate_timeout_millis = codes "10000"

-- the address by which `valkey-cli` reaches the node of its own pod
abbrev pub local_addr : Endpoint → Text
local_addr seed = codes "127.0.0.1:" ++ itoa seed.port

weights : List Text → List Text
weights [] = []
weights (id ∷ ids) = codes "--cluster-weight" ∷ (id ++ codes "=0") ∷ weights ids

-- the command of `Rebalance`
unfoldable pub rebalance_args : Endpoint → RebalanceOpts → List Text
unfolding weights
rebalance_args seed opts =
    (codes "valkey-cli"
      ∷ codes "--cluster"
      ∷ codes "rebalance"
      ∷ local_addr seed
      ∷ codes "--cluster-yes"
      ∷ codes "--cluster-timeout"
      ∷ migrate_timeout_millis
      ∷ [])
    ++ ((if opts.use_empty_masters then codes "--cluster-use-empty-masters" ∷ [] else [])
        ++ weights opts.weight_zero_ids)

-- the command of `Reshard`
unfoldable pub reshard_args : Endpoint → Text → Text → ℤ → List Text
reshard_args seed from_id to_id n =
    codes "valkey-cli"
    ∷ codes "--cluster"
    ∷ codes "reshard"
    ∷ local_addr seed
    ∷ codes "--cluster-from"
    ∷ (if is_empty from_id then codes "all" else from_id)
    ∷ codes "--cluster-to"
    ∷ to_id
    ∷ codes "--cluster-slots"
    ∷ itoa n
    ∷ codes "--cluster-yes"
    ∷ codes "--cluster-timeout"
    ∷ migrate_timeout_millis
    ∷ []

-- the command of `Fix`
unfoldable pub fix_args : Endpoint → List Text
fix_args seed =
    codes "valkey-cli"
    ∷ codes "--cluster"
    ∷ codes "fix"
    ∷ local_addr seed
    ∷ codes "--cluster-yes"
    ∷ codes "--cluster-timeout"
    ∷ migrate_timeout_millis
    ∷ []

module _ {W : Type 0} (a : Admin W) where
  open a use {executor, container, client, resolver}

  -- `MyID`
  unfoldable pub my_id : Endpoint → Exec W Text
  my_id ep = client.cluster_my_id (dial ep)

  -- the first address that is found for a host
  unfoldable pub first_address : Text → List Text → Exec W Text
  first_address host [] = raise (cause (codes "no addresses for " ++ host))
  first_address host (ip ∷ _) = pure ip

  -- `resolveHost`
  unfoldable pub resolve_host : Text → Exec W Text
  unfolding first_address
  resolve_host host =
      if resolver.is_ip host
      then pure host
      else do addrs ← resolver.lookup_host host; first_address host addrs

  -- `Meet`
  unfoldable pub meet : Endpoint → Endpoint → Exec W ⊤
  meet from target = do
    ip ← with_context (codes "resolve " ++ target.host) (resolve_host target.host)
    client.cluster_meet (dial from) ip (itoa target.port)

  -- `AddSlots`
  unfoldable pub add_slots : Endpoint → List SlotRange → Exec W ⊤
  unfolding for_each
  add_slots primary ranges =
      for_each ranges (λ r. client.cluster_add_slots_range (dial primary) r.start r.end)

  -- `Replicate`
  unfoldable pub replicate : Endpoint → Text → Exec W ⊤
  replicate replica primary_id = client.cluster_replicate (dial replica) primary_id

  -- `Forget`
  unfoldable pub forget : Endpoint → Text → Exec W ⊤
  forget from node_id = client.cluster_forget (dial from) node_id

  -- `Failover`
  unfoldable pub failover : Endpoint → Exec W ⊤
  failover replica = client.cluster_failover (dial replica)

  -- a command in the pod of `seed`, whose output is dropped
  in_pod : Endpoint → List Text → Exec W ⊤
  in_pod seed args = executor.exec seed.namespace seed.pod_name container args >>= λ _. pure tt

  -- `Rebalance`
  unfoldable pub rebalance : Endpoint → RebalanceOpts → Exec W ⊤
  unfolding in_pod
  rebalance seed opts = in_pod seed (rebalance_args seed opts)

  -- `Reshard`
  unfoldable pub reshard : Endpoint → Text → Text → ℤ → Exec W ⊤
  unfolding in_pod
  reshard seed from_id to_id n =
      if leb_ℤ n (pos 0) then pure tt else in_pod seed (reshard_args seed from_id to_id n)

  -- `Fix`
  unfoldable pub fix : Endpoint → Exec W ⊤
  unfolding in_pod
  fix seed = in_pod seed (fix_args seed)
