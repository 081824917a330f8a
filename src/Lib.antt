-- ===== src/Lib.antt =====
-- The Valkey cluster operator: a Kubernetes controller that forms a sharded Valkey cluster, keeps
-- its membership, moves slots when shards are added or removed, and reports the cluster's status.
--
-- The parts and the files that model them (a module's child modules hold its lemmas and theorems):
--  * Slots: internal/slots/slots.go (Distribute, TargetCounts, FormatRange, FormatRanges).
--  * Topology: internal/topology/topology.go (Decide and its types).
--  * Cluster: the types of internal/cluster/admin.go; Cluster/Admin is the interface ClusterAdmin,
--    a record of operations on a world; Cluster/Parse is the parsing of `CLUSTER NODES` and
--    `CLUSTER INFO` in internal/cluster/goredis.go (parseInfo, parseNodes, parseAddr,
--    parseSlotToken, parseOpenSlots, hasOpenSlots); Cluster/Fake is internal/cluster/fake.go, the
--    in-memory implementation of ClusterAdmin, which `fake_admin` packs as that record.
--    Cluster/Masters and Controller/View/Owners say in words of their own which nodes are masters,
--    which of them own slots and which nodes follow them.
--  * Cluster/GoRedis: the rest of internal/cluster/goredis.go, `Admin`, the implementation of
--    ClusterAdmin over the network: Open has State and collectOpenSlots, Move has MoveSlots, Repair
--    has RepairSlots, and Interface packs the operations as a ClusterAdmin (`go_redis`). PodExec is
--    internal/cluster/exec.go.
--  * Api: api/v1alpha1/valkeycluster_types.go, the fields the controller reads and writes;
--    Api/Schema has the resource as it is sent and stored (the defaults and limits of its
--    kubebuilder markers, omitted fields), and so what an update of a resource that was read makes
--    of it.
--  * Resources: internal/resources/builders.go (names, labels, ConfigMap and Service;
--    RenderValkeyConf in Resources/Config; the start script and the StatefulSet in
--    Resources/Workload).
--  * Controller/View: what the reconciler reads off a state (byID, hostIndex, summarize,
--    fattestPrimary, endpoint); Controller/Membership: internal/controller/membership.go;
--    Controller/Scaling: internal/controller/scaling.go; Controller/Status:
--    internal/controller/status.go; Controller/Cluster: internal/controller/reconcile.go
--    (reconcileCluster, formCluster), and its passes over the cluster in memory; Controller/Loop:
--    Reconcile, reconcileDelete and, in Loop/Setup, SetupWithManager of
--    internal/controller/valkeycluster_controller.go; Controller/Objects: the functions of
--    internal/controller/resources.go that ensure the objects.
--  * Controller/Keeps: which requests a pass of the reconciler sends, as predicates on the world
--    that its calls keep (Exec/Keeps), component by component.
--  * Start: cmd/main.go, the options from the flags and the steps of main.
--  * Prelude, Text, Dict and Exec: numbers, byte strings, maps and the monad of calls.
--  * Tests: concrete worlds and runs.
--
-- How they interact: Reconcile ensures the objects, waits for the pods and runs reconcileCluster,
-- which asks the ClusterAdmin for the state, folds it into an Observed (`summarize`), asks Decide
-- for one action, carries it out through ClusterAdmin and the Kubernetes API, and publishes the
-- status.
--
-- Correspondence. A Go function is a definition with its name in snake_case, and a loop or a branch
-- of it may be a definition of its own, named after what it does. A method that can fail is an
-- action of `Exec W`: a function from a world to a result and a world, so that what a failing call
-- has changed stays changed. The parameters `Kube W` and `ClusterAdmin W` stand for the API server
-- and the cluster; `Reconciler W` holds both, as the source's struct holds its clients; `Admin W`
-- holds the go-redis client (`Client W`, whose commands go to the node that its options name), the
-- resolver (`Resolver W`) and the execution of commands in pods (`PodExecutor W`); the clock and
-- the digest of a configuration are fields of `Kube W`, and a write of the resource gives back what
-- the server has stored. Where the source ignores an error, `ignore` or `try` says so.
--
-- Numbers. Go's int is ℤ without wrap-around: the counts are those of slots, nodes and shards. Atoi
-- and the memory limit write their 64-bit range out. The API schema excludes negative shard and
-- replica counts, and these are natural numbers here. A Kubernetes quantity is its value, so two
-- texts of one value are not told apart, and the rule that compares the texts of two storage sizes
-- is left out. A string is its list of bytes, and the functions of strings and strconv are written
-- out for ASCII text.
--
-- Maps. A Go map is a list of pairs, and the order of a range over it is the order of the list: a
-- theorem that holds for every list holds for every iteration order. collectOpenSlots lists the
-- slots of its map in the order in which they are found; the lemmas on the loop of RepairSlots are
-- for every list. The in-memory cluster's nodes are pointers that the source reaches only through
-- its map, so a write through a pointer is a write at its key.
--
-- Fuel. `format_nat` runs on the number itself plus one, which is at least its count of digits. The
-- loop of scaleOut that fills a new primary (`fill`) runs on as many rounds as slots are needed:
-- every round that goes on has moved at least one slot. The loop of MoveSlots that empties a slot
-- (`empty_slot`) runs on a fuel that is an argument of the model: more than the keys of the slot
-- are enough if every MIGRATE that succeeds leaves fewer. All other loops are structural.
--
-- Not modelled: the opening, the closing and the timeouts of connections, beyond the options of a
-- client; the parsing of the command line, the builder of controllers, registration and generated
-- deep copies; the requests of a container for resources, which are passed through; log lines and
-- the text of error messages beyond their context. CreateOrUpdate, RetryOnConflict and the
-- functions on finalizers and owner references of the Kubernetes libraries are fields of `Kube W`,
-- and the exec subresource is the record that PodExec takes.
pub mod Prelude
pub mod Text
pub mod Dict
pub mod Exec
pub mod Api
pub mod Cluster
pub mod Slots
pub mod Topology
pub mod Resources
pub mod Controller
pub mod Start
mod Tests
