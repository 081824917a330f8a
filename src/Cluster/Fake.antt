-- ===== src/Cluster/Fake.antt =====
-- internal/cluster/fake.go: the in-memory cluster. Its nodes are pointers in a map, so a write to a
-- node is a write at its key, and two names of one node are one key. The mutex makes each method
-- one step.
pub mod Slots
pub mod Assign
pub mod Sorted
pub mod Invariant
pub mod Primaries
pub mod Reshard
pub mod Calls
use valkeycluster_operator.Prelude.{
  ℕ, zero, suc, ◌+◌, ⊤, Bool, true, false, not, ◌&&◌, Option, none, some, List, [], ◌∷◌, ◌++◌, map,
  any, length, ltb, if◌then◌else◌,
}
use valkeycluster_operator.Prelude.Int.{ℤ, pos, ◌+ℤ◌, ◌-ℤ◌, ltb_ℤ, leb_ℤ, eqb_ℤ}
use valkeycluster_operator.Text.{Text, codes, text_eq, text_lt, is_empty}
use valkeycluster_operator.Dict.{Dict, lookup, insert, erase}
use valkeycluster_operator.Exec.{Exec, ok}
use valkeycluster_operator.Slots.{shard_range}
use valkeycluster_operator.Cluster.{
  Endpoint, SlotRange, NodeInfo, ClusterState, RebalanceOpts, is_primary, slot_count, total_slots,
}
use valkeycluster_operator.Cluster.Admin.{ClusterAdmin}

-- the field `nodes`: host to node
abbrev pub Fake : Type 0
Fake = Dict NodeInfo

-- `NewFake`
abbrev pub new_fake : Fake
new_fake = []

abbrev pub master_flags : List Text
master_flags = codes "master" ∷ []

abbrev pub slave_flags : List Text
slave_flags = codes "slave" ∷ []

abbrev pub new_node : Endpoint → NodeInfo
new_node e = record {
  id = e.host;
  host = e.host;
  ip = [];
  port = e.port;
  flags = master_flags;
  master_id = [];
  slots = [];
  connected = true;
}

-- a write through the pointer at key `k`
unfoldable pub modify : Text → (NodeInfo → NodeInfo) → Fake → Fake
modify k g [] = []
modify k g ((j, n) ∷ f) = if text_eq j k then (j, g n) ∷ f else (j, n) ∷ modify k g f

-- a loop that writes to every node
unfoldable pub modify_all : (NodeInfo → NodeInfo) → Fake → Fake
modify_all g [] = []
modify_all g ((j, n) ∷ f) = (j, g n) ∷ modify_all g f

abbrev pub make_primary : NodeInfo → NodeInfo
make_primary n = record n { master_id = []; flags = master_flags }

abbrev pub set_slots : List SlotRange → NodeInfo → NodeInfo
set_slots rs n = record n { slots = rs }

-- `ensure`: the node at the endpoint's host, which is created if it is not there
unfoldable pub ensure : Endpoint → Fake → NodeInfo × Fake
ensure e f = elim (lookup e.host f) [
  | some n ↦ (n, f)
  | none ↦ (new_node e, insert e.host (new_node e) f)
]

-- `assignedSlots`
unfoldable pub assigned_slots : Fake → ℤ
assigned_slots [] = pos 0
assigned_slots ((_, n) ∷ f) = slot_count n +ℤ assigned_slots f

insert_by_id : NodeInfo → List NodeInfo → List NodeInfo
insert_by_id n [] = n ∷ []
insert_by_id n (m ∷ ms) = if text_lt m.id n.id then m ∷ insert_by_id n ms else n ∷ m ∷ ms

-- the copies of the nodes, sorted by ID
sorted_nodes : Fake → List NodeInfo
unfolding insert_by_id
sorted_nodes [] = []
sorted_nodes ((_, n) ∷ f) = insert_by_id n (sorted_nodes f)

-- `State`
unfoldable pub state : Fake → ClusterState
unfolding sorted_nodes
state f = record {
  formed = ltb 0 (length f) && ltb_ℤ (pos 0) (assigned_slots f);
  slots_covered = eqb_ℤ (assigned_slots f) (pos total_slots);
  open_slots = false;
  nodes = sorted_nodes f;
}

-- `MyID`
unfoldable pub my_id : Endpoint → Fake → Text × Fake
my_id ep f = let (n, f') = ensure ep f in (n.id, f')

-- `Meet`
unfoldable pub meet : Endpoint → Endpoint → Fake → Fake
meet from target f = (ensure target (ensure from f).1).1

-- `AddSlots`
unfoldable pub add_slots : Endpoint → List SlotRange → Fake → Fake
add_slots primary ranges f =
    modify primary.host (λ n. record (make_primary n) { slots = n.slots ++ ranges })
      (ensure primary f).1

-- `Replicate`
unfoldable pub replicate : Endpoint → Text → Fake → Fake
replicate replica primary_id f =
    modify replica.host (λ n. record n { master_id = primary_id; flags = slave_flags; slots = [] })
      (ensure replica f).1

-- `Forget`
unfoldable pub forget : Text → Fake → Fake
forget node_id f = erase node_id f

-- `Failover` of a replica `r`, at the host `h`, with a master `m`
promote : Text → NodeInfo → NodeInfo → Fake → Fake
promote h r m f =
    modify r.master_id (λ n. record n { slots = []; master_id = r.id; flags = slave_flags })
      (modify h (λ n. record n { slots = m.slots; master_id = []; flags = master_flags }) f)

-- `Failover`
unfoldable pub failover : Endpoint → Fake → Fake
unfolding promote
failover replica f = elim (lookup replica.host f) [
  | none ↦ f
  | some r ↦
      if is_empty r.master_id
      then f
      else elim (lookup r.master_id f) [ none ↦ f | some m ↦ promote replica.host r m f ]
]

insert_text : Text → List Text → List Text
insert_text t [] = t ∷ []
insert_text t (u ∷ us) = if text_lt u t then u ∷ insert_text t us else t ∷ u ∷ us

-- the keys of the nodes that pass, sorted: `primaries`, and the owners in `Reshard`
unfoldable pub sorted_keys : (Text → NodeInfo → Bool) → Fake → List Text
unfolding insert_text
sorted_keys p [] = []
sorted_keys p ((j, n) ∷ f) =
    let rest = sorted_keys p f in if p j n then insert_text j rest else rest

-- an even split over the keys, of which there are `k`; `i` counts the rounds
unfoldable pub split_evenly : ℕ → ℕ → List Text → Fake → Fake
split_evenly k i [] f = f
split_evenly k i (id ∷ ids) f =
    split_evenly k (i + 1) ids (modify id (set_slots (shard_range k i ∷ [])) f)

-- `primaries`: the masters that are not excluded
abbrev pub eligible : List Text → Text → NodeInfo → Bool
eligible excluded id n = is_primary n && not (any (λ x. text_eq x id) excluded)

-- `Rebalance`; its second loop clears nodes that the first has cleared
unfoldable pub rebalance : RebalanceOpts → Fake → Fake
rebalance opts f = elim (sorted_keys (eligible opts.weight_zero_ids) f) [
  | [] ↦ f
  | id ∷ ids ↦ split_evenly (length (id ∷ ids)) 0 (id ∷ ids) (modify_all (set_slots []) f)
]

-- `countToRanges`
unfoldable pub count_to_ranges : ℤ → List SlotRange
count_to_ranges count =
    if leb_ℤ count (pos 0) then [] else record { start = pos 0; end = count -ℤ pos 1 } ∷ []

-- `n`, or the number of slots of the source if that is less
unfoldable pub movable : ℤ → NodeInfo → ℤ
movable n from = if ltb_ℤ (slot_count from) n then slot_count from else n

abbrev pub give_away : ℤ → NodeInfo → NodeInfo
give_away moved n = record n { slots = count_to_ranges (slot_count n -ℤ moved) }

abbrev pub take_over : ℤ → NodeInfo → NodeInfo
take_over moved n = record (make_primary n) { slots = count_to_ranges (slot_count n +ℤ moved) }

-- `MoveSlots`
unfoldable pub move_slots : Text → Text → ℤ → Fake → ℤ × Fake
move_slots from_id to_id n f = elim (lookup from_id f) [
  | none ↦ (pos 0, f)
  | some from ↦ elim (lookup to_id f) [
    | none ↦ (pos 0, f)
    | some to ↦ (
      movable n from,
      modify to_id (take_over (movable n from)) (modify from_id (give_away (movable n from)) f),
    )
  ]
]

-- `Reshard` with no source: an even split over the primaries that own slots and the target
resplit : Text → Fake → Fake
resplit to_id f =
    let f1 =
      modify to_id
        (λ n.
          if eqb_ℤ (slot_count n) (pos 0)
          then set_slots (record { start = pos 0; end = pos 0 } ∷ []) n
          else n)
        f in
    let owners = sorted_keys (λ _ n. is_primary n && ltb_ℤ (pos 0) (slot_count n)) f1 in
    split_evenly (length owners) 0 owners
      (modify_all (λ n. if is_primary n then set_slots [] n else n) f1)

-- `Reshard` once the target is a primary, from the node `from_id`
reshard_from : Text → Text → ℤ → Fake → Fake
reshard_from from_id to_id n f = elim (lookup from_id f) [
  | none ↦ f
  | some from ↦
      modify to_id (λ m. set_slots (count_to_ranges (slot_count m +ℤ movable n from)) m)
        (modify from_id (give_away (movable n from)) f)
]

-- `Reshard`
unfoldable pub reshard : Text → Text → ℤ → Fake → Fake
unfolding resplit reshard_from
reshard from_id to_id n f = elim (lookup to_id f) [
  | none ↦ f
  | some _ ↦
      let f0 = modify to_id make_primary f in
      if is_empty from_id then resplit to_id f0 else reshard_from from_id to_id n f0
]

-- `Fix`
unfoldable pub fix : Fake → Fake
fix f = rebalance (record { use_empty_masters = false; weight_zero_ids = [] }) f

-- `Fake` as a `ClusterAdmin`: no method fails, and `RepairSlots` does nothing
abbrev pub fake_admin : ClusterAdmin Fake
fake_admin = record {
  state = λ _ f. (ok (state f), f);
  my_id = λ ep f. let (id, f') = my_id ep f in (ok id, f');
  meet = λ from target f. (ok tt, meet from target f);
  add_slots = λ ep rs f. (ok tt, add_slots ep rs f);
  replicate = λ ep id f. (ok tt, replicate ep id f);
  forget = λ _ id f. (ok tt, forget id f);
  failover = λ ep f. (ok tt, failover ep f);
  rebalance = λ _ opts f. (ok tt, rebalance opts f);
  reshard = λ _ from to n f. (ok tt, reshard from to n f);
  move_slots = λ _ from to n f. let (m, f') = move_slots from to n f in (ok m, f');
  fix = λ _ f. (ok tt, fix f);
  repair_slots = λ _ f. (ok (pos 0), f);
}
