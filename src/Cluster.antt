-- ===== src/Cluster.antt =====
-- internal/cluster/admin.go: the observed cluster, and the interface of the operations on it.
-- Go's `int` is ℤ, with no wrap-around: the numbers are ports, slots and counts of slots.
pub mod Masters
pub mod Parse
pub mod Admin
pub mod Fake
pub mod GoRedis
use valkeycluster_operator.Prelude.{
  ℕ, Bool, true, false, Option, none, some, List, [], ◌∷◌, ◌++◌, ◌&&◌, any,
}
use valkeycluster_operator.Prelude.Int.{ℤ, pos, ◌+ℤ◌, ◌-ℤ◌}
use valkeycluster_operator.Text.{Text, codes, text_eq, is_empty}
use valkeycluster_operator.Text.Decimal.{itoa}

abbrev pub total_slots : ℕ
total_slots = 16384

-- an inclusive range of slots
pub record SlotRange : Type 0 where
  pub start : ℤ
  pub end : ℤ

pub record Endpoint : Type 0 where
  pub host : Text
  pub port : ℤ
  pub pod_name : Text
  pub namespace : Text

-- `Endpoint.Addr`
unfoldable pub addr : Endpoint → Text
addr e = e.host ++ b':' ∷ itoa e.port

pub record NodeInfo : Type 0 where
  pub id : Text
  pub host : Text
  pub ip : Text
  pub port : ℤ
  pub flags : List Text
  pub master_id : Text
  pub slots : List SlotRange
  pub connected : Bool

-- `HasFlag`
unfoldable pub has_flag : NodeInfo → Text → Bool
has_flag n flag = any (λ f. text_eq f flag) n.flags

-- `IsPrimary`
unfoldable pub is_primary : NodeInfo → Bool
is_primary n = elim (any (λ f. text_eq f (codes "master")) n.flags) [
  | true ↦ true
  | false ↦ is_empty n.master_id
]

unfoldable pub range_count : SlotRange → ℤ
range_count r = r.end -ℤ r.start +ℤ pos 1

-- the loop of `SlotCount`
unfoldable pub count_slots : List SlotRange → ℤ
unfolding range_count
count_slots [] = pos 0
count_slots (r ∷ rs) = range_count r +ℤ count_slots rs

-- `SlotCount`
unfoldable pub slot_count : NodeInfo → ℤ
slot_count n = count_slots n.slots

pub record ClusterState : Type 0 where
  pub formed : Bool
  pub slots_covered : Bool
  pub open_slots : Bool
  pub nodes : List NodeInfo

find_primary : Text → List NodeInfo → Option NodeInfo
find_primary id [] = none
find_primary id (n ∷ ns) = elim (text_eq n.id id && is_primary n) [
  | true ↦ some n
  | false ↦ find_primary id ns
]

-- `PrimaryByNodeID`
unfoldable pub primary_by_node_id : ClusterState → Text → Option NodeInfo
unfolding find_primary
primary_by_node_id s id = find_primary id s.nodes

pub record RebalanceOpts : Type 0 where
  pub use_empty_masters : Bool
  pub weight_zero_ids : List Text
