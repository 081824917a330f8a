-- ===== src/Cluster/GoRedis/Repair.antt =====
-- internal/cluster/goredis.go: `RepairSlots`.
pub mod Sends
pub mod Converges
use valkeycluster_operator.Prelude.{
  ℕ, suc, ⊤, Bool, true, false, not, ◌&&◌, ◌||◌, Option, none, some, List, [], ◌∷◌, any,
  if◌then◌else◌,
}
use valkeycluster_operator.Prelude.Int.{ℤ, pos, leb_ℤ}
use valkeycluster_operator.Text.{Text, codes, text_eq, is_empty}
use valkeycluster_operator.Text.Decimal.{itoa}
use valkeycluster_operator.Exec.{for_each, Exec, Result, ok, err, pure, try, ignore, ◌>>=◌, ◌>>◌}
use valkeycluster_operator.Cluster.{Endpoint, SlotRange, NodeInfo, is_primary}
use valkeycluster_operator.Cluster.Parse.{parse_nodes}
use valkeycluster_operator.Cluster.GoRedis.{Options, Admin, dial}
use valkeycluster_operator.Cluster.GoRedis.Open.{collect_open_slots}
use valkeycluster_operator.Cluster.GoRedis.Move.{client_for, set_slot}

-- `slot >= r.Start && slot <= r.End`
abbrev pub holds : ℤ → SlotRange → Bool
holds slot r = leb_ℤ r.start slot && leb_ℤ slot r.end

-- `ownerOf`: the first node with the slot in a range
unfoldable pub owner_of : List NodeInfo → ℤ → Option NodeInfo
owner_of [] slot = none
owner_of (n ∷ ns) slot = elim (any (holds slot) n.slots) [
  | true ↦ some n
  | false ↦ owner_of ns slot
]

-- the owner, if it has an IP; an open slot without one is passed over
unfoldable pub repair_owner : List NodeInfo → ℤ → Option NodeInfo
repair_owner nodes slot = elim (owner_of nodes slot) [
  | none ↦ none
  | some o ↦ if is_empty o.ip then none else some o
]

-- a master other than the owner, with an IP: keys of the slot may be left on it
unfoldable pub may_stray : NodeInfo → NodeInfo → Bool
may_stray owner n = not (text_eq n.id owner.id || is_empty n.ip || not (is_primary n))

-- the keys that were read, or none
abbrev pub keys_or_none : Result (List Text) → List Text
keys_or_none (ok ks) = ks
keys_or_none (err _) = []

module _ {W : Type 0} (a : Admin W) where
  open a use {client}

  -- step 1 at one node: its keys of the slot go to the owner, one by one
  unfoldable pub rescue : NodeInfo → ℤ → NodeInfo → Exec W ⊤
  unfolding for_each
  rescue owner slot n =
      if may_stray owner n
      then (do
        got ← try (client.cluster_get_keys_in_slot (client_for n) slot 1000)
        for_each (keys_or_none got)
            (λ k. ignore (client.migrate (client_for n) owner.ip (itoa owner.port) k 0 10)))
      else pure tt

  -- step 2 at one node, if it is a master: the markers go and the owner is set
  unfoldable pub assert_owner : NodeInfo → ℤ → NodeInfo → Exec W ⊤
  assert_owner owner slot n =
      if is_primary n
      then (do
        ignore (client.do_command (client_for n) (set_slot slot (codes "STABLE" ∷ [])))
        ignore (client.do_command (client_for n) (set_slot slot (codes "NODE" ∷ owner.id ∷ []))))
      else pure tt

  -- one round of the loop over the open slots that have an owner
  unfoldable pub repair_slot : List NodeInfo → NodeInfo → ℤ → Exec W ⊤
  unfolding for_each
  repair_slot nodes owner slot = do
    for_each nodes (rescue owner slot)
    for_each nodes (assert_owner owner slot)

  -- the loop over the open slots, with the count of those that are repaired
  unfoldable pub repair_from : List NodeInfo → List ℤ → ℕ → Exec W ℤ
  repair_from nodes [] repaired = pure (pos repaired)
  repair_from nodes (s ∷ ss) repaired = elim (repair_owner nodes s) [
    | none ↦ repair_from nodes ss repaired
    | some owner ↦ do repair_slot nodes owner s; repair_from nodes ss (suc repaired)
  ]

  -- `RepairSlots`; with no open slot its loop has no round
  unfoldable pub repair_slots : Endpoint → Exec W ℤ
  repair_slots seed = do
    raw ← client.cluster_nodes (dial seed)
    let nodes = parse_nodes raw
    open_slots ← collect_open_slots a nodes
    repair_from nodes open_slots 0
