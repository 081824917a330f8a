-- ===== src/Cluster/GoRedis/Move.antt =====
-- internal/cluster/goredis.go: `MoveSlots`.
pub mod Pick
pub mod Count
pub mod Sends
pub mod Assigns
use valkeycluster_operator.Prelude.{
  ℕ, zero, suc, ◌+◌, ◌-◌, ⊤, Bool, true, false, Option, none, some, List, [], ◌∷◌, ◌++◌,
  if◌then◌else◌, leb, length,
}
use valkeycluster_operator.Prelude.Int.{ℤ, pos, pos_part, ◌+ℤ◌, leb_ℤ}
use valkeycluster_operator.Text.{Text, codes, text_eq}
use valkeycluster_operator.Text.Decimal.{itoa}
use valkeycluster_operator.Exec.{
  for_each, Exec, Error, cause, Result, ok, err, pure, raise, with_context, ◌>>=◌, ◌>>◌,
}
use valkeycluster_operator.Cluster.{Endpoint, SlotRange, NodeInfo, is_primary, range_count}
use valkeycluster_operator.Cluster.Parse.{parse_nodes}
use valkeycluster_operator.Cluster.GoRedis.{Options, Admin, options, dial, node_addr}

-- the loop that looks a node up by its ID: the last one that has it
unfoldable pub find_node : Text → List NodeInfo → Option NodeInfo
find_node id [] = none
find_node id (n ∷ ns) = elim (find_node id ns) [
  | some m ↦ some m
  | none ↦ if text_eq n.id id then some n else none
]

-- `clientFor`; the cache gives the client that a new one would be
unfoldable pub client_for : NodeInfo → Options
client_for n = options (node_addr n)

-- the inner loop over a range: `left` slots of it from `s` on, with room for `room` more
unfoldable pub pick_range : ℕ → ℤ → ℕ → List ℤ
pick_range zero s room = []
pick_range (suc left) s zero = []
pick_range (suc left) s (suc room) = s ∷ pick_range left (s +ℤ pos 1) room

-- the slots to move: the first ones of the ranges, as many as there is room for
unfoldable pub pick_slots : List SlotRange → ℕ → List ℤ
unfolding pick_range
pick_slots [] room = []
pick_slots (r ∷ rs) room =
    let got = pick_range (pos_part (range_count r)) r.start room in
    let more = got ++ pick_slots rs (room - length got) in
    if leb room (length got) then got else more

-- the clients of the masters
unfoldable pub master_clients : List NodeInfo → List Options
master_clients [] = []
master_clients (n ∷ ns) =
    let rest = master_clients ns in if is_primary n then client_for n ∷ rest else rest

abbrev pub set_slot : ℤ → List Text → List Text
set_slot s how = codes "CLUSTER" ∷ codes "SETSLOT" ∷ itoa s ∷ how

-- `MIGRATE` of several keys: no single key, database 0, five seconds, overwriting what is there
abbrev pub migrate_keys_args : NodeInfo → List Text → List Text
migrate_keys_args to keys =
    codes "MIGRATE"
    ∷ to.ip
    ∷ itoa to.port
    ∷ []
    ∷ codes "0"
    ∷ codes "5000"
    ∷ codes "REPLACE"
    ∷ codes "KEYS"
    ∷ keys

-- how the loop that empties a slot ends: no key is left, or the model's fuel is
pub data Emptying : Type 0 where
  emptied out_of_fuel : Emptying

-- a count and an error, both returned
abbrev pub Counted : Type 0 → Type 0
Counted W = W → (ℕ × Result ⊤) × W

-- what `ClusterAdmin` keeps of them: the count if there is no error
abbrev pub count_result : ℕ × Result ⊤ → Result ℤ
count_result (moved, ok _) = ok (pos moved)
count_result (moved, err e) = err e

unfoldable pub ended : {W : Type 0} → Emptying → Exec W ⊤
ended emptied = pure tt
ended out_of_fuel = raise (cause (codes "out of fuel"))

module _ {W : Type 0} (a : Admin W) where
  open a use {client}

  -- `assignOwner`
  unfoldable pub assign_owner : List Options → Text → ℤ → Exec W ⊤
  unfolding for_each
  assign_owner masters owner_id s =
      for_each masters (λ cl. client.do_command cl (set_slot s (codes "NODE" ∷ owner_id ∷ [])))

  -- the loop that moves the keys of a slot, up to 128 in a round
  unfoldable pub empty_slot : NodeInfo → NodeInfo → ℕ → ℤ → Exec W Emptying
  empty_slot from to zero s = pure out_of_fuel
  empty_slot from to (suc f) s = do
    keys ←
        with_context (codes "getkeysinslot")
          (client.cluster_get_keys_in_slot (client_for from) s 128)
    elim keys [
      | [] ↦ pure emptied
      | k ∷ ks ↦ do
        with_context (codes "migrate slot")
            (client.do_command (client_for from) (migrate_keys_args to (k ∷ ks)))
        empty_slot from to f s
    ]

module _ {W : Type 0} (a : Admin W) (fuel : ℕ) where
  open a use {client}

  module _ (from to : NodeInfo) (masters : List Options) where
    -- steps 1 and 2, of a slot that has keys
    unfoldable pub hand_over : ℤ → Exec W ⊤
    hand_over s = do
      with_context (codes "setslot importing")
          (client.do_command (client_for to) (set_slot s (codes "IMPORTING" ∷ from.id ∷ [])))
      with_context (codes "setslot migrating")
          (client.do_command (client_for from) (set_slot s (codes "MIGRATING" ∷ to.id ∷ [])))
      ending ← empty_slot a from to fuel s
      ended ending

    -- what a round of the loop over the slots does with the keys that it has probed
    unfoldable pub clear_slot : ℤ → List Text → Exec W ⊤
    clear_slot s [] = pure tt
    clear_slot s (_ ∷ _) = hand_over s

    -- one round of the loop over the slots, before its count
    unfoldable pub move_slot : ℤ → Exec W ⊤
    move_slot s = do
      probe ←
          with_context (codes "getkeysinslot")
            (client.cluster_get_keys_in_slot (client_for from) s 1)
      clear_slot s probe
      with_context (codes "setslot node") (assign_owner a masters to.id s)

    -- the loop over the slots, with the count of those that are moved
    unfoldable pub move_each : List ℤ → ℕ → Counted W
    move_each [] moved w = ((moved, ok tt), w)
    move_each (s ∷ ss) moved w =
        let (r, w') = move_slot s w in
        elim r [ err e ↦ ((moved, err e), w') | ok _ ↦ move_each ss (suc moved) w' ]

  -- `MoveSlots` once the nodes are read
  unfoldable pub move_between : List NodeInfo → Option NodeInfo → Option NodeInfo → ℕ → Counted W
  move_between nodes none to n w =
      ((0, err (cause (codes "move slots: from/to node not found"))), w)
  move_between nodes (some from) none n w =
      ((0, err (cause (codes "move slots: from/to node not found"))), w)
  move_between nodes (some from) (some to) n w =
      move_each from to (master_clients nodes) (pick_slots from.slots n) 0 w

  -- `MoveSlots`
  unfoldable pub move_counted : Endpoint → Text → Text → ℤ → Counted W
  unfolding move_between
  move_counted seed from_id to_id n w =
      if leb_ℤ n (pos 0)
      then ((0, ok tt), w)
      else let (r, w') = client.cluster_nodes (dial seed) w in
        elim r [
          | err e ↦ ((0, err e), w')
          | ok raw ↦
              let nodes = parse_nodes raw in
              move_between nodes (find_node from_id nodes) (find_node to_id nodes) (pos_part n) w'
        ]

  -- `MoveSlots` as its interface has it
  unfoldable pub move_slots : Endpoint → Text → Text → ℤ → Exec W ℤ
  unfolding move_counted
  move_slots seed from_id to_id n w =
      let (counted, w') = move_counted seed from_id to_id n w in (count_result counted, w')
