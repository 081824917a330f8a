-- ===== src/Cluster/GoRedis/Move/Count.antt =====
-- What `MoveSlots` counts, and that its loops end.
use valkeycluster_operator.Prelude.{
  ℕ, zero, suc, ◌+◌, ◌≤◌, ◌<◌, ◌≡◌, ◌⊎◌, refl, ◌∙◌, ap, Option, none, some, List, [], ◌∷◌, inl, inr,
  arith, if◌then◌else◌, leb, length, Bool-cases,
}
use valkeycluster_operator.Prelude.Int.{ℤ, pos, pos_part, ◌≤ℤ◌, leb_ℤ}
use valkeycluster_operator.Text.{Text, codes}
use valkeycluster_operator.Exec.{Error, wrapped, Result, ok, err, Result-cases}
use valkeycluster_operator.Cluster.{Endpoint, NodeInfo}
use valkeycluster_operator.Cluster.Parse.{parse_nodes}
use valkeycluster_operator.Cluster.GoRedis.{Options, Admin, dial}
use valkeycluster_operator.Cluster.GoRedis.Move.Pick.{all_slots, pick_slots-take}
use valkeycluster_operator.Cluster.GoRedis.Move.{
  count_result, emptied, client_for, find_node, pick_slots, master_clients, migrate_keys_args,
  empty_slot, move_slot, move_each, move_between, move_counted, move_slots,
}

-- a round of the loop that empties a slot, from a world with keys in the slot: `MIGRATE` takes the keys
-- that were listed off the source, so that a round that succeeds leaves fewer of them
abbrev pub Shrinks : {W : Type 0} → Admin W → NodeInfo → NodeInfo → ℤ → (W → ℕ) → Type 0
Shrinks {W} a from to s keys_at =
    (k : Text) (ks : List Text) (w : W)
    → let asked = a.client.cluster_get_keys_in_slot (client_for from) s 128 w in
      let sent = a.client.do_command (client_for from) (migrate_keys_args to (k ∷ ks)) asked.1 in
      asked.0 ≡ ok (k ∷ ks) → sent.0 ≡ ok tt → keys_at sent.1 < keys_at w

module _ {W : Type 0} (a : Admin W) (fuel : ℕ) where
  -- the count rises by one for every slot, and stays below the end if a slot fails
  move_each-counts :
      (from to : NodeInfo) (masters : List Options) (ss : List ℤ) (k : ℕ) (w : W)
      → let (moved, r) = (move_each a fuel from to masters ss k w).0 in
        (r ≡ ok tt × (moved ≡ k + length ss))
        ⊎ ((e : Error) × (r ≡ err e) × (k ≤ moved) × (moved < k + length ss))
  unfolding move_each
  move_each-counts from to masters [] k w = inl (refl, omega arith)
  move_each-counts from to masters (s ∷ ss) k w =
      let step = move_slot a fuel from to masters s w in
      elim (Result-cases step.0) [
        | inr (e, failed) ↦ inr (e, ground arith, ground arith, ground arith)
        | inl (_, moved) ↦ elim (move_each-counts from to masters ss (suc k) step.1) [
          | inl (done, count) ↦ inl (ground arith, ground arith)
          | inr (e, failed, low, high) ↦ inr (e, ground arith, ground arith, ground arith)
        ]
      ]

  between-counts :
      (nodes : List NodeInfo) (source target : Option NodeInfo) (n : ℕ) (w : W) (m : ℤ)
      → count_result (move_between a fuel nodes source target n w).0 ≡ ok m
      → (from : NodeInfo) × (to : NodeInfo) × (source ≡ some from)
        × (target ≡ some to)
        × (m ≡ pos (length (pick_slots from.slots n)))
  unfolding move_between
  between-counts nodes none target n w m h = ground arith
  between-counts nodes (some from) none n w m h = ground arith
  between-counts nodes (some from) (some to) n w m h =
      elim (move_each-counts from to (master_clients nodes) (pick_slots from.slots n) 0 w) [
        | inl (done, count) ↦ (from, to, refl, refl, ground arith)
        | inr (e, failed, low, high) ↦ ground arith
      ]

  -- A call of `MoveSlots` that asks for at least one slot and returns no error has read the nodes, has
  -- found the source and the target among them, and reports as many slots as it asked for, or all
  -- that the source has if those are fewer.
  pub move_slots-reports :
      (seed : Endpoint) (from_id to_id : Text) (n m : ℤ) (w : W)
      → ¬ (n ≤ℤ pos 0)
      → (move_slots a fuel seed from_id to_id n w).0 ≡ ok m
      → (raw : Text) × (from : NodeInfo) × (to : NodeInfo) × ((a.client.cluster_nodes
            (dial seed)
            w).0
          ≡ ok raw)
        × (find_node from_id (parse_nodes raw) ≡ some from)
        × (find_node to_id (parse_nodes raw) ≡ some to)
        × (m
            ≡ pos (
                if leb (pos_part n) (length (all_slots from.slots))
                then pos_part n
                else length (all_slots from.slots)))
  unfolding move_slots move_counted
  move_slots-reports seed from_id to_id n m w some_asked h =
      let read = a.client.cluster_nodes (dial seed) w in
      elim (Result-cases read.0) [
        | inr (e, failed) ↦ ground arith
        | inl (raw, got) ↦
            let nodes = parse_nodes raw in
            let (from, to, source, target, count) =
              between-counts nodes (find_node from_id nodes) (find_node to_id nodes) (pos_part n)
                read.1 m (ground arith) in
            (
              raw,
              from,
              to,
              got,
              source,
              target,
              count ∙ ap pos ((pick_slots-take from.slots (pos_part n)).1),
            )
      ]

  -- What `MoveSlots` reports is never negative, and never more than it was asked for.
  pub move_slots_bounds :
      (seed : Endpoint) (from_id to_id : Text) (n m : ℤ) (w : W)
      → (move_slots a fuel seed from_id to_id n w).0 ≡ ok m
      → (pos 0 ≤ℤ m) × (pos_part m ≤ pos_part n)
  move_slots_bounds seed from_id to_id n m w h = elim (Bool-cases (leb_ℤ n (pos 0))) [
    | inl few ↦ unfold move_slots move_counted in ground arith
    | inr many ↦
        let (raw, from, to, _, _, _, count) =
          move_slots-reports seed from_id to_id n m w (λ x. ground arith) h in
        ground arith
  ]

module _ {W : Type 0} (a : Admin W) (from to : NodeInfo) (s : ℤ) (keys_at : W → ℕ)
    (shrinks : Shrinks a from to s keys_at) where
  -- With more fuel than the source has keys in the slot, the loop that empties the slot ends by
  -- itself: with an error, or because it has read that no key is left.
  pub empty_slot_ends :
      (fuel : ℕ) (w : W)
      → keys_at w < fuel
      → ((e : Error) × ((empty_slot a from to fuel s w).0 ≡ err e))
        ⊎ (((empty_slot a from to fuel s w).0 ≡ ok emptied)
            × ((v : W) × (a.client.cluster_get_keys_in_slot (client_for from) s 128 v
                  ≡ (ok [], (empty_slot a from to fuel s w).1))))
  unfolding empty_slot
  empty_slot_ends zero w h = absurd (omega arith)
  empty_slot_ends (suc f) w h = elim (Result-cases asked.0) [
    | inr (e, failed) ↦ inl (wrapped (codes "getkeysinslot") e, ground arith)
    | inl ([], none_left) ↦ inr (ground arith, (w, ground arith))
    | inl (k ∷ ks, got) ↦
        let sent = a.client.do_command (client_for from) (migrate_keys_args to (k ∷ ks)) asked.1 in
        elim (Result-cases sent.0) [
          | inr (e, failed) ↦ inl (wrapped (codes "migrate slot") e, ground arith)
          | inl (_, done) ↦
              let fewer : keys_at sent.1 < f = omega (arith, shrinks k ks w got done) in
              elim (empty_slot_ends f sent.1 fewer) [
                | inl (e, failed) ↦ inl (e, ground arith)
                | inr (ended_ok, (v, seen)) ↦ inr (ground arith, (v, ground arith))
              ]
        ]
  ]
    where
      asked : Result (List Text) × W
      asked = a.client.cluster_get_keys_in_slot (client_for from) s 128 w
