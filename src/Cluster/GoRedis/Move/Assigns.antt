-- ===== src/Cluster/GoRedis/Move/Assigns.antt =====
-- What `MoveSlots` brings about.
use valkeycluster_operator.Prelude.{
  ℕ, suc, ◌≡◌, refl, sym, subst, Option, some, none, List, [], ◌∷◌, inl, inr, arith, Has, true,
  Bool-cases,
}
use valkeycluster_operator.Prelude.Int.{ℤ, pos, pos_part, ◌≤ℤ◌}
use valkeycluster_operator.Text.{Text, codes}
use valkeycluster_operator.Exec.{ok, Result-cases}
use valkeycluster_operator.Exec.Keeps.{Keeps}
use valkeycluster_operator.Exec.Loops.{for_each_all}
use valkeycluster_operator.Cluster.{Endpoint, NodeInfo, is_primary}
use valkeycluster_operator.Cluster.Masters.{IsMaster, is_primary_iff}
use valkeycluster_operator.Cluster.Parse.{parse_nodes}
use valkeycluster_operator.Cluster.GoRedis.{Options, Admin, dial}
use valkeycluster_operator.Cluster.GoRedis.Move.{
  count_result, client_for, find_node, pick_slots, set_slot, migrate_keys_args, master_clients,
  assign_owner, clear_slot, move_slot, move_each, move_between, move_counted, move_slots,
}
use valkeycluster_operator.Cluster.GoRedis.Move.Pick.{take, all_slots, pick_slots-take}
use valkeycluster_operator.Cluster.GoRedis.Move.Sends.{MoveKeeps, move_each-Keeps}

-- `owner_at` is the owner of a slot as a node knows it: `SETSLOT NODE` that succeeds sets it, and no
-- command of a move takes it from the node that it names
pub record Owners {W : Type 0} (a : Admin W) (owner_at : W → Options → ℤ → Text) : Type 0 where
  pub assigned :
      (o : Options) (s : ℤ) (id : Text) (w : W)
      → let sent = a.client.do_command o (set_slot s (codes "NODE" ∷ id ∷ [])) w in
        sent.0 ≡ ok tt → owner_at sent.1 o s ≡ id
  pub assigning :
      (o p : Options) (s t : ℤ) (id : Text)
      → Keeps
          (λ w. owner_at w o s ≡ id)
          (a.client.do_command p (set_slot t (codes "NODE" ∷ id ∷ [])))
  pub reading :
      (o p : Options) (s t : ℤ) (id : Text) (count : ℕ)
      → Keeps (λ w. owner_at w o s ≡ id) (a.client.cluster_get_keys_in_slot p t count)
  pub importing :
      (o p : Options) (s t : ℤ) (id source : Text)
      → Keeps
          (λ w. owner_at w o s ≡ id)
          (a.client.do_command p (set_slot t (codes "IMPORTING" ∷ source ∷ [])))
  pub migrating :
      (o p : Options) (s t : ℤ) (id target : Text)
      → Keeps
          (λ w. owner_at w o s ≡ id)
          (a.client.do_command p (set_slot t (codes "MIGRATING" ∷ target ∷ [])))
  pub sending :
      (o p : Options) (s : ℤ) (id : Text) (to : NodeInfo) (keys : List Text)
      → Keeps (λ w. owner_at w o s ≡ id) (a.client.do_command p (migrate_keys_args to keys))

-- every primary is among those that are told
master_clients-Has :
    (n : NodeInfo) (nodes : List NodeInfo)
    → Has (λ q. q ≡ n) nodes
    → is_primary n ≡ true
    → Has (λ cl. cl ≡ client_for n) (master_clients nodes)
unfolding master_clients
master_clients-Has n [] i h = absurd i
master_clients-Has n (q ∷ nodes) (inl e) h = rw (e, h) (inl refl)
master_clients-Has n (q ∷ nodes) (inr later) h =
    let rest = master_clients-Has n nodes later h in
    elim (Bool-cases (is_primary q)) [ inl p ↦ rw p (inr rest) | inr p ↦ rw p rest ]

module _ {W : Type 0} (a : Admin W) (owner_at : W → Options → ℤ → Text) (laws : Owners a owner_at)
    (fuel : ℕ) where
  module _ (from to : NodeInfo) (masters : List Options) where
    -- the masters know the slot as the target's
    abbrev pub Given : ℤ → W → Type 0
    Given s w = (cl : Options) → Has (λ m. m ≡ cl) masters → owner_at w cl s ≡ to.id

    still :
        (o : Options) (s : ℤ) (slots : List ℤ)
        → MoveKeeps (λ w. owner_at w o s ≡ to.id) a from to masters slots
    still o s slots = record {
      reading = λ t _ count. laws.reading o (client_for from) s t to.id count;
      importing = λ t _. laws.importing o (client_for to) s t to.id from.id;
      migrating = λ t _. laws.migrating o (client_for from) s t to.id to.id;
      sending = λ t _ w keys _. laws.sending o (client_for from) s to.id to keys;
      owning = λ t _ cl _. laws.assigning o cl s t to.id;
    }

    assign_owner-Given :
        (s : ℤ) (w : W)
        → (assign_owner a masters to.id s w).0 ≡ ok tt
        → Given s (assign_owner a masters to.id s w).1
    unfolding assign_owner
    assign_owner-Given s w h =
        for_each_all (λ cl. a.client.do_command cl (set_slot s (codes "NODE" ∷ to.id ∷ [])))
          (λ cl v. owner_at v cl s ≡ to.id)
          (λ cl p v _ known. laws.assigning cl p s s to.id v known)
          (λ cl v sent. laws.assigned cl s to.id v sent) masters w h

    move_slot-Given :
        (s : ℤ) (w : W)
        → (move_slot a fuel from to masters s w).0 ≡ ok tt
        → Given s (move_slot a fuel from to masters s w).1
    unfolding move_slot
    move_slot-Given s w h =
        let probed = a.client.cluster_get_keys_in_slot (client_for from) s 1 w in
        elim (Result-cases probed.0) [
          | inr (e, failed) ↦ ground arith
          | inl (probe, got) ↦
              let cleared = clear_slot a fuel from to masters s probe probed.1 in
              elim (Result-cases cleared.0) [
                | inr (e, failed) ↦ ground arith
                | inl (_, done) ↦
                    λ cl i. ground (arith, assign_owner-Given s cleared.1 (ground arith) cl i)
              ]
        ]

    move_each-Given :
        (ss : List ℤ) (k : ℕ) (w : W)
        → (move_each a fuel from to masters ss k w).0.1 ≡ ok tt
        → (s : ℤ) → Has (λ t. t ≡ s) ss
        → Given s (move_each a fuel from to masters ss k w).1
    unfolding move_each
    move_each-Given [] k w h s i = elim i [ ]
    move_each-Given (t ∷ ss) k w h s i =
        let step = move_slot a fuel from to masters t w in
        elim (Result-cases step.0) [
          | inr (e, failed) ↦ ground arith
          | inl (_, moved) ↦ elim i [
            | inr later ↦ λ cl m.
                ground (arith, move_each-Given ss (suc k) step.1 (ground arith) s later cl m)
            | inl same ↦ λ cl m.
                let here : owner_at step.1 cl s ≡ to.id =
                  subst (λ u. owner_at step.1 cl u ≡ to.id) same (move_slot-Given t w moved cl m) in
                ground (
                  arith,
                  move_each-Keeps (λ v. owner_at v cl s ≡ to.id) a fuel from to masters ss
                      (still cl s ss) ss (suc k) (λ u j. j) step.1 here,
                )
          ]
        ]

  between-Given :
      (nodes : List NodeInfo) (source target : Option NodeInfo) (n : ℕ) (w : W) (m : ℤ)
      → let run = move_between a fuel nodes source target n w in
        count_result run.0 ≡ ok m
        → (from : NodeInfo) × (to : NodeInfo) × (source ≡ some from)
          × (target ≡ some to)
          × ((s : ℤ)
              → Has (λ t. t ≡ s) (take n (all_slots from.slots))
              → Given from to (master_clients nodes) s run.1)
  unfolding move_between
  between-Given nodes none target n w m h = ground arith
  between-Given nodes (some from) none n w m h = ground arith
  between-Given nodes (some from) (some to) n w m h =
      let picked = pick_slots from.slots n in
      let masters = master_clients nodes in
      let done : (move_each a fuel from to masters picked 0 w).0.1 ≡ ok tt = ground arith in
      (
        from,
        to,
        refl,
        refl,
        λ s i.
            move_each-Given from to masters picked 0 w done s
              (subst (Has (λ t. t ≡ s)) (sym ((pick_slots-take from.slots n).0)) i),
      )

  -- If SETSLOT NODE that succeeds makes a node know the owner, and no command of a move takes a slot
  -- from the node that it names: a call of `MoveSlots` for at least one slot that returns no error has
  -- found the source and the target among the nodes, and at its end every node among them that is
  -- flagged as a master, or names no master, knows the target as the owner of every slot that was to
  -- be moved.
  pub move_slots-Given :
      (seed : Endpoint) (from_id to_id : Text) (count m : ℤ) (w : W)
      → ¬ (count ≤ℤ pos 0)
      → let run = move_slots a fuel seed from_id to_id count w in
        run.0 ≡ ok m
        → (raw : Text) × (from : NodeInfo) × (to : NodeInfo) × ((a.client.cluster_nodes
              (dial seed)
              w).0
            ≡ ok raw)
          × (find_node from_id (parse_nodes raw) ≡ some from)
          × (find_node to_id (parse_nodes raw) ≡ some to)
          × ((s : ℤ)
              → Has (λ t. t ≡ s) (take (pos_part count) (all_slots from.slots))
              → (n : NodeInfo) → Has (λ q. q ≡ n) (parse_nodes raw)
              → IsMaster n
              → owner_at run.1 (client_for n) s ≡ to.id)
  unfolding move_slots move_counted
  move_slots-Given seed from_id to_id count m w some_asked h =
      let read = a.client.cluster_nodes (dial seed) w in
      elim (Result-cases read.0) [
        | inr (e, failed) ↦ ground arith
        | inl (raw, got) ↦
            let nodes = parse_nodes raw in
            let (from, to, source, target, given) =
              between-Given nodes (find_node from_id nodes) (find_node to_id nodes) (pos_part count)
                read.1 m (ground arith) in
            (
              raw,
              from,
              to,
              got,
              source,
              target,
              λ s i node j master.
                  let told = master_clients-Has node nodes j ((is_primary_iff node).1 master) in
                  ground (arith, given s i (client_for node) told),
            )
      ]
