-- ===== src/Cluster/GoRedis/Open/Sweep.antt =====
-- What the sweep over the nodes finds.
use valkeycluster_operator.Prelude.{
  ◌≡◌, refl, subst, sym, ◌∙◌, ◌⊎◌, ◌↔◌, true, List, [], ◌∷◌, inl, inr, arith, Has, Bool-cases, ltb,
  length,
}
use mathlib.Core.Bool.{false≢true}
use valkeycluster_operator.Prelude.Int.{ℤ}
use valkeycluster_operator.Text.{Text, fields}
use valkeycluster_operator.Exec.{Error, ok, err, Result-cases}
use valkeycluster_operator.Exec.Keeps.{Keeps}
use valkeycluster_operator.Cluster.{Endpoint, NodeInfo, ClusterState}
use valkeycluster_operator.Cluster.Parse.{parse_info, parse_nodes, parse_open_slots, add_slot}
use valkeycluster_operator.Cluster.GoRedis.Open.Reads.{
  IsFormed, IsCovered, IsHealthy, info_formed_iff, info_covered_iff, is_reachable_iff,
}
use valkeycluster_operator.Cluster.Parse.Open.{
  In, Distinct, Marked, add_slot-In, add_slot-Distinct, parse_open_slots-Marked,
}
use valkeycluster_operator.Cluster.GoRedis.{Options, Admin, dial}
use valkeycluster_operator.Cluster.GoRedis.Open.{
  is_reachable, sweep_options, add_all, collect_from, collect_open_slots, state, info_formed,
  info_covered,
}

add_all-In : (k : ℤ) (ss seen : List ℤ) → In k (add_all ss seen) ↔ (In k seen ⊎ In k ss)
unfolding add_all
add_all-In k [] seen = ground arith
add_all-In k (s ∷ ss) seen = ground (arith, add_all-In k ss (add_slot s seen), add_slot-In k s seen)

add_all-Distinct : (ss seen : List ℤ) → Distinct seen → Distinct (add_all ss seen)
unfolding add_all
add_all-Distinct [] seen d = d
add_all-Distinct (s ∷ ss) seen d =
    add_all-Distinct ss (add_slot s seen) (add_slot-Distinct s seen d)

module _ {W : Type 0} (a : Admin W) where
  pub collect_from-Keeps :
      (P : W → Type 0) (nodes : List NodeInfo) (seen : List ℤ)
      → ((n : NodeInfo)
          → is_reachable n ≡ true
          → Keeps P (a.client.cluster_nodes (sweep_options n)))
      → Keeps P (collect_from a nodes seen)
  unfolding collect_from
  collect_from-Keeps P [] seen h w p = p
  collect_from-Keeps P (n ∷ ns) seen h w p = elim (Bool-cases (is_reachable n)) [
    | inr dead ↦ ground (arith, collect_from-Keeps P ns seen h w p)
    | inl live ↦
        let got = a.client.cluster_nodes (sweep_options n) w in
        elim (Result-cases got.0) [
          | inr (e, failed) ↦ ground (arith, h n live w p, collect_from-Keeps P ns seen h got.1)
          | inl (raw, read) ↦ ground (
            arith,
            h n live w p,
            collect_from-Keeps P ns (add_all (parse_open_slots raw) seen) h got.1,
          )
        ]
  ]

  pub collect_from_ok :
      (nodes : List NodeInfo) (seen : List ℤ) (w : W)
      → (found : List ℤ) × ((collect_from a nodes seen w).0 ≡ ok found)
  unfolding collect_from
  collect_from_ok [] seen w = (seen, refl)
  collect_from_ok (n ∷ ns) seen w = elim (Bool-cases (is_reachable n)) [
    | inr dead ↦ let (found, run) = collect_from_ok ns seen w in (found, ground arith)
    | inl live ↦
        let got = a.client.cluster_nodes (sweep_options n) w in
        elim (Result-cases got.0) [
          | inr (e, failed) ↦
              let (found, run) = collect_from_ok ns seen got.1 in (found, ground arith)
          | inl (raw, read) ↦
              let (found, run) = collect_from_ok ns (add_all (parse_open_slots raw) seen) got.1 in
              (found, ground arith)
        ]
  ]

  -- the node is connected, without a flag that says that it fails, may fail or has no address, and its
  -- reply shows a marker of the slot
  abbrev pub Shows : W → ℤ → NodeInfo → Type 0
  Shows w k n =
      IsHealthy n
      × ((raw : Text) × ((a.client.cluster_nodes (sweep_options n) w).0 ≡ ok raw)
          × Marked k (fields raw))

  Shows-err :
      (w : W) (k : ℤ) (n : NodeInfo) (e : Error)
      → (a.client.cluster_nodes (sweep_options n) w).0 ≡ err e
      → ¬ (Shows w k n)
  Shows-err w k n e failed (live, (raw, read, marked)) = cc

  Shows-ok :
      (w : W) (k : ℤ) (n : NodeInfo) (raw : Text)
      → IsHealthy n
      → (a.client.cluster_nodes (sweep_options n) w).0 ≡ ok raw
      → Shows w k n ↔ Marked k (fields raw)
  Shows-ok w k n raw live read = (
    λ (_, (other, seen, marked)). subst (λ (t : Text). Marked k (fields t)) (cc) marked,
    λ marked. (live, (raw, read, marked)),
  )

  module _ (reads : (o : Options) (w : W) → (a.client.cluster_nodes o w).1 ≡ w) where
    collect_from-In :
        (nodes : List NodeInfo) (seen : List ℤ) (w : W)
        → (found : List ℤ) × (collect_from a nodes seen w ≡ (ok found, w))
          × (Distinct seen → Distinct found)
          × ((k : ℤ) → In k found ↔ (In k seen ⊎ Has (Shows w k) nodes))
    unfolding collect_from
    collect_from-In [] seen w = (seen, refl, λ d. d, λ k. ground arith)
    collect_from-In (n ∷ ns) seen w = elim (Bool-cases (is_reachable n)) [
      | inr dead ↦
          let (found, run, distinct, exact) = collect_from-In ns seen w in
          let ill : ¬ (IsHealthy n) = λ h. false≢true (sym dead ∙ (is_reachable_iff n).1 h) in
          (found, ground arith, distinct, λ k. ground (arith, exact k, ill))
      | inl live ↦
          let got = a.client.cluster_nodes (sweep_options n) w in
          elim (Result-cases got.0) [
            | inr (e, failed) ↦
                let (found, run, distinct, exact) = collect_from-In ns seen w in
                (
                  found,
                  ground (arith, reads (sweep_options n) w),
                  distinct,
                  λ k. ground (arith, exact k, Shows-err w k n e failed),
                )
            | inl (raw, read) ↦
                let more = add_all (parse_open_slots raw) seen in
                let (found, run, distinct, exact) = collect_from-In ns more w in
                (
                  found,
                  ground (arith, reads (sweep_options n) w),
                  λ d. distinct (add_all-Distinct (parse_open_slots raw) seen d),
                  λ k. ground (
                    arith,
                    exact k,
                    add_all-In k (parse_open_slots raw) seen,
                    (parse_open_slots-Marked raw).1 k,
                    Shows-ok w k n raw ((is_reachable_iff n).0 live) read,
                  ),
                )
          ]
    ]

    -- If reading the nodes leaves the world as it is: the sweep always succeeds, and finds every slot
    -- once, namely those of which some connected and healthy node shows a marker in its own reply. A
    -- node that is not asked, or does not answer, hides nothing of the others.
    pub collect_open_slots-Shows :
        (nodes : List NodeInfo) (w : W)
        → (found : List ℤ) × (collect_open_slots a nodes w ≡ (ok found, w))
          × Distinct found
          × ((k : ℤ) → In k found ↔ Has (Shows w k) nodes)
    unfolding collect_open_slots
    collect_open_slots-Shows nodes w =
        let (found, run, distinct, exact) = collect_from-In nodes [] w in
        (found, run, distinct tt, λ k. ground (arith, exact k))

    some_found :
        (found : List ℤ) (nodes : List NodeInfo) (w : W)
        → ((k : ℤ) → In k found ↔ Has (Shows w k) nodes)
        → (ltb 0 (length found) ≡ true) ↔ ((k : ℤ) × Has (Shows w k) nodes)
    some_found [] nodes w exact = (λ h. ground arith, λ (k, h). absurd ((exact k).1 h))
    some_found (k ∷ found) nodes w exact = (λ h. (k, (exact k).0 (inl refl)), λ h. ground arith)

    -- Where CLUSTER INFO and CLUSTER NODES of the seed answer, and reading leaves the world as it is,
    -- `State` succeeds: the cluster is formed exactly if the first reply has a cluster_state and a
    -- positive number of assigned slots, and covered exactly if its cluster_state is ok and that
    -- number is 16384; the nodes are as the second reply says; and slots are open exactly if some node
    -- that is connected, and flagged neither as failing nor as having no address, shows a marker in
    -- its own reply.
    pub state-Shows :
        (seed : Endpoint) (w : W) (info raw : Text)
        → a.client.cluster_info (dial seed) w ≡ (ok info, w)
        → (a.client.cluster_nodes (dial seed) w).0 ≡ ok raw
        → (s : ClusterState) × (state a seed w ≡ (ok s, w))
          × ((s.formed ≡ true) ↔ IsFormed (parse_info info))
          × ((s.slots_covered ≡ true) ↔ IsCovered (parse_info info))
          × (s.nodes ≡ parse_nodes raw)
          × ((s.open_slots ≡ true) ↔ ((k : ℤ) × Has (Shows w k) (parse_nodes raw)))
    unfolding state
    state-Shows seed w info raw informed read =
        let (found, run, _, exact) = collect_open_slots-Shows (parse_nodes raw) w in
        (
          record {
            formed = info_formed (parse_info info);
            slots_covered = info_covered (parse_info info);
            open_slots = ltb 0 (length found);
            nodes = parse_nodes raw;
          },
          ground (arith, reads (dial seed) w),
          info_formed_iff (parse_info info),
          info_covered_iff (parse_info info),
          refl,
          some_found found (parse_nodes raw) w exact,
        )
