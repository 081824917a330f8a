-- ===== src/Controller/Cluster/Counted.antt =====
-- A table of pods on which the counts are right is one on which there is nothing left to do.
use valkeycluster_operator.Prelude.{
  List, [], ◌∷◌, ℕ, zero, suc, ◌<◌, ◌≡◌, refl, ap, sym, ◌∙◌, true, not, ◌&&◌, arith, if◌then◌else◌,
  All,
}
use mathlib.Core.Bool.{false≢true}
use valkeycluster_operator.Prelude.Int.{pos}
use valkeycluster_operator.Text.{Text, text_eq, is_empty}
use valkeycluster_operator.Api.{ValkeyCluster}
use valkeycluster_operator.Cluster.{is_primary, total_slots}
use valkeycluster_operator.Cluster.Fake.{Fake, assigned_slots, state}
use valkeycluster_operator.Cluster.Fake.Assign.{state-covered}
use valkeycluster_operator.Cluster.Fake.Sorted.{values, sum-state, All-state}
use valkeycluster_operator.Controller.{Kube}
use valkeycluster_operator.Controller.View.{owns_slots, replicas_of, count_owners}
use valkeycluster_operator.Controller.View.Summary.{IsSettled}
use valkeycluster_operator.Controller.Cluster.{desired_of}
use valkeycluster_operator.Controller.Cluster.Table.{Pod, host, table}
use valkeycluster_operator.Controller.Cluster.Attached.{led-Named, settled}
use valkeycluster_operator.Controller.Cluster.Named.{All-values}
use valkeycluster_operator.Controller.Cluster.Counts.{follower-owns_slots}

module _ (k : Kube Fake) (cr : ValkeyCluster) (ps : List Pod)
    (bounds : All (λ p. p.0 < cr.spec.shards) ps)
    (assigned : assigned_slots (table cr (settled k cr) ps) ≡ pos total_slots)
    (owners : count_owners (values (table cr (settled k cr) ps)) ≡ cr.spec.shards)
    (followers : (a : ℕ)
      → a < cr.spec.shards
      → replicas_of (host cr a 0) (values (table cr (settled k cr) ps))
        ≡ cr.spec.replicas_per_shard) where
  abbrev there : Fake
  there = table cr (settled k cr) ps

  replicas_state : (id : Text) → replicas_of id (state there).nodes ≡ replicas_of id (values there)
  replicas_state id =
      sum-state (replicas_of id)
        (λ n.
          if not (is_primary n) && not (is_empty n.master_id) && text_eq n.master_id id
          then 1
          else 0)
        (λ n ns. unfold replicas_of in refl) there

  replicas_at :
      (i j : ℕ)
      → i < cr.spec.shards
      → owns_slots (settled k cr i j) ≡ true
      → replicas_of (settled k cr i j).id (state there).nodes ≡ cr.spec.replicas_per_shard
  replicas_at i zero h owner =
      replicas_state (settled k cr i 0).id
      ∙ ap (λ t. replicas_of t (values there)) (led-Named k cr i 0)
      ∙ followers i h
  replicas_at i (suc j) h owner =
      absurd (false≢true (sym (follower-owns_slots k cr i (suc j) (omega arith)) ∙ owner))

  abbrev Right : Pod → Type 0
  Right p =
      owns_slots (settled k cr p.0 p.1) ≡ true
      → replicas_of (settled k cr p.0 p.1).id (state there).nodes ≡ cr.spec.replicas_per_shard

  each_holds : (qs : List Pod) → All (λ p. p.0 < cr.spec.shards) qs → All Right qs
  each_holds [] h = tt
  each_holds ((a, b) ∷ qs) h = (replicas_at a b h.0, each_holds qs h.1)

  replicas_hold :
      All
        (λ n.
          owns_slots n ≡ true → replicas_of n.id (state there).nodes ≡ cr.spec.replicas_per_shard)
        (state there).nodes
  replicas_hold = All-state _ there (All-values cr _ (settled k cr) ps (each_holds ps bounds))

  pub counted-IsSettled : IsSettled (desired_of cr) (state there)
  counted-IsSettled =
      let (is_formed, is_covered) = state-covered there assigned in
      record {
        formed = is_formed;
        covered = is_covered;
        stable = (unfold state in refl);
        shards =
            sum-state count_owners (λ n. if owns_slots n then 1 else 0)
              (λ n ns. unfold count_owners in refl) there
            ∙ owners;
        replicas = replicas_hold;
      }
