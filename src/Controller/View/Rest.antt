-- ===== src/Controller/View/Rest.antt =====
-- When `Decide` leaves an observed cluster alone, in words that are independent of the code's.
use valkeycluster_operator.Prelude.{
  ◌≡◌, ◌↔◌, refl, subst, true, inl, inr, List, [], ◌∷◌, Has, All, arith,
}
use valkeycluster_operator.Cluster.{NodeInfo, ClusterState}
use valkeycluster_operator.Topology.{Desired, decide, no_action}
use valkeycluster_operator.Controller.View.{owns_slots, replicas_of, summarize}
use valkeycluster_operator.Controller.View.Owners.{
  IsOwner, IsReplicaOf, Counts, owns_slots_iff, count_owners_iff, replicas_of_iff,
}
use valkeycluster_operator.Controller.View.Summary.{IsSettled, decide-summarize}

-- formed, covered, no slot open, as many masters with slots as declared shards, and for each of them as
-- many nodes that follow it as declared replicas
pub record IsAtRest (d : Desired) (s : ClusterState) : Type 0 where
  pub formed : s.formed ≡ true
  pub covered : s.slots_covered ≡ true
  pub stable : ¬ (s.open_slots ≡ true)
  pub shards : Counts IsOwner s.nodes d.shards
  pub replicas :
      (n : NodeInfo)
      → Has (λ m. m ≡ n) s.nodes
      → IsOwner n
      → Counts (IsReplicaOf n.id) s.nodes d.replicas_per_shard

All-each :
    (P : NodeInfo → Type 0) (ns : List NodeInfo)
    → All P ns ↔ ((n : NodeInfo) → Has (λ m. m ≡ n) ns → P n)
All-each P [] = (λ h n i. absurd i, λ h. tt)
All-each P (m ∷ ns) = (
  λ h n i. elim i [ inl e ↦ subst P e h.0 | inr j ↦ (All-each P ns).0 h.1 n j ],
  λ h. (h m (inl refl), (All-each P ns).1 (λ n j. h n (inr j))),
)

module _ (d : Desired) (s : ClusterState) where
  abbrev Right : NodeInfo → Type 0
  Right n = owns_slots n ≡ true → replicas_of n.id s.nodes ≡ d.replicas_per_shard

  same_conditions : IsSettled d s ↔ IsAtRest d s
  same_conditions = (
    λ h. record {
      formed = h.formed;
      covered = h.covered;
      stable = λ e. ground (arith, h.stable);
      shards = (count_owners_iff s.nodes d.shards).0 h.shards;
      replicas = λ n i owner.
          (replicas_of_iff n.id s.nodes d.replicas_per_shard).0
            ((All-each Right s.nodes).0 h.replicas n i ((owns_slots_iff n).1 owner));
    },
    λ h. record {
      formed = h.formed;
      covered = h.covered;
      stable = ground (arith, h.stable);
      shards = (count_owners_iff s.nodes d.shards).1 h.shards;
      replicas = (All-each Right s.nodes).1 (λ n i owner.
          (replicas_of_iff n.id s.nodes d.replicas_per_shard).1
            (h.replicas n i ((owns_slots_iff n).0 owner)));
    },
  )

  -- `Decide` finds nothing to do in the summary of a state exactly when the cluster is formed, every slot
  -- is covered and none is open, exactly as many nodes as declared shards are masters with at least
  -- one slot, and each of these is named as its master by exactly the declared number of other nodes
  -- that are no masters, connected or not. A master is a node that is flagged so or names no master.
  pub rests_iff : ((decide d (summarize s)).kind ≡ no_action) ↔ IsAtRest d s
  rests_iff =
      let (to, from) = decide-summarize d s in
      (λ h. same_conditions.0 (to h), λ h. from (same_conditions.1 h))
