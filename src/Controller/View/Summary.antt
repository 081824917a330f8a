-- ===== src/Controller/View/Summary.antt =====
-- When the reconciler has nothing left to do.
use valkeycluster_operator.Prelude.{
  ℕ, ◌<◌, ◌≡◌, ◌≢◌, sym, ◌∙◌, inl, inr, ◌↔◌, true, false, List, [], ◌∷◌, arith, All, Bool-cases,
}
use mathlib.Core.Bool.{false≢true}
use valkeycluster_operator.Cluster.{NodeInfo, ClusterState}
use valkeycluster_operator.Topology.{Desired, decide, scale_replicas, no_action}
use valkeycluster_operator.Topology.Precedence.{Decides, rests, scales_replicas, decide_iff}
use valkeycluster_operator.Controller.View.{
  owns_slots, replicas_of, count_owners, owner_replicas, summarize,
}

-- the cluster is formed, stable and covered, as many masters own slots as shards are declared, and
-- each of them has the declared number of replicas
pub record IsSettled (d : Desired) (s : ClusterState) : Type 0 where
  pub formed : s.formed ≡ true
  pub covered : s.slots_covered ≡ true
  pub stable : s.open_slots ≡ false
  pub shards : count_owners s.nodes ≡ d.shards
  pub replicas :
      All (λ n. owns_slots n ≡ true → replicas_of n.id s.nodes ≡ d.replicas_per_shard) s.nodes

owner_replicas_yes :
    (n : NodeInfo) (ns all : List NodeInfo)
    → owns_slots n ≡ true
    → owner_replicas (n ∷ ns) all ≡ replicas_of n.id all ∷ owner_replicas ns all
unfolding owner_replicas
owner_replicas_yes n ns all h = ground arith

owner_replicas_no :
    (n : NodeInfo) (ns all : List NodeInfo)
    → owns_slots n ≡ false
    → owner_replicas (n ∷ ns) all ≡ owner_replicas ns all
unfolding owner_replicas
owner_replicas_no n ns all h = ground arith

-- the counts match the declared number exactly when each owner has that many replicas
owner_replicas_match :
    (want : ℕ) (ns all : List NodeInfo)
    → All (λ rc. rc ≡ want) (owner_replicas ns all)
      ↔ All (λ n. owns_slots n ≡ true → replicas_of n.id all ≡ want) ns
owner_replicas_match want [] all = unfold owner_replicas in (λ h. tt, λ h. tt)
owner_replicas_match want (n ∷ ns) all =
    let (to, from) = owner_replicas_match want ns all in
    elim (Bool-cases (owns_slots n)) [
      | inl owner ↦
          rw (owner_replicas_yes n ns all owner)
            (λ h. ((λ _. h.0), to h.1), λ h. (h.0 owner, from h.1))
      | inr other ↦
          rw (owner_replicas_no n ns all other)
            (λ h. ((λ o. absurd (false≢true (sym other ∙ o))), to h), λ h. from h.1)
    ]

-- `Decide` finds nothing to do in the summary of a state exactly when the state is settled: formed,
-- covered, with no open slot, with as many slot-owning masters as declared shards, each with the
-- declared number of replicas.
pub decide-summarize :
    (d : Desired) (s : ClusterState) → ((decide d (summarize s)).kind ≡ no_action) ↔ IsSettled d s
unfolding summarize
decide-summarize d s = (
  (λ e. settled ((decide_iff d (summarize s) no_action).0 e)),
  (λ h. (decide_iff d (summarize s) no_action).1 (
      rests h.formed (ground arith) h.shards
        ((owner_replicas_match d.replicas_per_shard s.nodes s.nodes).1 h.replicas))),
)
  where
    settled : Decides d (summarize s) no_action → IsSettled d s
    settled (rests f c e m) = record {
      formed = f;
      covered = ground arith;
      stable = ground arith;
      shards = e;
      replicas = (owner_replicas_match d.replicas_per_shard s.nodes s.nodes).0 m;
    }

same_count :
    (a b : ℕ) (ns all : List NodeInfo)
    → All (λ n. owns_slots n ≡ true → replicas_of n.id all ≡ a) ns
    → All (λ n. owns_slots n ≡ true → replicas_of n.id all ≡ b) ns
    → 0 < count_owners ns
    → a ≡ b
unfolding count_owners
same_count a b [] all g h some_owner = ground arith
same_count a b (n ∷ ns) all g h some_owner = elim (Bool-cases (owns_slots n)) [
  | inl owner ↦ sym (g.0 owner) ∙ h.0 owner
  | inr other ↦ same_count a b ns all g.1 h.1 (ground arith)
]

-- a state that is settled but for the number of replicas
pub rescaled_lem :
    (d : Desired) (r : ℕ) (s : ClusterState)
    → 0 < d.shards
    → r ≢ d.replicas_per_shard
    → IsSettled (record d { replicas_per_shard = r }) s
    → (decide d (summarize s)).kind ≡ scale_replicas
unfolding summarize
rescaled_lem d r s some_shard other h = (decide_iff d (summarize s) scale_replicas).1 (
    scales_replicas h.formed (ground arith) h.shards (λ m. other (
      same_count r d.replicas_per_shard s.nodes s.nodes h.replicas
        ((owner_replicas_match d.replicas_per_shard s.nodes s.nodes).0 m)
        (omega (arith, h.shards)))))
