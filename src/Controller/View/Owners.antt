-- ===== src/Controller/View/Owners.antt =====
-- The masters that own slots, their replicas, and the node that a host stands for, in words that are
-- independent of the code's.
use valkeycluster_operator.Prelude.{
  ℕ, suc, ◌+◌, ◌≡◌, ◌≢◌, ◌↔◌, refl, sym, ◌∙◌, ◌⊎◌, Bool, true, false, not, ◌&&◌, some, inl, inr,
  List, [], ◌∷◌, arith, All, Bool-cases, if◌then◌else◌,
}
use mathlib.Core.Bool.{false≢true}
use valkeycluster_operator.Prelude.Int.{pos}
use valkeycluster_operator.Text.{Text, text_eq, text_eq_iff, is_empty}
use valkeycluster_operator.Dict.{Dict, lookup, insert, lookup-insert}
use valkeycluster_operator.Cluster.{NodeInfo, ClusterState, is_primary, slot_count}
use valkeycluster_operator.Cluster.Masters.{
  IsMaster, is_primary_iff, held, count_slots-held, positive,
}
use valkeycluster_operator.Controller.View.{
  index_by, host_index, owns_slots, replicas_of, count_owners,
}

-- a master with at least one slot
abbrev pub IsOwner : NodeInfo → Type 0
IsOwner n = IsMaster n × ((k : ℕ) × (held n.slots ≡ pos (suc k)))

abbrev pub IsReplicaOf : Text → NodeInfo → Type 0
IsReplicaOf id n = (¬ IsMaster n) × (n.master_id ≡ id)

-- exactly `c` of the nodes have the property
abbrev pub Counts : (NodeInfo → Type 0) → List NodeInfo → ℕ → Type 0
Counts P [] c = c ≡ 0
Counts P (n ∷ ns) c = (P n × ((b : ℕ) × (c ≡ suc b) × Counts P ns b)) ⊎ ((¬ P n) × Counts P ns c)

-- the node is the last one with the host
abbrev pub LastAt : Text → NodeInfo → List NodeInfo → Type 0
LastAt host n [] = ⊥
LastAt host n (m ∷ ms) =
    LastAt host n ms ⊎ ((m ≡ n) × (m.host ≡ host) × All (λ q. q.host ≢ host) ms)

pub owns_slots_iff : (n : NodeInfo) → (owns_slots n ≡ true) ↔ IsOwner n
unfolding owns_slots slot_count
owns_slots_iff n = (
  λ h.
      let (k, e) = positive (slot_count n) (ground arith) in
      ((is_primary_iff n).0 (ground arith), (k, sym (count_slots-held n.slots) ∙ e)),
  λ (master, (k, e)).
      let whole : slot_count n ≡ pos (suc k) = count_slots-held n.slots ∙ e in
      ground (arith, is_primary_iff n),
)

abbrev is_replica : Text → NodeInfo → Bool
is_replica id n = not (is_primary n) && not (is_empty n.master_id) && text_eq n.master_id id

nonempty : (t : Text) → t ≢ [] → is_empty t ≡ false
unfolding is_empty
nonempty [] h = absurd (h refl)
nonempty (c ∷ t) h = refl

is_replica_iff : (id : Text) (n : NodeInfo) → (is_replica id n ≡ true) ↔ IsReplicaOf id n
is_replica_iff id n = (
  λ h. (λ master. ground (arith, is_primary_iff n), (text_eq_iff n.master_id id).0 (ground arith)),
  λ (other, follows).
      let some_master = nonempty n.master_id (λ e. other (inr e)) in
      ground (arith, is_primary_iff n, text_eq_iff n.master_id id),
)

module _ (f : NodeInfo → Bool) (P : NodeInfo → Type 0) (exact : (n : NodeInfo) → (f n ≡ true) ↔ P n)
    (μ : List NodeInfo → ℕ) (empty : μ [] ≡ 0)
    (next : (n : NodeInfo) (ns : List NodeInfo) → μ (n ∷ ns) ≡ (if f n then 1 else 0) + μ ns) where
  counts_lem : (ns : List NodeInfo) (c : ℕ) → (μ ns ≡ c) ↔ Counts P ns c
  counts_lem [] c = (λ h. omega (arith, h, empty), λ h. omega (arith, h, empty))
  counts_lem (n ∷ ns) c = elim (Bool-cases (f n)) [
    | inl hit ↦
        let step : μ (n ∷ ns) ≡ suc (μ ns) = ground (arith, next n ns) in
        (
          λ h. inl ((exact n).0 hit, (μ ns, omega (arith, h, step), (counts_lem ns (μ ns)).0 refl)),
          λ h. elim h [
            | inl (_, (b, e, rest)) ↦ omega (arith, step, e, (counts_lem ns b).1 rest)
            | inr (other, _) ↦ absurd (other ((exact n).0 hit))
          ],
        )
    | inr miss ↦
        let step : μ (n ∷ ns) ≡ μ ns = ground (arith, next n ns) in
        let other : ¬ P n = λ p. false≢true (sym miss ∙ (exact n).1 p) in
        (
          λ h. inr (other, (counts_lem ns c).0 (sym step ∙ h)),
          λ h. elim h [
            | inl (p, _) ↦ absurd (other p)
            | inr (_, rest) ↦ step ∙ (counts_lem ns c).1 rest
          ],
        )
  ]

pub count_owners_iff : (ns : List NodeInfo) (c : ℕ) → (count_owners ns ≡ c) ↔ Counts IsOwner ns c
unfolding count_owners
count_owners_iff = counts_lem owns_slots IsOwner owns_slots_iff count_owners refl (λ n ns. refl)

pub replicas_of_iff :
    (id : Text) (ns : List NodeInfo) (c : ℕ)
    → (replicas_of id ns ≡ c) ↔ Counts (IsReplicaOf id) ns c
unfolding replicas_of
replicas_of_iff id =
    counts_lem (is_replica id) (IsReplicaOf id) (is_replica_iff id) (replicas_of id) refl
      (λ n ns. refl)

last_or :
    (t : Text) (v : NodeInfo) (ns : List NodeInfo) (m : Dict NodeInfo)
    → (lookup t (index_by (λ n. n.host) ns m) ≡ some v)
      ↔ (LastAt t v ns ⊎ (All (λ q. q.host ≢ t) ns × (lookup t m ≡ some v)))
unfolding index_by
last_or t v [] m = ground arith
last_or t v (n ∷ ns) m = elim (Bool-cases (text_eq n.host t)) [
  | inl same ↦
      ground (
        arith,
        last_or t v ns (insert n.host n m),
        lookup-insert n.host t n m,
        text_eq_iff n.host t,
      )
  | inr other ↦
      ground (
        arith,
        last_or t v ns (insert n.host n m),
        lookup-insert n.host t n m,
        text_eq_iff n.host t,
      )
]

pub host_index_iff :
    (t : Text) (v : NodeInfo) (s : ClusterState)
    → (lookup t (host_index s) ≡ some v) ↔ LastAt t v s.nodes
unfolding host_index lookup
host_index_iff t v s = ground (arith, last_or t v s.nodes [])
