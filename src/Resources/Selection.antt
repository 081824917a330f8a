-- ===== src/Resources/Selection.antt =====
-- Which pods the selectors of the objects match.
use valkeycluster_operator.Prelude.{⊤, ℕ, ◌≡◌, ◌↔◌, none, some, List, [], ◌∷◌, arith}
use valkeycluster_operator.Prelude.Int.{pos}
use valkeycluster_operator.Text.{Text, text_eq}
use valkeycluster_operator.Text.Decimal.{itoa, format_nat_injective}
use valkeycluster_operator.Dict.{Dict, lookup, insert}
use valkeycluster_operator.Api.{ValkeyCluster}
use valkeycluster_operator.Resources.{common_labels, shard_labels, headless_service}
use valkeycluster_operator.Resources.Workload.{
  AffinityTerm, StatefulSet, pod_template, stateful_set,
}

-- `matchLabels` of Kubernetes: the object has every label of the selector
abbrev pub Matches : Dict Text → Dict Text → Type 0
Matches [] labels = ⊤
Matches ((k, v) ∷ sel) labels = (lookup k labels ≡ some v) × Matches sel labels

-- the labels that a StatefulSet selects its pods by
abbrev pub selected : StatefulSet → Dict Text
selected s = elim s.content.selector [ none ↦ [] | some sel ↦ sel ]

-- the pods that a pod should not share its host with
abbrev pub apart : List AffinityTerm → Dict Text
apart [] = []
apart (t ∷ _) = t.match_labels

module _ (digest : Text → Text) (cr other : ValkeyCluster) (i j : ℕ) where
  abbrev pods : Dict Text
  pods = (pod_template digest other (pos j)).labels

  both :
      ((some cr.name ≡ some other.name) × (some (itoa (pos i)) ≡ some (itoa (pos j))))
      ↔ ((cr.name ≡ other.name) × (i ≡ j))
  unfolding itoa
  both = ground (arith, format_nat_injective i j)

  -- Of the pods of two clusters, the StatefulSet of a shard selects those of its own cluster and shard and
  -- no others, a pod avoids the hosts of just these, and the headless service has all pods of its own
  -- cluster and no others.
  pub selectors_exact :
      (Matches (selected (stateful_set digest cr (pos i))) pods
        ↔ ((cr.name ≡ other.name) × (i ≡ j)))
      × (Matches (apart (pod_template digest cr (pos i)).anti_affinity) pods
          ↔ ((cr.name ≡ other.name) × (i ≡ j)))
      × (Matches (headless_service cr).content.selector pods ↔ (cr.name ≡ other.name))
  unfolding stateful_set pod_template headless_service shard_labels common_labels lookup insert
      text_eq
  selectors_exact = (ground (arith, both), ground (arith, both), ground arith)
