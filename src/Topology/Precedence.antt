-- ===== src/Topology/Precedence.antt =====
-- Which action is decided when, as a relation that names every condition.
use valkeycluster_operator.Prelude.{
  ℕ, ◌+◌, ◌<◌, ◌≡◌, ◌≢◌, refl, ◌⊎◌, inl, inr, ◌↔◌, true, false, List, [], ◌∷◌, arith, All, ◌==◌,
  Bool-cases, ==_iff, sym, ◌∙◌, ltb, subst,
}
use mathlib.Core.Bool.{false≢true}
use valkeycluster_operator.Topology.{
  Desired, Observed, ActionKind, form, repair, scale_out_shards, scale_in_shards, scale_replicas,
  no_action, decide, decide_stable, decide_replicas,
}

-- every shard has the wanted number of replicas
abbrev pub ReplicasMatch : Desired → Observed → Type 0
ReplicasMatch d o = All (λ rc. rc ≡ d.replicas_per_shard) o.replica_counts

-- the documented order of precedence
pub data Decides (d : Desired) (o : Observed) : ActionKind → Type 0 where
  forms : o.formed ≡ false → Decides d o form
  repairs : o.formed ≡ true → o.slots_covered ≡ false → Decides d o repair
  scales_out :
      o.formed ≡ true
      → o.slots_covered ≡ true
      → o.primary_count < d.shards
      → Decides d o scale_out_shards
  scales_in :
      o.formed ≡ true
      → o.slots_covered ≡ true
      → d.shards < o.primary_count
      → Decides d o scale_in_shards
  scales_replicas :
      o.formed ≡ true
      → o.slots_covered ≡ true
      → o.primary_count ≡ d.shards
      → ¬ ReplicasMatch d o
      → Decides d o scale_replicas
  rests :
      o.formed ≡ true
      → o.slots_covered ≡ true
      → o.primary_count ≡ d.shards
      → ReplicasMatch d o
      → Decides d o no_action

decide_replicas_cases :
    (want : ℕ) (l : List ℕ)
    → ((decide_replicas want l).kind ≡ no_action) × All (λ rc. rc ≡ want) l
      ⊎ ((decide_replicas want l).kind ≡ scale_replicas) × (¬ All (λ rc. rc ≡ want) l)
unfolding decide_replicas
decide_replicas_cases want [] = inl (refl, tt)
decide_replicas_cases want (rc ∷ l) = elim (Bool-cases (rc == want)) [
  | inl same ↦ rw same (elim (decide_replicas_cases want l) [
    | inl (k, all) ↦ inl (k, ((==_iff rc want).0 same, all))
    | inr (k, off) ↦ inr (k, λ all. off all.1)
  ])
  | inr differs ↦
      rw differs (inr (refl, λ all. absurd (false≢true (sym differs ∙ (==_iff rc want).1 all.0))))
]

decide_replicas_amounts :
    (want : ℕ) (l : List ℕ)
    → ((decide_replicas want l).add_shards ≡ 0)
      × ((decide_replicas want l).remove_shards ≡ 0)
      × ((decide_replicas want l).kind ≢ scale_out_shards)
      × ((decide_replicas want l).kind ≢ scale_in_shards)
unfolding decide_replicas
decide_replicas_amounts want [] = ground arith
decide_replicas_amounts want (rc ∷ l) = ground (arith, decide_replicas_amounts want l)

-- the part of `Decide` behind the stability gate
stable :
    (d : Desired) (o : Observed)
    → o.formed ≡ true
    → o.slots_covered ≡ true
    → Decides d o (decide_stable d o).kind
unfolding decide_stable
stable d o f c = elim (Bool-cases (ltb o.primary_count d.shards)) [
  | inl more ↦ rw more (scales_out f c (ground arith))
  | inr enough ↦ rw enough (elim (Bool-cases (ltb d.shards o.primary_count)) [
    | inl fewer ↦ rw fewer (scales_in f c (ground arith))
    | inr same ↦
        rw same
          (settle (ground arith) (decide_replicas_cases d.replicas_per_shard o.replica_counts))
  ])
]
  where
    settle :
        o.primary_count ≡ d.shards
        → ((decide_replicas d.replicas_per_shard o.replica_counts).kind ≡ no_action)
            × ReplicasMatch d o
          ⊎ ((decide_replicas d.replicas_per_shard o.replica_counts).kind ≡ scale_replicas)
            × (¬ ReplicasMatch d o)
        → Decides d o (decide_replicas d.replicas_per_shard o.replica_counts).kind
    settle e (inl (k, all)) = rw k (rests f c e all)
    settle e (inr (k, off)) = rw k (scales_replicas f c e off)

decide-eq-stable :
    (d : Desired) (o : Observed)
    → o.formed ≡ true
    → o.slots_covered ≡ true
    → (decide d o).kind ≡ (decide_stable d o).kind
unfolding decide
decide-eq-stable d o f c = ground arith

decide_unformed : (d : Desired) (o : Observed) → o.formed ≡ false → (decide d o).kind ≡ form
unfolding decide
decide_unformed d o f = ground arith

decide_uncovered :
    (d : Desired) (o : Observed)
    → o.formed ≡ true
    → o.slots_covered ≡ false
    → (decide d o).kind ≡ repair
unfolding decide
decide_uncovered d o f c = ground arith

decide_sound : (d : Desired) (o : Observed) → Decides d o (decide d o).kind
decide_sound d o = elim (Bool-cases o.formed) [
  | inr f ↦ subst (Decides d o) (sym (decide_unformed d o f)) (forms f)
  | inl f ↦ elim (Bool-cases o.slots_covered) [
    | inr c ↦ subst (Decides d o) (sym (decide_uncovered d o f c)) (repairs f c)
    | inl c ↦ subst (Decides d o) (sym (decide-eq-stable d o f c)) (stable d o f c)
  ]
]

decide_complete :
    {d : Desired} {o : Observed} {k : ActionKind} → Decides d o k → (decide d o).kind ≡ k
unfolding decide decide_stable
decide_complete (forms a) = ground arith
decide_complete (repairs a b) = ground arith
decide_complete (scales_out a b c) = ground arith
decide_complete (scales_in a b c) = ground arith
decide_complete {d} {o} (scales_replicas a b c off) =
    ground (arith, decide_replicas_cases d.replicas_per_shard o.replica_counts)
decide_complete {d} {o} (rests a b c all) =
    ground (arith, decide_replicas_cases d.replicas_per_shard o.replica_counts)

-- `Decide` picks an action exactly when the documented order of precedence gives it: form while
-- unformed, then repair while uncovered, then add or remove shards, then adjust replicas, and
-- nothing when the observed topology is the declared one.
pub decide_iff :
    (d : Desired) (o : Observed) (k : ActionKind) → ((decide d o).kind ≡ k) ↔ Decides d o k
decide_iff d o k = (λ e. subst (Decides d o) e (decide_sound d o), decide_complete)

-- The shards to add or to remove make up the difference to the declared number, and are zero for
-- every other action.
pub decide_amounts :
    (d : Desired) (o : Observed)
    → let p = decide d o in
      (p.kind ≡ scale_out_shards → (o.primary_count + p.add_shards ≡ d.shards) × (0 < p.add_shards))
      × (p.kind ≡ scale_in_shards
          → (d.shards + p.remove_shards ≡ o.primary_count) × (0 < p.remove_shards))
      × (p.kind ≢ scale_out_shards → p.add_shards ≡ 0)
      × (p.kind ≢ scale_in_shards → p.remove_shards ≡ 0)
unfolding decide decide_stable
decide_amounts d o = ground (arith, decide_replicas_amounts d.replicas_per_shard o.replica_counts)
