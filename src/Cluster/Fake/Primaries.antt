-- ===== src/Cluster/Fake/Primaries.antt =====
-- `primaries` picks the keys of primaries, so that an even split over them keeps well-formedness.
use valkeycluster_operator.Prelude.{
  ℕ, ◌+◌, ◌≡◌, refl, ◌∙◌, inl, inr, Bool, true, none, some, List, [], ◌∷◌, length, arith, All,
  Bool-cases, Option-cases,
}
use valkeycluster_operator.Text.{Text, text_eq_iff, text_lt}
use valkeycluster_operator.Dict.{lookup, IsMap}
use valkeycluster_operator.Slots.{shard_range}
use valkeycluster_operator.Cluster.{SlotRange, NodeInfo, RebalanceOpts, is_primary}
use valkeycluster_operator.Cluster.Fake.{
  Fake, modify, modify_all, set_slots, sorted_keys, insert_text, split_evenly, eligible, rebalance,
}
use valkeycluster_operator.Cluster.Fake.Slots.{lookup-modify}
use valkeycluster_operator.Cluster.Fake.Invariant.{
  IsValid, lookup-modify_all, modify_all-IsMap, modify_all-All, modify-IsValid,
}

-- the keys that `sorted_keys` picks are those of primaries
insert_text-All :
    (P : Text → Type 0) (t : Text) (us : List Text) → P t → All P us → All P (insert_text t us)
unfolding insert_text
insert_text-All P t [] h a = (h, tt)
insert_text-All P t (u ∷ us) h a = elim (Bool-cases (text_lt u t)) [
  | inl e ↦ rw e (a.0, insert_text-All P t us h a.1)
  | inr e ↦ rw e (h, a)
]

-- a key of a node that passes the test
pub Picks : (Text → NodeInfo → Bool) → Fake → Text → Type 0
Picks p f k = (n : NodeInfo) × (lookup k f ≡ some n) × (p k n ≡ true)

Picks-tail :
    (p : Text → NodeInfo → Bool) (j : Text) (m : NodeInfo) (f : Fake) (ks : List Text)
    → lookup j f ≡ none
    → All (Picks p f) ks
    → All (Picks p ((j, m) ∷ f)) ks
unfolding lookup Picks
Picks-tail p j m f [] h a = tt
Picks-tail p j m f (k ∷ ks) h a =
    ((a.0.0, ground (arith, text_eq_iff j k, a.0.1), a.0.2), Picks-tail p j m f ks h a.1)

pub sorted_keys-Picks :
    (p : Text → NodeInfo → Bool) (f : Fake) → IsMap f → All (Picks p f) (sorted_keys p f)
unfolding sorted_keys Picks lookup
sorted_keys-Picks p [] h = tt
sorted_keys-Picks p ((j, m) ∷ f) h =
    let rest = Picks-tail p j m f (sorted_keys p f) h.0 (sorted_keys-Picks p f h.1) in
    elim (Bool-cases (p j m)) [
      | inl e ↦ rw e (insert_text-All (Picks p ((j, m) ∷ f)) j (sorted_keys p f) (here e) rest)
      | inr e ↦ rw e rest
    ]
  where
    here : p j m ≡ true → Picks p ((j, m) ∷ f) j
    here e = (m, ground (arith, text_eq_iff j j), e)

-- the node at a key is a primary, if there is one
unfoldable pub primary_at : Fake → Text → Bool
primary_at f k = elim (lookup k f) [ none ↦ true | some n ↦ is_primary n ]

pub is_primary-set_slots :
    (rs : List SlotRange) (n : NodeInfo) → is_primary (set_slots rs n) ≡ is_primary n
unfolding is_primary
is_primary-set_slots rs n = refl

-- a write that leaves primaries primaries, and replicas replicas
abbrev pub KeepsRole : (NodeInfo → NodeInfo) → Type 0
KeepsRole g = (n : NodeInfo) → is_primary (g n) ≡ is_primary n

pub primary_at-modify :
    (f : Fake) (k j : Text) (g : NodeInfo → NodeInfo)
    → KeepsRole g
    → primary_at (modify j g f) k ≡ primary_at f k
unfolding primary_at
primary_at-modify f k j g h = elim (Option-cases (lookup k f)) [
  | inl q ↦ ground (arith, lookup-modify j k g f)
  | inr (m, q) ↦ ground (arith, lookup-modify j k g f, h m)
]

primary_at-modify_all :
    (f : Fake) (k : Text) (g : NodeInfo → NodeInfo)
    → KeepsRole g
    → primary_at (modify_all g f) k ≡ primary_at f k
unfolding primary_at
primary_at-modify_all f k g h = elim (Option-cases (lookup k f)) [
  | inl q ↦ ground (arith, lookup-modify_all k g f)
  | inr (m, q) ↦ ground (arith, lookup-modify_all k g f, h m)
]

pub primary_at-found :
    (f : Fake) (k : Text) (n : NodeInfo)
    → lookup k f ≡ some n
    → primary_at f k ≡ true
    → is_primary n ≡ true
unfolding primary_at
primary_at-found f k n e p = ground arith

pub Picks-primary :
    (p : Text → NodeInfo → Bool) (g : NodeInfo → NodeInfo) (f : Fake) (ks : List Text)
    → KeepsRole g
    → ((k : Text) (n : NodeInfo) → p k n ≡ true → is_primary n ≡ true)
    → All (Picks p f) ks
    → All (λ k. primary_at (modify_all g f) k ≡ true) ks
unfolding Picks primary_at
Picks-primary p g f [] same h a = tt
Picks-primary p g f (k ∷ ks) same h a = (
  ground (arith, primary_at-modify_all f k g same, h k a.0.0 a.0.2, a.0.1),
  Picks-primary p g f ks same h a.1,
)

eligible-primary :
    (excluded : List Text) (k : Text) (n : NodeInfo)
    → eligible excluded k n ≡ true
    → is_primary n ≡ true
eligible-primary excluded k n h = ground arith

pub split_evenly-IsValid :
    (k i : ℕ) (ids : List Text) (f : Fake)
    → All (λ id. primary_at f id ≡ true) ids
    → IsValid f
    → IsValid (split_evenly k i ids f)
unfolding split_evenly
split_evenly-IsValid k i [] f a v = v
split_evenly-IsValid k i (id ∷ ids) f a v =
    split_evenly-IsValid k (i + 1) ids (modify id (set_slots (shard_range k i ∷ [])) f)
      (still ids a.1)
      (modify-IsValid id (set_slots (shard_range k i ∷ [])) f
        (λ n e o. (
          o.0,
          inl (is_primary-set_slots (shard_range k i ∷ []) n ∙ primary_at-found f id n e a.0),
        ))
        v)
  where
    still :
        (js : List Text)
        → All (λ j. primary_at f j ≡ true) js
        → All (λ j. primary_at (modify id (set_slots (shard_range k i ∷ [])) f) j ≡ true) js
    still [] h = tt
    still (j ∷ js) h = (
      primary_at-modify f j id (set_slots (shard_range k i ∷ []))
            (is_primary-set_slots (shard_range k i ∷ []))
          ∙ h.0,
      still js h.1,
    )

cleared : (f : Fake) → IsValid f → IsValid (modify_all (set_slots []) f)
cleared f v = (
  modify_all-IsMap (set_slots []) f v.0,
  modify_all-All (set_slots []) f (λ k n o. (o.0, inr refl)) v.1,
)

pub rebalance-IsValid : (opts : RebalanceOpts) (f : Fake) → IsValid f → IsValid (rebalance opts f)
unfolding rebalance
rebalance-IsValid opts f v =
    let picked = sorted_keys-Picks (eligible opts.weight_zero_ids) f v.0 in
    split (sorted_keys (eligible opts.weight_zero_ids) f) (
      Picks-primary (eligible opts.weight_zero_ids) (set_slots []) f _ (is_primary-set_slots [])
        (eligible-primary opts.weight_zero_ids) picked)
  where
    split :
        (ids : List Text)
        → All (λ k. primary_at (modify_all (set_slots []) f) k ≡ true) ids
        → IsValid (elim ids [
          | [] ↦ f
          | id ∷ ids ↦ split_evenly (length (id ∷ ids)) 0 (id ∷ ids) (modify_all (set_slots []) f)
        ])
    split [] a = v
    split (id ∷ ids) a =
        split_evenly-IsValid (length (id ∷ ids)) 0 (id ∷ ids) (modify_all (set_slots []) f) a
          (cleared f v)
