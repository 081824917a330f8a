-- ===== src/Cluster/Fake/Reshard.antt =====
-- `Reshard` of the in-memory cluster keeps well-formedness.
use valkeycluster_operator.Prelude.{
  ℕ, ◌≡◌, refl, sym, subst, ◌∙◌, ◌⊎◌, inl, inr, true, ◌&&◌, none, some, List, [], ◌∷◌, length,
  arith, if◌then◌else◌, Bool-cases, Option-cases,
}
use valkeycluster_operator.Prelude.Int.{ℤ, pos, ◌+ℤ◌, ◌-ℤ◌, ltb_ℤ, eqb_ℤ}
use valkeycluster_operator.Text.{Text, text_eq, text_eq_iff, is_empty}
use valkeycluster_operator.Dict.{lookup}
use valkeycluster_operator.Cluster.{SlotRange, NodeInfo, is_primary, slot_count, count_slots}
use valkeycluster_operator.Cluster.Fake.{
  Fake, modify, modify_all, make_primary, set_slots, sorted_keys, give_away, movable,
  count_to_ranges, resplit, reshard_from, reshard,
}
use valkeycluster_operator.Cluster.Fake.Slots.{lookup-modify}
use valkeycluster_operator.Cluster.Fake.Invariant.{
  NodeOk, IsValid, modify_all-IsMap, modify_all-All, modify-IsValid,
}
use valkeycluster_operator.Cluster.Fake.Primaries.{
  KeepsRole, primary_at, primary_at-modify, primary_at-found, is_primary-set_slots,
  sorted_keys-Picks, Picks-primary, split_evenly-IsValid,
}

give_away-slots :
    (k : ℕ) (n : NodeInfo) → n.slots ≡ [] → (give_away (movable (pos k) n) n).slots ≡ []
unfolding movable slot_count count_slots count_to_ranges ◌-ℤ◌
give_away-slots k n e = rw e (ground arith)

pub give_away-NodeOk :
    (id : Text) (k : ℕ) (f : Fake) (n m : NodeInfo)
    → lookup id f ≡ some n
    → lookup id f ≡ some m
    → NodeOk (id, m)
    → NodeOk (id, give_away (movable (pos k) n) m)
unfolding is_primary
give_away-NodeOk id k f n m a b (own, inl p) = (own, inl p)
give_away-NodeOk id k f n m a b (own, inr q) = (
  own,
  inr (subst (λ x. (give_away (movable (pos k) x) m).slots ≡ []) same (give_away-slots k m q)),
)
  where
    same : m ≡ n
    same = ground arith

-- a write of slots to a node that is a primary
set_slots-IsValid :
    (id : Text) (rs : NodeInfo → List SlotRange) (f : Fake)
    → primary_at f id ≡ true
    → IsValid f
    → IsValid (modify id (λ n. set_slots (rs n) n) f)
set_slots-IsValid id rs f p v =
    modify-IsValid id (λ n. set_slots (rs n) n) f
      (λ n e o. (o.0, inl (is_primary-set_slots (rs n) n ∙ primary_at-found f id n e p))) v

give_away-KeepsRole : (m : ℤ) → KeepsRole (give_away m)
unfolding is_primary
give_away-KeepsRole m n = refl

make_primary-IsValid : (id : Text) (f : Fake) → IsValid f → IsValid (modify id make_primary f)
unfolding is_primary text_eq
make_primary-IsValid id f v = modify-IsValid id make_primary f (λ n e o. (o.0, inl refl)) v

is_primary-make_primary : (n : NodeInfo) → is_primary (make_primary n) ≡ true
unfolding is_primary text_eq
is_primary-make_primary n = refl

make_primary-primary_at : (id : Text) (f : Fake) → primary_at (modify id make_primary f) id ≡ true
unfolding primary_at
make_primary-primary_at id f = elim (Option-cases (lookup id f)) [
  | inl q ↦ ground (arith, lookup-modify id id make_primary f)
  | inr (n, q) ↦
      ground
        (arith, lookup-modify id id make_primary f, text_eq_iff id id, is_primary-make_primary n)
]

reshard_from-none :
    (from to : Text) (k : ℤ) (f : Fake) → lookup from f ≡ none → reshard_from from to k f ≡ f
unfolding reshard_from
reshard_from-none from to k f q = ground arith

reshard_from-some :
    (from to : Text) (k : ℤ) (f : Fake) (n : NodeInfo)
    → lookup from f ≡ some n
    → reshard_from from to k f
      ≡ modify to
          (λ m. set_slots (count_to_ranges (slot_count m +ℤ movable k n)) m)
          (modify from (give_away (movable k n)) f)
unfolding reshard_from
reshard_from-some from to k f n q = ground arith

reshard_from-IsValid :
    (from to : Text) (k : ℕ) (f : Fake)
    → primary_at f to ≡ true
    → IsValid f
    → IsValid (reshard_from from to (pos k) f)
reshard_from-IsValid from to k f p v = elim (Option-cases (lookup from f)) [
  | inl q ↦ subst IsValid (sym (reshard_from-none from to (pos k) f q)) v
  | inr (n, q) ↦
      let given = modify from (give_away (movable (pos k) n)) f in
      let still : primary_at given to ≡ true =
        primary_at-modify f to from (give_away (movable (pos k) n))
          (give_away-KeepsRole (movable (pos k) n))
        ∙ p in
      subst IsValid (sym (reshard_from-some from to (pos k) f n q)) (
        set_slots-IsValid to (λ m. count_to_ranges (slot_count m +ℤ movable (pos k) n)) given still
          (modify-IsValid from (give_away (movable (pos k) n)) f
            (λ m r o. give_away-NodeOk from k f n m q r o) v))
]

-- the two writes to all nodes of a resplit, and the test for an owner
first_slot : NodeInfo → NodeInfo
first_slot n =
    if eqb_ℤ (slot_count n) (pos 0)
    then set_slots (record { start = pos 0; end = pos 0 } ∷ []) n
    else n

clear_primary : NodeInfo → NodeInfo
clear_primary n = if is_primary n then set_slots [] n else n

first_slot-KeepsRole : KeepsRole first_slot
unfolding first_slot
first_slot-KeepsRole n =
    ground (arith, is_primary-set_slots (record { start = pos 0; end = pos 0 } ∷ []) n)

clear_primary-KeepsRole : KeepsRole clear_primary
unfolding clear_primary
clear_primary-KeepsRole n = ground (arith, is_primary-set_slots [] n)

clear_primary-NodeOk : (k : Text) (n : NodeInfo) → NodeOk (k, n) → NodeOk (k, clear_primary n)
unfolding clear_primary
clear_primary-NodeOk k n o = elim (Bool-cases (is_primary n)) [
  | inl p ↦ rw p (o.0, inr refl)
  | inr p ↦ rw p o
]

first_slot-NodeOk :
    (k : Text) (n : NodeInfo) → is_primary n ≡ true → NodeOk (k, n) → NodeOk (k, first_slot n)
unfolding first_slot
first_slot-NodeOk k n p o = elim (Bool-cases (eqb_ℤ (slot_count n) (pos 0))) [
  | inl none_yet ↦
      rw none_yet
        (o.0, inl (is_primary-set_slots (record { start = pos 0; end = pos 0 } ∷ []) n ∙ p))
  | inr some_slots ↦ rw some_slots o
]

owner_test :
    (k : Text) (n : NodeInfo)
    → (is_primary n && ltb_ℤ (pos 0) (slot_count n)) ≡ true
    → is_primary n ≡ true
owner_test k n h = ground arith

resplit-IsValid :
    (to : Text) (f : Fake) → primary_at f to ≡ true → IsValid f → IsValid (resplit to f)
unfolding resplit first_slot clear_primary
resplit-IsValid to f p v =
    let owns = λ (k : Text) (n : NodeInfo). is_primary n && ltb_ℤ (pos 0) (slot_count n) in
    let f1 = modify to first_slot f in
    let v1 : IsValid f1 =
      modify-IsValid to first_slot f
        (λ n e o. first_slot-NodeOk to n (primary_at-found f to n e p) o) v in
    let owners = sorted_keys owns f1 in
    split_evenly-IsValid (length owners) 0 owners (modify_all clear_primary f1)
      (Picks-primary owns clear_primary f1 owners clear_primary-KeepsRole owner_test
        (sorted_keys-Picks owns f1 v1.0))
      (
        modify_all-IsMap clear_primary f1 v1.0,
        modify_all-All clear_primary f1 clear_primary-NodeOk v1.1,
      )

reshard_outcome :
    (from to : Text) (k : ℤ) (f : Fake)
    → let f0 = modify to make_primary f in
      (reshard from to k f ≡ f)
      ⊎ (reshard from to k f ≡ resplit to f0)
      ⊎ (reshard from to k f ≡ reshard_from from to k f0)
unfolding reshard
reshard_outcome from to k f = elim (Option-cases (lookup to f)) [
  | inl q ↦ inl (ground arith)
  | inr (n, q) ↦ elim (Bool-cases (is_empty from)) [
    | inl b ↦ inr (inl (ground arith))
    | inr b ↦ inr (inr (ground arith))
  ]
]

pub reshard-IsValid :
    (from to : Text) (k : ℕ) (f : Fake) → IsValid f → IsValid (reshard from to (pos k) f)
reshard-IsValid from to k f v =
    let f0 = modify to make_primary f in
    let v0 : IsValid f0 = make_primary-IsValid to f v in
    let p : primary_at f0 to ≡ true = make_primary-primary_at to f in
    elim (reshard_outcome from to (pos k) f) [
      | inl same ↦ subst IsValid (sym same) v
      | inr (inl even) ↦ subst IsValid (sym even) (resplit-IsValid to f0 p v0)
      | inr (inr part) ↦ subst IsValid (sym part) (reshard_from-IsValid from to k f0 p v0)
    ]
