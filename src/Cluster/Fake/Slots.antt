-- ===== src/Cluster/Fake/Slots.antt =====
-- What the methods of the fake do to the number of assigned slots.
use valkeycluster_operator.Prelude.{
  ◌≡◌, ◌≢◌, refl, Option, none, some, [], ◌∷◌, arith, if◌then◌else◌,
}
use valkeycluster_operator.Prelude.Int.{ℤ, pos, ◌+ℤ◌, ◌-ℤ◌, ◌≤ℤ◌, ltb_ℤ, int_laws}
use valkeycluster_operator.Text.{Text, text_eq, text_eq_iff}
use valkeycluster_operator.Dict.{lookup}
use valkeycluster_operator.Cluster.{NodeInfo, slot_count, count_slots, range_count}
use valkeycluster_operator.Cluster.Fake.{
  Fake, modify, assigned_slots, count_to_ranges, movable, give_away, take_over, move_slots,
}

pub lookup-modify :
    (k j : Text) (g : NodeInfo → NodeInfo) (f : Fake)
    → lookup j (modify k g f) ≡ (
        if text_eq k j then elim (lookup j f) [ none ↦ none | some n ↦ some (g n) ] else lookup j f)
unfolding lookup modify
lookup-modify k j g [] = ground arith
lookup-modify k j g ((i, n) ∷ f) =
    ground (arith, text_eq_iff k j, text_eq_iff i k, text_eq_iff i j, lookup-modify k j g f)

pub swap_out : (x y a : ℤ) → x +ℤ a ≡ y +ℤ a +ℤ (x -ℤ y)
swap_out x y a = omega int_laws

pub +ℤ_assoc : (a b c : ℤ) → a +ℤ (b +ℤ c) ≡ a +ℤ b +ℤ c
+ℤ_assoc a b c = omega int_laws

-- a write to one node moves the total by what the node's count moves
pub assigned_slots-modify :
    (k : Text) (g : NodeInfo → NodeInfo) (f : Fake) (n : NodeInfo)
    → lookup k f ≡ some n
    → assigned_slots (modify k g f) ≡ assigned_slots f +ℤ (slot_count (g n) -ℤ slot_count n)
unfolding lookup modify assigned_slots
assigned_slots-modify k g [] n e = cc
assigned_slots-modify k g ((j, m) ∷ f) n e = ground (
  arith,
  assigned_slots-modify k g f n,
  swap_out (slot_count (g m)) (slot_count m) (assigned_slots f),
  +ℤ_assoc (slot_count m) (assigned_slots f) (slot_count (g n) -ℤ slot_count n),
)

pub slot_count-count_to_ranges : (c : ℤ) → pos 0 ≤ℤ c → count_slots (count_to_ranges c) ≡ c
unfolding count_slots count_to_ranges range_count ◌+ℤ◌ ◌-ℤ◌
slot_count-count_to_ranges c h = ground arith

-- the number of slots of the node at a key
abbrev pub count_at : Text → Fake → Option ℤ
count_at k f = elim (lookup k f) [ none ↦ none | some n ↦ some (slot_count n) ]

pub count_at-modify :
    (k j : Text) (g : NodeInfo → NodeInfo) (f : Fake) (n : NodeInfo)
    → lookup k f ≡ some n
    → count_at j (modify k g f) ≡ (if text_eq k j then some (slot_count (g n)) else count_at j f)
count_at-modify k j g f n e = ground (arith, lookup-modify k j g f, text_eq_iff k j)

count-give_away :
    (m : ℤ) (a : NodeInfo) → m ≤ℤ slot_count a → slot_count (give_away m a) ≡ slot_count a -ℤ m
unfolding slot_count
count-give_away m a h = slot_count-count_to_ranges _ (omega int_laws)

count-take_over :
    (m : ℤ) (b : NodeInfo)
    → pos 0 ≤ℤ m
    → pos 0 ≤ℤ slot_count b
    → slot_count (take_over m b) ≡ slot_count b +ℤ m
unfolding slot_count
count-take_over m b h hb = slot_count-count_to_ranges _ (omega int_laws)

module _ (from to : Text) (m : ℤ) (f : Fake) (a b : NodeInfo) where
  transferred : Fake
  transferred = modify to (take_over m) (modify from (give_away m) f)

  module _ (ne : from ≢ to) (ea : lookup from f ≡ some a) (eb : lookup to f ≡ some b)
      (hm : pos 0 ≤ℤ m) (ha : m ≤ℤ slot_count a) (hb : pos 0 ≤ℤ slot_count b) where
    kept : lookup to (modify from (give_away m) f) ≡ some b
    kept = ground (arith, lookup-modify from to (give_away m) f, text_eq_iff from to)

    given : lookup from (modify from (give_away m) f) ≡ some (give_away m a)
    given = ground (arith, lookup-modify from from (give_away m) f, text_eq_iff from from)

    transferred-assigned : assigned_slots transferred ≡ assigned_slots f
    unfolding transferred
    transferred-assigned =
        rw
          (
            assigned_slots-modify to (take_over m) (modify from (give_away m) f) b kept,
            assigned_slots-modify from (give_away m) f a ea,
            count-give_away m a ha,
            count-take_over m b hm hb,
          )
          (omega int_laws)

    transferred-from : count_at from transferred ≡ some (slot_count a -ℤ m)
    unfolding transferred
    transferred-from = ground (
      arith,
      lookup-modify to from (take_over m) (modify from (give_away m) f),
      given,
      text_eq_iff to from,
      count-give_away m a ha,
    )

    transferred-to : count_at to transferred ≡ some (slot_count b +ℤ m)
    unfolding transferred
    transferred-to = ground (
      arith,
      count_at-modify to to (take_over m) (modify from (give_away m) f) b kept,
      text_eq_iff to to,
      count-take_over m b hm hb,
    )

move_slots_found :
    (from to : Text) (n : ℤ) (f : Fake) (a b : NodeInfo)
    → lookup from f ≡ some a
    → lookup to f ≡ some b
    → move_slots from to n f ≡ (movable n a, transferred from to (movable n a) f a b)
unfolding move_slots transferred
move_slots_found from to n f a b ea eb = ground arith

-- `MoveSlots` between two different nodes of the fake moves as many slots as asked, or all that the
-- source has if those are fewer: the source's count falls by that number, the target's rises by
-- it, and the total stays.
pub move_slots_conserves :
    (from to : Text) (n : ℤ) (f : Fake) (a b : NodeInfo)
    → from ≢ to
    → lookup from f ≡ some a
    → lookup to f ≡ some b
    → pos 0 ≤ℤ n
    → pos 0 ≤ℤ slot_count a
    → pos 0 ≤ℤ slot_count b
    → let (moved, f') = move_slots from to n f in
      (moved ≡ (if ltb_ℤ (slot_count a) n then slot_count a else n))
      × (assigned_slots f' ≡ assigned_slots f)
      × (count_at from f' ≡ some (slot_count a -ℤ moved))
      × (count_at to f' ≡ some (slot_count b +ℤ moved))
move_slots_conserves from to n f a b ne ea eb hn ha hb =
    rw (move_slots_found from to n f a b ea eb) (
      unfold movable in refl,
      transferred-assigned from to (movable n a) f a b ne ea eb lower upper hb,
      transferred-from from to (movable n a) f a b ne ea eb lower upper hb,
      transferred-to from to (movable n a) f a b ne ea eb lower upper hb,
    )
  where
    lower : pos 0 ≤ℤ movable n a
    lower = unfold movable in ground arith

    upper : movable n a ≤ℤ slot_count a
    upper = unfold movable in ground arith
