-- ===== src/Cluster/Fake/Assign.antt =====
-- What meeting nodes and assigning slots do to the number of assigned slots.
use valkeycluster_operator.Prelude.{
  ◌≡◌, refl, ◌∙◌, inl, inr, true, none, some, List, [], ◌∷◌, ◌++◌, arith, Option-cases,
}
use valkeycluster_operator.Prelude.Int.{ℤ, pos, ◌+ℤ◌, ◌-ℤ◌, int_laws}
use valkeycluster_operator.Text.{Text, text_eq_iff}
use valkeycluster_operator.Dict.{lookup, insert, lookup-insert}
use valkeycluster_operator.Cluster.{
  Endpoint, SlotRange, NodeInfo, slot_count, count_slots, range_count, total_slots,
}
use valkeycluster_operator.Cluster.Fake.{
  Fake, ensure, new_node, make_primary, assigned_slots, state, meet, add_slots,
}
use valkeycluster_operator.Cluster.Fake.Slots.{assigned_slots-modify, +ℤ_assoc}

zero_left : (a : ℤ) → a ≡ pos 0 +ℤ a
zero_left a = omega int_laws

grown : (a b c : ℤ) → a +ℤ (b +ℤ c -ℤ b) ≡ a +ℤ c
grown a b c = omega int_laws

exchange : (a b c : ℤ) → a +ℤ (b +ℤ c) ≡ b +ℤ (a +ℤ c)
exchange a b c = omega int_laws

pub count_slots-append :
    (rs ss : List SlotRange) → count_slots (rs ++ ss) ≡ count_slots rs +ℤ count_slots ss
unfolding count_slots
count_slots-append [] ss = zero_left (count_slots ss)
count_slots-append (r ∷ rs) ss =
    rw (count_slots-append rs ss) (+ℤ_assoc (range_count r) (count_slots rs) (count_slots ss))

assigned_slots-insert :
    (k : Text) (n : NodeInfo) (f : Fake)
    → lookup k f ≡ none
    → assigned_slots (insert k n f) ≡ slot_count n +ℤ assigned_slots f
unfolding assigned_slots insert lookup
assigned_slots-insert k n [] e = refl
assigned_slots-insert k n ((j, m) ∷ f) e = ground (
  arith,
  text_eq_iff j k,
  assigned_slots-insert k n f,
  exchange (slot_count m) (slot_count n) (assigned_slots f),
)

pub assigned_slots-ensure :
    (e : Endpoint) (f : Fake) → assigned_slots (ensure e f).1 ≡ assigned_slots f
unfolding ensure slot_count count_slots
assigned_slots-ensure e f = elim (Option-cases (lookup e.host f)) [
  | inl absent ↦
      ground
        (arith, assigned_slots-insert e.host (new_node e) f absent, zero_left (assigned_slots f))
  | inr (n, found) ↦ ground arith
]

pub lookup-ensure : (e : Endpoint) (f : Fake) → lookup e.host (ensure e f).1 ≡ some (ensure e f).0
unfolding ensure
lookup-ensure e f = elim (Option-cases (lookup e.host f)) [
  | inl absent ↦
      ground (arith, lookup-insert e.host e.host (new_node e) f, text_eq_iff e.host e.host)
  | inr (n, found) ↦ ground arith
]

pub assigned_slots-meet :
    (from target : Endpoint) (f : Fake) → assigned_slots (meet from target f) ≡ assigned_slots f
unfolding meet
assigned_slots-meet from target f =
    assigned_slots-ensure target (ensure from f).1 ∙ assigned_slots-ensure from f

-- assigning slots adds their number, whatever the node
pub assigned_slots-add_slots :
    (e : Endpoint) (rs : List SlotRange) (f : Fake)
    → assigned_slots (add_slots e rs f) ≡ assigned_slots f +ℤ count_slots rs
unfolding add_slots slot_count
assigned_slots-add_slots e rs f =
    let n = (ensure e f).0 in
    rw
      (
        assigned_slots-modify e.host (λ m. record (make_primary m) { slots = m.slots ++ rs })
            (ensure e f).1 n (lookup-ensure e f),
        count_slots-append n.slots rs,
        assigned_slots-ensure e f,
      )
      (grown (assigned_slots f) (count_slots n.slots) (count_slots rs))

-- a cluster with as many assigned slots as there are reports itself formed and covered
pub state-covered :
    (f : Fake)
    → assigned_slots f ≡ pos total_slots
    → ((state f).formed ≡ true) × ((state f).slots_covered ≡ true)
unfolding state assigned_slots
state-covered [] e = ground arith
state-covered ((k, n) ∷ f) e = ground arith
