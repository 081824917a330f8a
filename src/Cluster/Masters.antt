-- ===== src/Cluster/Masters.antt =====
-- Which nodes are masters, and how many slots a node has.
use valkeycluster_operator.Prelude.{
  ℕ, zero, suc, ◌≡◌, ◌↔◌, refl, ap, ◌⊎◌, true, List, [], ◌∷◌, any, arith, Has,
}
use valkeycluster_operator.Prelude.Int.{ℤ, pos, negsuc, ltb_ℤ, ◌+ℤ◌, ◌-ℤ◌}
use valkeycluster_operator.Text.{Text, codes, text_eq, text_eq_iff, is_empty}
use valkeycluster_operator.Cluster.{SlotRange, NodeInfo, is_primary, range_count, count_slots}

-- the node is flagged as a master, or names no master of its own
abbrev pub IsMaster : NodeInfo → Type 0
IsMaster n = Has (λ f. f ≡ codes "master") n.flags ⊎ (n.master_id ≡ [])

pub any-text_eq :
    (t : Text) (fs : List Text) → (any (λ f. text_eq f t) fs ≡ true) ↔ Has (λ f. f ≡ t) fs
any-text_eq t [] = ground arith
any-text_eq t (f ∷ fs) = ground (arith, text_eq_iff f t, any-text_eq t fs)

empty_iff : (t : Text) → (is_empty t ≡ true) ↔ (t ≡ [])
unfolding is_empty
empty_iff [] = (λ h. refl, λ h. refl)
empty_iff (c ∷ t) = (λ h. ground arith, λ h. cc)

pub is_primary_iff : (n : NodeInfo) → (is_primary n ≡ true) ↔ IsMaster n
unfolding is_primary
is_primary_iff n = ground (arith, any-text_eq (codes "master") n.flags, empty_iff n.master_id)

-- the number of slots of the ranges, both ends included
abbrev pub held : List SlotRange → ℤ
held [] = pos 0
held (r ∷ rs) = (r.end -ℤ r.start +ℤ pos 1) +ℤ held rs

pub count_slots-held : (rs : List SlotRange) → count_slots rs ≡ held rs
unfolding count_slots range_count
count_slots-held [] = refl
count_slots-held (r ∷ rs) = ap (◌+ℤ◌ (r.end -ℤ r.start +ℤ pos 1)) (count_slots-held rs)

pub positive : (z : ℤ) → ltb_ℤ (pos 0) z ≡ true → (n : ℕ) × (z ≡ pos (suc n))
positive (pos zero) h = ground arith
positive (pos (suc n)) h = (n, refl)
positive (negsuc n) h = ground arith
