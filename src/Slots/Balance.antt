-- ===== src/Slots/Balance.antt =====
-- How many slots each shard gets.
use valkeycluster_operator.Prelude.{
  ℕ, zero, suc, ◌+◌, ◌-◌, ◌*◌, ◌/◌, ◌≤◌, ◌<◌, ◌≡◌, refl, ap, ◌∙◌, map, arith, All, length,
  length-map,
}
use native.Mathlib.Nat.{le-div_iff_mul-le, div-lt_iff_lt-mul, div-mul-le_self, lt-div-mul-add}
use valkeycluster_operator.Prelude.Int.{ℤ, pos, ◌+ℤ◌, ◌≤ℤ◌}
use valkeycluster_operator.Cluster.{total_slots, range_count, count_slots}
use valkeycluster_operator.Slots.{bound, ranges_from, target_counts}
use valkeycluster_operator.Slots.Partition.{
  bound_mono, bound_last, bound-le-total, shard_range_count, distribute_pos,
}

div_add_bounds :
    (u v n : ℕ) → 0 < n → (u / n + v / n ≤ (u + v) / n) × ((u + v) / n ≤ u / n + v / n + 1)
div_add_bounds u v n h = (
  (le-div_iff_mul-le h).1 (omega (arith, div-mul-le_self u n, div-mul-le_self v n)),
  omega (arith, (div-lt_iff_lt-mul {x = u + v} {y = u / n + v / n + 2} h).1 upper),
)
  where
    upper : u + v < (u / n + v / n + 2) * n
    upper = omega (arith, lt-div-mul-add {a = u} h, lt-div-mul-add {a = v} h)

-- one shard's share lies between the quotient and one more
pub share_bounds :
    (n i : ℕ)
    → 0 < n
    → (total_slots / n ≤ bound n (i + 1) - bound n i)
      × (bound n (i + 1) - bound n i ≤ total_slots / n + 1)
share_bounds n i h =
    let next : bound n (i + 1) ≡ (i * total_slots + total_slots) / n =
      ap (λ (t : ℕ). t / n) (omega arith) in
    omega (arith, div_add_bounds (i * total_slots) total_slots n h)

-- `c` is the quotient of 16384 by `n`, or one more
abbrev pub IsFair : ℕ → ℤ → Type 0
IsFair n c = (pos (total_slots / n) ≤ℤ c) × (c ≤ℤ pos (total_slots / n + 1))

IsFair-from : (n i k : ℕ) → 0 < n → All (IsFair n) (map range_count (ranges_from n i k))
unfolding ranges_from
IsFair-from n i zero h = tt
IsFair-from n i (suc k) h =
    (rw (shard_range_count n i h) (omega (arith, share_bounds n i h)), IsFair-from n (i + 1) k h)

length-ranges_from : (n i k : ℕ) → length (ranges_from n i k) ≡ k
unfolding ranges_from
length-ranges_from n i zero = refl
length-ranges_from n i (suc k) = ap suc (length-ranges_from n (i + 1) k)

pub count_slots-ranges_from :
    (n i k : ℕ)
    → 0 < n
    → i + k ≡ n
    → count_slots (ranges_from n i k) ≡ pos (total_slots - bound n i)
unfolding ranges_from count_slots
count_slots-ranges_from n i zero h e =
    let last : bound n i ≡ total_slots = ap (bound n) (omega arith) ∙ bound_last n h in rw last refl
count_slots-ranges_from n i (suc k) h e =
    let next : bound n (i + 1) ≤ total_slots = bound-le-total n (i + 1) h (omega arith) in
    rw (shard_range_count n i h, count_slots-ranges_from n (i + 1) k h (omega arith))
      (unfold ◌+ℤ◌ in ground (arith, bound_mono n i h))

-- For a positive number of shards there is one count for each, and each is the quotient of 16384
-- by the number of shards or one more.
pub target_counts_balanced :
    (n : ℕ) → 0 < n → (length (target_counts (pos n)) ≡ n) × All (IsFair n) (target_counts (pos n))
unfolding target_counts
target_counts_balanced n h =
    let counts : target_counts (pos n) ≡ map range_count (ranges_from n 0 n) =
      rw (← distribute_pos n h) (ground arith) in
    rw counts
      (length-map (ranges_from n 0 n) range_count ∙ length-ranges_from n 0 n, IsFair-from n 0 n h)
