-- ===== src/Slots/Partition.antt =====
-- The ranges of `Distribute` split the slots: every slot stands in one range, in order.
use valkeycluster_operator.Prelude.{
  ℕ, zero, suc, ◌+◌, ◌-◌, ◌≤◌, ◌<◌, ◌≡◌, refl, sym, ap, ◌∙◌, List, [], ◌∷◌, ◌++◌, arith, seq,
}
use native.Mathlib.Nat.{zero-add, add-zero, suc-add}
use valkeycluster_operator.Prelude.Int.{pos, pos_part, ◌+ℤ◌, ◌-ℤ◌}
use valkeycluster_operator.Cluster.{SlotRange, total_slots, range_count}
use valkeycluster_operator.Slots.{bound, shard_range, ranges_from, distribute}

-- the slots that stand in the ranges, one range after the other
abbrev pub slots_in : List SlotRange → List ℕ
slots_in [] = []
slots_in (r ∷ rs) = seq (pos_part r.start) (pos_part (range_count r)) ++ slots_in rs

pub seq-append : (a m k : ℕ) → seq a (m + k) ≡ seq a m ++ seq (a + m) k
seq-append a zero k = ground (arith, add-zero a, zero-add k)
seq-append a (suc m) k =
    rw suc-add
      (ap (◌∷◌ a) (seq-append (a + 1) m k ∙ ap (λ (t : ℕ). seq (a + 1) m ++ seq t k) (omega arith)))

pub bound_mono : (n i : ℕ) → 0 < n → bound n i ≤ bound n (i + 1)
bound_mono n i h = grind arith

pub bound_last : (n : ℕ) → 0 < n → bound n n ≡ total_slots
bound_last n h = grind arith

pub shard_range_count :
    (n i : ℕ) → 0 < n → range_count (shard_range n i) ≡ pos (bound n (i + 1) - bound n i)
unfolding range_count shard_range ◌+ℤ◌ ◌-ℤ◌
shard_range_count n i h = ground (arith, bound_mono n i h)

pub bound-le-total : (n i : ℕ) → 0 < n → i ≤ n → bound n i ≤ total_slots
bound-le-total n i h l = grind arith

shares : (a b c : ℕ) → a ≤ b → b ≤ c → seq a (c - a) ≡ seq a (b - a) ++ seq b (c - b)
shares a b c h l =
    ap (seq a) (omega arith)
    ∙ seq-append a (b - a) (c - b)
    ∙ ap (λ (t : ℕ). seq a (b - a) ++ seq t (c - b)) (omega arith)

slots_in-ranges_from :
    (n i k : ℕ)
    → 0 < n
    → i + k ≡ n
    → slots_in (ranges_from n i k) ≡ seq (bound n i) (total_slots - bound n i)
unfolding ranges_from
slots_in-ranges_from n i zero h e =
    let last : bound n i ≡ total_slots = ap (bound n) (omega arith) ∙ bound_last n h in rw last refl
slots_in-ranges_from n i (suc k) h e =
    let next : bound n (i + 1) ≤ total_slots = bound-le-total n (i + 1) h (omega arith) in
    rw (shard_range_count n i h, slots_in-ranges_from n (i + 1) k h (omega arith))
      (sym (shares (bound n i) (bound n (i + 1)) total_slots (bound_mono n i h) next))

pub distribute_pos : (n : ℕ) → 0 < n → distribute (pos n) ≡ ranges_from n 0 n
unfolding distribute
distribute_pos n h = ground arith

-- For a positive number of shards the slots of the ranges, range after range, are 0 to 16383.
pub distribute-partition : (n : ℕ) → 0 < n → slots_in (distribute (pos n)) ≡ seq 0 total_slots
distribute-partition n h =
    rw (distribute_pos n h)
      (slots_in-ranges_from n 0 n h (omega arith) ∙ ap (λ (b : ℕ). seq b (total_slots - b)) first)
  where
    first : bound n 0 ≡ 0
    first = grind arith
