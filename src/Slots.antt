-- ===== src/Slots.antt =====
-- internal/slots/slots.go: how the slots are split over the shards. `i * TotalSlots` stays below
-- 2^63 for every 32-bit number of shards, so nothing wraps around.
pub mod Partition
pub mod Balance
use valkeycluster_operator.Prelude.{
  ℕ, zero, suc, ◌+◌, ◌*◌, ◌/◌, ◌≡◌, refl, List, [], ◌∷◌, ◌++◌, map, if◌then◌else◌,
}
use valkeycluster_operator.Prelude.Int.{ℤ, pos, negsuc, pos_part, leb_ℤ, eqb_ℤ, ◌-ℤ◌}
use valkeycluster_operator.Text.{Text, codes, join}
use valkeycluster_operator.Text.Decimal.{itoa}
use valkeycluster_operator.Cluster.{SlotRange, total_slots, range_count}

-- the first slot of shard `i` of `n`, and the slot behind the last of shard `i - 1`
abbrev pub bound : ℕ → ℕ → ℕ
bound n i = i * total_slots / n

unfoldable pub shard_range : ℕ → ℕ → SlotRange
shard_range n i = record { start = pos (bound n i); end = pos (bound n (i + 1)) -ℤ pos 1 }

-- the loop of `Distribute` from shard `i` on, with `k` rounds left
unfoldable pub ranges_from : ℕ → ℕ → ℕ → List SlotRange
unfolding shard_range
ranges_from n i zero = []
ranges_from n i (suc k) = shard_range n i ∷ ranges_from n (i + 1) k

-- `Distribute`
unfoldable pub distribute : ℤ → List SlotRange
distribute n = if leb_ℤ n (pos 0) then [] else ranges_from (pos_part n) 0 (pos_part n)

-- `TargetCounts`
unfoldable pub target_counts : ℤ → List ℤ
target_counts n = if leb_ℤ n (pos 0) then [] else map range_count (distribute n)

-- `FormatRange`
unfoldable pub format_range : SlotRange → Text
format_range r = if eqb_ℤ r.start r.end then itoa r.start else itoa r.start ++ b'-' ∷ itoa r.end

-- `FormatRanges`
unfoldable pub format_ranges : List SlotRange → Text
unfolding format_range join
format_ranges [] = []
format_ranges (r ∷ rs) = join (map format_range (r ∷ rs)) (codes ",")

distribute_three :
    distribute (pos 3)
    ≡ record { start = pos 0; end = pos 5460 }
      ∷ record { start = pos 5461; end = pos 10921 }
      ∷ record { start = pos 10922; end = pos 16383 }
      ∷ []
unfolding distribute ranges_from ◌-ℤ◌
distribute_three = refl
