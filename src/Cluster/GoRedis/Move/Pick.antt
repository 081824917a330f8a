-- ===== src/Cluster/GoRedis/Move/Pick.antt =====
-- Which slots `MoveSlots` moves.
use mathlib.Core.List.{append-nil}
use valkeycluster_operator.Prelude.{
  ℕ, zero, suc, ◌-◌, ◌≡◌, refl, sym, ◌∙◌, ap, List, [], ◌∷◌, ◌++◌, arith, if◌then◌else◌, leb,
  length, Bool-cases, inl, inr,
}
use valkeycluster_operator.Prelude.Int.{ℤ, pos, pos_part, ◌+ℤ◌}
use valkeycluster_operator.Cluster.{SlotRange, range_count}
use valkeycluster_operator.Cluster.GoRedis.Move.{pick_range, pick_slots}

abbrev pub take : ℕ → List ℤ → List ℤ
take zero xs = []
take (suc n) [] = []
take (suc n) (x ∷ xs) = x ∷ take n xs

-- `count` numbers in order, from `s` on
abbrev pub count_up : ℤ → ℕ → List ℤ
count_up s zero = []
count_up s (suc count) = s ∷ count_up (s +ℤ pos 1) count

-- all slots of the ranges, in order
abbrev pub all_slots : List SlotRange → List ℤ
all_slots [] = []
all_slots (r ∷ rs) = count_up r.start (pos_part (range_count r)) ++ all_slots rs

pick_range_lem :
    (left : ℕ) (s : ℤ) (room : ℕ) → pick_range left s room ≡ take room (count_up s left)
unfolding pick_range
pick_range_lem zero s zero = refl
pick_range_lem zero s (suc room) = refl
pick_range_lem (suc left) s zero = refl
pick_range_lem (suc left) s (suc room) = ap (◌∷◌ s) (pick_range_lem left (s +ℤ pos 1) room)

pub length-take :
    (n : ℕ) (xs : List ℤ) → length (take n xs) ≡ (if leb n (length xs) then n else length xs)
length-take zero xs = ground arith
length-take (suc n) [] = ground arith
length-take (suc n) (x ∷ xs) = ground (arith, length-take n xs)

take_none : (n : ℕ) (xs : List ℤ) → n ≡ 0 → take n xs ≡ []
take_none zero xs e = refl
take_none (suc n) xs e = absurd (omega arith)

take-append : (n : ℕ) (xs ys : List ℤ) → take n (xs ++ ys) ≡ take n xs ++ take (n - length xs) ys
take-append zero xs ys = sym (take_none (0 - length xs) ys (omega arith))
take-append (suc n) [] ys = let e : suc n - 0 ≡ suc n = omega arith in rw e refl
take-append (suc n) (x ∷ xs) ys =
    let e : suc n - suc (length xs) ≡ n - length xs = omega arith in
    rw e (ap (◌∷◌ x) (take-append n xs ys))

-- a range that fills the room, and one that does not
split_room :
    (n : ℕ) (xs ys : List ℤ)
    → (if leb n (length (take n xs))
        then take n xs
        else take n xs ++ take (n - length (take n xs)) ys)
      ≡ take n (xs ++ ys)
split_room n xs ys = elim (Bool-cases (leb n (length xs))) [
  | inl e ↦ ground (
    arith,
    length-take n xs,
    take-append n xs ys,
    take_none (n - length xs) ys,
    append-nil (take n xs),
  )
  | inr e ↦ ground (arith, length-take n xs, take-append n xs ys)
]

pick_slots_lem : (rs : List SlotRange) (n : ℕ) → pick_slots rs n ≡ take n (all_slots rs)
unfolding pick_slots
pick_slots_lem [] zero = refl
pick_slots_lem [] (suc n) = refl
pick_slots_lem (r ∷ rs) n =
    rw
      (
        pick_range_lem (pos_part (range_count r)) r.start n,
        pick_slots_lem rs (n - length (take n (count_up r.start (pos_part (range_count r))))),
      )
      (split_room n (count_up r.start (pos_part (range_count r))) (all_slots rs))

-- The two nested loops of `MoveSlots` that choose the slots take the first `n` of the source's slots,
-- range after range, or all of them if there are fewer.
pub pick_slots-take :
    (rs : List SlotRange) (n : ℕ)
    → (pick_slots rs n ≡ take n (all_slots rs))
      × (length (pick_slots rs n)
          ≡ (if leb n (length (all_slots rs)) then n else length (all_slots rs)))
pick_slots-take rs n =
    (pick_slots_lem rs n, ap length (pick_slots_lem rs n) ∙ length-take n (all_slots rs))
