-- ===== src/Controller/Scaling/Fill.antt =====
-- The loop of `scaleOut` that fills a new primary: it ends, and gives no more than was needed.
use valkeycluster_operator.Prelude.{ℕ, zero, suc, ◌+◌, ◌≤◌, ◌≡◌, ◌≢◌, inl, inr, arith}
use valkeycluster_operator.Prelude.Int.{ℤ, pos, pos_part, ◌-ℤ◌, ◌≤ℤ◌}
use valkeycluster_operator.Text.{Text}
use valkeycluster_operator.Dict.{Dict}
use valkeycluster_operator.Exec.{Error, Result, ok, err, Result-cases}
use valkeycluster_operator.Api.{ValkeyCluster}
use valkeycluster_operator.Cluster.{Endpoint, NodeInfo}
use valkeycluster_operator.Controller.{Reconciler}
use valkeycluster_operator.Controller.View.{seed, by_id, fattest_primary}
use valkeycluster_operator.Controller.Scaling.{out_of_fuel, fill, take_of}

-- `MoveSlots` "returns the number of slots moved": no negative number
abbrev pub MovesForward : {W : Type 0} → Reconciler W → Type 0
MovesForward {W} r =
    (ep : Endpoint) (from to : Text) (n : ℤ) (w : W) (m : ℤ)
    → (r.admin.move_slots ep from to n w).0 ≡ ok m
    → pos 0 ≤ℤ m

module _ {W : Type 0} (r : Reconciler W) (cr : ValkeyCluster) (forward : MovesForward r) where
  -- If `MoveSlots` never reports a negative number, as many rounds as slots are needed are enough:
  -- the filling loop ends by a test of its own, or with an error of the cluster.
  pub fill_ends :
      (fuel : ℕ) (id : Text) (need : ℤ) (idx : Dict NodeInfo) (w : W)
      → pos_part need ≤ fuel
      → (fill r cr fuel id need idx w).0 ≢ ok out_of_fuel
  unfolding fill ◌-ℤ◌
  fill_ends zero id need idx w h = ground arith
  fill_ends (suc fuel) id need idx w h = elim (Result-cases move.0) [
    | inr (e, failed) ↦ ground arith
    | inl (m, moved) ↦ elim (Result-cases (r.admin.state (seed cr) move.1).0) [
      | inr (e, failed) ↦ ground arith
      | inl (st, seen) ↦ ground (
        arith,
        forward (seed cr) _ id _ w m moved,
        fill_ends fuel id (need -ℤ m) (by_id st) (r.admin.state (seed cr) move.1).1,
      )
    ]
  ]
    where
      move : Result ℤ × W
      move =
          r.admin.move_slots (seed cr) (fattest_primary idx id).0 id
            (take_of need (fattest_primary idx id).1) w

-- `slots_at` counts the slots of the node `id`: observing leaves it, and a move to `id` raises it by
-- no more than the number reported, or than the number asked for if the move fails half way
pub record CountsTarget {W : Type 0} (r : Reconciler W) (id : Text) (slots_at : W → ℕ)
    : Type 0 where
  pub observing : (ep : Endpoint) (w : W) → slots_at (r.admin.state ep w).1 ≡ slots_at w
  pub moving :
      (ep : Endpoint) (from : Text) (n m : ℤ) (w : W)
      → (r.admin.move_slots ep from id n w).0 ≡ ok m
      → (pos 0 ≤ℤ m)
        × (pos_part m ≤ pos_part n)
        × (slots_at (r.admin.move_slots ep from id n w).1 ≤ slots_at w + pos_part m)
  pub failing :
      (ep : Endpoint) (from : Text) (n : ℤ) (w : W) (e : Error)
      → (r.admin.move_slots ep from id n w).0 ≡ err e
      → slots_at (r.admin.move_slots ep from id n w).1 ≤ slots_at w + pos_part n

module _ {W : Type 0} (r : Reconciler W) (cr : ValkeyCluster) (id : Text) (slots_at : W → ℕ)
    (laws : CountsTarget r id slots_at) where
  -- However the loop ends, the new primary gets no more slots than it needed.
  pub fill_bounded :
      (fuel : ℕ) (need : ℤ) (idx : Dict NodeInfo) (w : W)
      → slots_at (fill r cr fuel id need idx w).1 ≤ slots_at w + pos_part need
  unfolding fill ◌-ℤ◌
  fill_bounded zero need idx w = ground arith
  fill_bounded (suc fuel) need idx w = elim (Result-cases move.0) [
    | inr (e, failed) ↦ ground (arith, laws.failing (seed cr) _ _ w e failed)
    | inl (m, moved) ↦ elim (Result-cases (r.admin.state (seed cr) move.1).0) [
      | inr (e, failed) ↦
          ground (arith, laws.moving (seed cr) _ _ m w moved, laws.observing (seed cr) move.1)
      | inl (st, seen) ↦ ground (
        arith,
        laws.moving (seed cr) _ _ m w moved,
        laws.observing (seed cr) move.1,
        fill_bounded fuel (need -ℤ m) (by_id st) (r.admin.state (seed cr) move.1).1,
      )
    ]
  ]
    where
      move : Result ℤ × W
      move =
          r.admin.move_slots (seed cr) (fattest_primary idx id).0 id
            (take_of need (fattest_primary idx id).1) w
