-- ===== src/Controller/View/Fattest.antt =====
-- `fattestPrimary`, whatever the order in which the map's entries come.
use valkeycluster_operator.Prelude.{
  ◌≡◌, sym, ap, ◌∙◌, refl, ◌⊎◌, inl, inr, true, false, [], ◌∷◌, arith, All, Has,
}
use valkeycluster_operator.Prelude.Int.{ℤ, pos, ◌≤ℤ◌, ◌<ℤ◌}
use valkeycluster_operator.Text.{Text, text_eq}
use valkeycluster_operator.Dict.{Dict}
use valkeycluster_operator.Cluster.{NodeInfo, is_primary, slot_count}
use valkeycluster_operator.Controller.View.{pick, fattest_from, fattest_primary}

-- a primary other than the excluded one
abbrev pub IsSource : Text → Text × NodeInfo → Type 0
IsSource ex (id, n) = (text_eq id ex ≡ false) × (is_primary n ≡ true)

-- every source has at most `c` slots
abbrev pub AtMost : Text → ℤ → Dict NodeInfo → Type 0
AtMost ex c idx = All (λ e. IsSource ex e → slot_count e.1 ≤ℤ c) idx

-- `(id, c)` is a source with its count, which is positive
abbrev pub Attained : Text → Text × ℤ → Dict NodeInfo → Type 0
Attained ex (id, c) idx =
    Has (λ e. IsSource ex e × (e.0 ≡ id) × (slot_count e.1 ≡ c) × (pos 0 <ℤ c)) idx

-- one round keeps the best so far, or takes the entry if it is a source with more slots
pick_lem :
    (ex : Text) (e : Text × NodeInfo) (best : Text × ℤ)
    → let next = pick ex e best in
      (best.1 ≤ℤ next.1)
      × (IsSource ex e → slot_count e.1 ≤ℤ next.1)
      × ((next ≡ best)
          ⊎ (IsSource ex e × (e.0 ≡ next.0) × (slot_count e.1 ≡ next.1) × (best.1 <ℤ next.1)))
unfolding pick
pick_lem ex (id, n) best = ground arith

fattest_from_lem :
    (ex : Text) (idx : Dict NodeInfo) (best : Text × ℤ)
    → pos 0 ≤ℤ best.1
    → let found = fattest_from ex idx best in
      (best.1 ≤ℤ found.1) × AtMost ex found.1 idx × ((found ≡ best) ⊎ Attained ex found idx)
unfolding fattest_from
fattest_from_lem ex [] best h = (omega arith, tt, inl refl)
fattest_from_lem ex (e ∷ idx) best h =
    let (grows, bounded, origin) = pick_lem ex e best in
    let (grows', bounded', origin') = fattest_from_lem ex idx (pick ex e best) (omega arith) in
    (omega arith, ((λ src. omega (arith, bounded src)), bounded'), trace origin origin')
  where
    found : Text × ℤ
    found = fattest_from ex idx (pick ex e best)

    trace :
        (pick ex e best ≡ best)
          ⊎ (IsSource ex e
              × (e.0 ≡ (pick ex e best).0)
              × (slot_count e.1 ≡ (pick ex e best).1)
              × (best.1 <ℤ (pick ex e best).1))
        → (found ≡ pick ex e best) ⊎ Attained ex found idx
        → (found ≡ best) ⊎ Attained ex found (e ∷ idx)
    trace o (inr later) = inr (inr later)
    trace (inl same) (inl same') = inl (same' ∙ same)
    trace (inr (src, id, count, more)) (inl same') = inr (
        inl (
          src,
          id ∙ sym (ap (λ (t : Text × ℤ). t.0) same'),
          count ∙ sym (ap (λ (t : Text × ℤ). t.1) same'),
          rw same' (omega arith),
        ))

-- Whatever the order of the map's entries, no primary but the excluded one has more slots than the
-- result says, and the result is such a primary with its positive count, or the empty ID and zero.
pub fattest_primary_max :
    (idx : Dict NodeInfo) (ex : Text)
    → let found = fattest_primary idx ex in
      AtMost ex found.1 idx × ((found ≡ ([], pos 0)) ⊎ Attained ex found idx)
unfolding fattest_primary
fattest_primary_max idx ex =
    let (_, bounded, origin) = fattest_from_lem ex idx ([], pos 0) (omega arith) in
    (bounded, origin)
