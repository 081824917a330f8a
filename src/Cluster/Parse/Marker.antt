-- ===== src/Cluster/Parse/Marker.antt =====
-- What a marker of an open slot is: a field of CLUSTER NODES such as `[781->-id]` or `[781-<-id]`.
use valkeycluster_operator.Prelude.{
  ℕ, ◌^◌, ◌<◌, All, ◌≡◌, ◌≢◌, refl, ap, ◌↔◌, true, some, [], ◌∷◌, ◌++◌, arith, ◌&&◌, leb, inl, inr,
  Bool-cases,
}
use valkeycluster_operator.Prelude.Int.{ℤ, pos}
use valkeycluster_operator.Text.{Text, is_empty}
use valkeycluster_operator.Text.Decimal.{
  atoi, IsDigit, format_nat, format_nat-IsDigit, format_nat-ne-nil, atoi-format_nat,
}
use valkeycluster_operator.Cluster.Parse.{open_marker, leading_digits}

-- no digit comes first
abbrev pub NoDigit : Text → Type 0
NoDigit [] = Unit
NoDigit (c ∷ _) = ¬ (IsDigit c)

-- a bracket, at least one digit, all digits up to the first other byte, which spell the slot
abbrev pub IsMarkerOf : ℤ → Text → Type 0
IsMarkerOf k f =
    (ds : Text) × (rest : Text) × (f ≡ b'[' ∷ (ds ++ rest))
    × (ds ≢ [])
    × All IsDigit ds
    × NoDigit rest
    × (atoi ds ≡ (k, true))

digits_first :
    (t : Text)
    → (rest : Text) × (t ≡ leading_digits t ++ rest) × All IsDigit (leading_digits t) × NoDigit rest
unfolding leading_digits
digits_first [] = ([], refl, tt, tt)
digits_first (c ∷ t) = elim (Bool-cases (leb b'0' c && leb c b'9')) [
  | inl digit ↦
      let (rest, whole, digits, other) = digits_first t in
      rw digit (rest, ap (◌∷◌ c) whole, ((ground arith, ground arith), digits), other)
  | inr other ↦ rw other (c ∷ t, refl, tt, λ d. ground arith)
]

pub leading_digits-append :
    (ds rest : Text) → All IsDigit ds → NoDigit rest → leading_digits (ds ++ rest) ≡ ds
unfolding leading_digits
leading_digits-append [] [] h nd = refl
leading_digits-append [] (c ∷ rest) h nd = ground arith
leading_digits-append (d ∷ ds) rest h nd = ground (arith, leading_digits-append ds rest h.1 nd)

filled : (t : Text) → t ≢ [] → is_empty t ≢ true
unfolding is_empty
filled [] ne e = ne refl
filled (c ∷ t) ne e = ground arith

not_filled : (t : Text) → is_empty t ≢ true → t ≢ []
unfolding is_empty
not_filled t ne e = ne (rw e refl)

-- the fields that are taken for markers are these
pub open_marker_iff : (k : ℤ) (f : Text) → (open_marker f ≡ some k) ↔ IsMarkerOf k f
unfolding open_marker
open_marker_iff k [] = (λ h. ground arith, λ (ds, rest, e, _, _, _, _). ground arith)
open_marker_iff k (c ∷ body) = (
  λ h.
      let (rest, whole, digits, other) = digits_first body in
      (
        leading_digits body,
        rest,
        ground arith,
        not_filled (leading_digits body) (ground arith),
        digits,
        other,
        ground arith,
      ),
  λ (ds, rest, e, ne, digits, other, number).
      ground (arith, leading_digits-append ds rest digits other, filled ds ne),
)

-- such as the markers that a server prints
pub printed-IsMarkerOf :
    (n c : ℕ) (rest : Text)
    → n < 2 ^ 63
    → ¬ (IsDigit c)
    → IsMarkerOf (pos n) (b'[' ∷ (format_nat n ++ c ∷ rest))
printed-IsMarkerOf n c rest h other = (
  format_nat n,
  c ∷ rest,
  refl,
  format_nat-ne-nil n,
  format_nat-IsDigit n,
  other,
  atoi-format_nat n h,
)
