-- ===== src/Cluster/Parse/Open.antt =====
-- The open slots of CLUSTER NODES, as a set.
use valkeycluster_operator.Prelude.{
  ℕ, ◌^◌, ◌<◌, ◌≡◌, sym, subst, ◌⊎◌, inl, inr, ◌↔◌, true, false, List, [], ◌∷◌, ◌++◌, any, arith,
  Has, Bool-cases, Option-cases,
}
use valkeycluster_operator.Prelude.Int.{ℤ, pos, eqb_ℤ}
use valkeycluster_operator.Text.{Text, codes, fields}
use valkeycluster_operator.Text.Decimal.{format_nat}
use valkeycluster_operator.Cluster.Parse.{add_slot, open_from, open_marker, parse_open_slots}
use valkeycluster_operator.Cluster.Parse.Marker.{IsMarkerOf, open_marker_iff, printed-IsMarkerOf}

abbrev pub In : ℤ → List ℤ → Type 0
In n = Has (λ m. m ≡ n)

-- no number stands twice
abbrev pub Distinct : List ℤ → Type 0
Distinct [] = Unit
Distinct (n ∷ ns) = (¬ (In n ns)) × Distinct ns

-- some field of the text is a marker of the slot
abbrev pub Marked : ℤ → List Text → Type 0
Marked n = Has (IsMarkerOf n)

eqb_sound : (a b : ℤ) → eqb_ℤ a b ≡ true → a ≡ b
eqb_sound a b h = ground arith

eqb_refl : (a : ℤ) → eqb_ℤ a a ≡ true
eqb_refl a = ground arith

found-In : (n : ℤ) (ns : List ℤ) → any (λ m. eqb_ℤ m n) ns ≡ true → In n ns
found-In n [] h = ground arith
found-In n (m ∷ ns) h = elim (Bool-cases (eqb_ℤ m n)) [
  | inl e ↦ inl (eqb_sound m n e)
  | inr e ↦ inr (found-In n ns (ground arith))
]

missing-In : (n : ℤ) (ns : List ℤ) → any (λ m. eqb_ℤ m n) ns ≡ false → ¬ (In n ns)
missing-In n [] h i = i
missing-In n (m ∷ ns) h (inl e) = ground (arith, eqb_refl n)
missing-In n (m ∷ ns) h (inr i) = missing-In n ns (ground arith) i

In-append : (k n : ℤ) (ns : List ℤ) → In k (ns ++ n ∷ []) ↔ (In k ns ⊎ (n ≡ k))
In-append k n [] = ground arith
In-append k n (m ∷ ns) = ground (arith, In-append k n ns)

Distinct-append : (n : ℤ) (ns : List ℤ) → ¬ (In n ns) → Distinct ns → Distinct (ns ++ n ∷ [])
Distinct-append n [] h d = ((λ i. i), tt)
Distinct-append n (m ∷ ns) h d =
    (λ i. apart ((In-append m n ns).0 i), Distinct-append n ns (λ i. h (inr i)) d.1)
  where
    apart : In m ns ⊎ (n ≡ m) → ⊥
    apart (inl i) = d.0 i
    apart (inr e) = h (inl (sym e))

pub add_slot-In : (k n : ℤ) (seen : List ℤ) → In k (add_slot n seen) ↔ (In k seen ⊎ (n ≡ k))
unfolding add_slot
add_slot-In k n seen = elim (Bool-cases (any (λ m. eqb_ℤ m n) seen)) [
  | inl e ↦
      rw e (
        λ i. inl i,
        λ i. elim i [ inl j ↦ j | inr q ↦ subst (λ x. In x seen) q (found-In n seen e) ],
      )
  | inr e ↦ rw e (In-append k n seen)
]

pub add_slot-Distinct : (n : ℤ) (seen : List ℤ) → Distinct seen → Distinct (add_slot n seen)
unfolding add_slot
add_slot-Distinct n seen d = elim (Bool-cases (any (λ m. eqb_ℤ m n) seen)) [
  | inl e ↦ rw e d
  | inr e ↦ rw e (Distinct-append n seen (missing-In n seen e) d)
]

open_from-Distinct : (fs : List Text) (seen : List ℤ) → Distinct seen → Distinct (open_from fs seen)
unfolding open_from
open_from-Distinct [] seen d = d
open_from-Distinct (f ∷ fs) seen d = elim (Option-cases (open_marker f)) [
  | inl e ↦ ground (arith, open_from-Distinct fs seen d)
  | inr (n, e) ↦
      ground (arith, open_from-Distinct fs (add_slot n seen) (add_slot-Distinct n seen d))
]

open_from-In :
    (k : ℤ) (fs : List Text) (seen : List ℤ) → In k (open_from fs seen) ↔ (In k seen ⊎ Marked k fs)
unfolding open_from
open_from-In k [] seen = (λ i. inl i, λ i. elim i [ inl j ↦ j | inr b ↦ absurd b ])
open_from-In k (f ∷ fs) seen = elim (Option-cases (open_marker f)) [
  | inl e ↦ ground (arith, open_from-In k fs seen, open_marker_iff k f)
  | inr (n, e) ↦
      ground (arith, open_from-In k fs (add_slot n seen), add_slot-In k n seen, open_marker_iff k f)
]

Has-weaken : (P Q : Text → Type 0) (fs : List Text) → ((f : Text) → P f → Q f) → Has P fs → Has Q fs
Has-weaken P Q [] h i = i
Has-weaken P Q (f ∷ fs) h (inl p) = inl (h f p)
Has-weaken P Q (f ∷ fs) h (inr i) = inr (Has-weaken P Q fs h i)

-- `parseOpenSlots` yields every slot once, and a slot is among them exactly when some field of the
-- reply is a bracket followed by digits that spell the slot and by no further digit; the marker of a
-- migrating slot, `[n->-id]`, and that of an importing one, `[n-<-id]`, are such fields if the
-- number fits an `int`.
pub parse_open_slots-Marked :
    (raw : Text)
    → Distinct (parse_open_slots raw)
      × ((k : ℤ) → In k (parse_open_slots raw) ↔ Marked k (fields raw))
      × ((n : ℕ) (id : Text)
          → n < 2 ^ 63
          → Has
              (λ f.
                (f ≡ b'[' ∷ (format_nat n ++ b'-' ∷ b'>' ∷ b'-' ∷ (id ++ codes "]")))
                ⊎ (f ≡ b'[' ∷ (format_nat n ++ b'-' ∷ b'<' ∷ b'-' ∷ (id ++ codes "]"))))
              (fields raw)
          → In (pos n) (parse_open_slots raw))
unfolding parse_open_slots
parse_open_slots-Marked raw = (
  open_from-Distinct (fields raw) [] tt,
  λ k. ground (arith, open_from-In k (fields raw) []),
  λ n id l i. (open_from-In (pos n) (fields raw) []).1 (
      inr (
        Has-weaken _ (IsMarkerOf (pos n)) (fields raw)
          (λ f e. elim e [
            | inl e ↦
                subst (IsMarkerOf (pos n)) (sym e)
                  (printed-IsMarkerOf n b'-' (b'>' ∷ b'-' ∷ (id ++ codes "]")) l (λ d. omega arith))
            | inr e ↦
                subst (IsMarkerOf (pos n)) (sym e)
                  (printed-IsMarkerOf n b'-' (b'<' ∷ b'-' ∷ (id ++ codes "]")) l (λ d. omega arith))
          ])
          i)),
)
