-- ===== src/Cluster/Parse/Slots.antt =====
-- The slot tokens of a line of CLUSTER NODES, and the bytes of its words.
use mathlib.Core.List.{append-nil}
use valkeycluster_operator.Prelude.{
  ℕ, ◌^◌, ◌<◌, ◌≡◌, refl, sym, ◌≢◌, ◌∙◌, ap, Bool, true, false, List, [], ◌∷◌, ◌++◌, map, arith,
  if◌then◌else◌, All, All-append,
}
use valkeycluster_operator.Text.{Text, codes, Lacks, is_space, has_prefix}
use valkeycluster_operator.Text.Words.{IsWord, Spaceless, append-ne-nil}
use valkeycluster_operator.Text.Decimal.{
  itoa, format_nat, format_nat-ne-nil, format_nat-IsDigit, IsDigit,
}
use valkeycluster_operator.Slots.{format_range}
use valkeycluster_operator.Cluster.Parse.{parse_slots}
use valkeycluster_operator.Cluster.Parse.Token.{parse_slot_token-format_range}
use valkeycluster_operator.Cluster.Parse.Printed.{range_of, IsMarker}

pub weaken : {P Q : ℕ → Type 0} (t : Text) → ((c : ℕ) → P c → Q c) → All P t → All Q t
weaken [] f h = tt
weaken (c ∷ t) f h = (f c h.0, weaken t f h.1)

digit_no_space : (c : ℕ) → IsDigit c → is_space c ≡ false
unfolding is_space
digit_no_space c h = ground arith

pub digit-Spaceless : (n : ℕ) → Spaceless (format_nat n)
digit-Spaceless n = weaken (format_nat n) digit_no_space (format_nat-IsDigit n)

pub weaken-All :
    {P Q : ℕ → Type 0} (ts : List Text) → ((c : ℕ) → P c → Q c) → All (All P) ts → All (All Q) ts
weaken-All [] f h = tt
weaken-All (t ∷ ts) f h = (weaken t f h.0, weaken-All ts f h.1)

-- a word holds no line break
pub words-Lacks : (ws : List Text) → All IsWord ws → All (Lacks b'\n') ws
words-Lacks [] h = tt
words-Lacks (w ∷ ws) h = (weaken w (λ c x e. no_break c x e) h.0.1, words-Lacks ws h.1)
  where
    no_break : (c : ℕ) → is_space c ≡ false → c ≢ b'\n'
    no_break c x e = unfold is_space in ground arith

number-IsWord : (a : ℕ) → IsWord (format_nat a)
number-IsWord a = (format_nat-ne-nil a, digit-Spaceless a)

choice : {A : Type 0} (P : A → Type 0) (b : Bool) {x y : A} → P x → P y → P (if b then x else y)
choice P true hx hy = hx
choice P false hx hy = hy

range-IsWord : (a b : ℕ) → IsWord (format_range (range_of (a, b)))
unfolding format_range itoa
range-IsWord a b =
    choice IsWord _ {x = format_nat a} {y = format_nat a ++ b'-' ∷ format_nat b} (number-IsWord a) (
      append-ne-nil (format_nat a) (format_nat b) b'-',
      All-append _ (format_nat a) _ (digit-Spaceless a)
          (unfold is_space in refl, digit-Spaceless b),
    )

pub ranges-IsWord : (rs : List (ℕ × ℕ)) → All IsWord (map (λ p. format_range (range_of p)) rs)
ranges-IsWord [] = tt
ranges-IsWord ((a, b) ∷ rs) = (range-IsWord a b, ranges-IsWord rs)

pub markers-IsWord : (ms : List Text) → All IsMarker ms → All IsWord ms
markers-IsWord [] h = tt
markers-IsWord (m ∷ ms) h = (h.0.1, markers-IsWord ms h.1)

-- a text that begins with a digit is no marker
digits_first : (t u : Text) → t ≢ [] → All IsDigit t → has_prefix (t ++ u) (codes "[") ≡ false
unfolding has_prefix
digits_first [] u ne h = absurd (ne refl)
digits_first (c ∷ t) u ne h = ground arith

range_unmarked : (a b : ℕ) → has_prefix (format_range (range_of (a, b))) (codes "[") ≡ false
unfolding format_range itoa
range_unmarked a b =
    choice (λ (t : Text). has_prefix t (codes "[") ≡ false) _ {x = format_nat a}
      {y = format_nat a ++ b'-' ∷ format_nat b}
      (ap (λ (t : Text). has_prefix t (codes "[")) (sym (append-nil (format_nat a))) ∙ plain [])
      (plain (b'-' ∷ format_nat b))
  where
    plain : (u : Text) → has_prefix (format_nat a ++ u) (codes "[") ≡ false
    plain u = digits_first (format_nat a) u (format_nat-ne-nil a) (format_nat-IsDigit a)

parse_slots-markers : (ms : List Text) → All IsMarker ms → parse_slots ms ≡ []
unfolding parse_slots
parse_slots-markers [] h = refl
parse_slots-markers (m ∷ ms) h = rw h.0.0 (parse_slots-markers ms h.1)

pub parse_slots-ranges :
    (rs : List (ℕ × ℕ)) (ms : List Text)
    → All (λ p. (p.0 < 2 ^ 63) × (p.1 < 2 ^ 63)) rs
    → All IsMarker ms
    → parse_slots (map (λ p. format_range (range_of p)) rs ++ ms) ≡ map range_of rs
unfolding parse_slots
parse_slots-ranges [] ms h hm = parse_slots-markers ms hm
parse_slots-ranges ((a, b) ∷ rs) ms h hm =
    rw
      (
        range_unmarked a b,
        parse_slot_token-format_range a b h.0.0 h.0.1,
        parse_slots-ranges rs ms h.1 hm,
      )
      refl
