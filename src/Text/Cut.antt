-- ===== src/Text/Cut.antt =====
-- `strings.Cut`, `strings.Index` and `strings.Split` at a single byte.
use valkeycluster_operator.Prelude.{
  ℕ, ◌≡◌, refl, ◌≢◌, Option, none, some, List, [], ◌∷◌, ◌++◌, arith, ◌==◌, if◌then◌else◌, All,
}

-- the text before the first `b` and the text behind it, or `none`
unfoldable pub cut : ℕ → List ℕ → Option (List ℕ × List ℕ)
cut b [] = none
cut b (c ∷ s) =
    if c == b then some ([], s) else elim (cut b s) [ none ↦ none | some (l, r) ↦ some (c ∷ l, r) ]

-- `strings.Split` at the byte `b`: never empty
unfoldable pub split : ℕ → List ℕ → List (List ℕ)
split b [] = [] ∷ []
split b (c ∷ s) = elim (split b s) [
  | [] ↦ (c ∷ []) ∷ []
  | p ∷ ps ↦ if c == b then [] ∷ p ∷ ps else (c ∷ p) ∷ ps
]

pub cut-append : (b : ℕ) (l r : List ℕ) → All (λ c. c ≢ b) l → cut b (l ++ b ∷ r) ≡ some (l, r)
unfolding cut
cut-append b [] r h = ground arith
cut-append b (c ∷ l) r h = ground (arith, cut-append b l r h.1)

pub cut-none : (b : ℕ) (l : List ℕ) → All (λ c. c ≢ b) l → cut b l ≡ none
unfolding cut
cut-none b [] h = refl
cut-none b (c ∷ l) h = ground (arith, cut-none b l h.1)

pub split_none : (b : ℕ) (l : List ℕ) → All (λ c. c ≢ b) l → split b l ≡ l ∷ []
unfolding split
split_none b [] h = refl
split_none b (c ∷ l) h = rw (split_none b l h.1) (ground arith)

split-ne-nil : (b : ℕ) (l : List ℕ) → split b l ≢ []
unfolding split
split-ne-nil b [] e = cc
split-ne-nil b (c ∷ l) e = ground (arith, split-ne-nil b l)

pub split-append :
    (b : ℕ) (l r : List ℕ) → All (λ c. c ≢ b) l → split b (l ++ b ∷ r) ≡ l ∷ split b r
unfolding split
split-append b [] r h = ground (arith, split-ne-nil b r)
split-append b (c ∷ l) r h = rw (split-append b l r h.1) (ground arith)

-- Two texts that agree up to a byte neither prefix holds have equal prefixes and equal rests.
pub cut_injective :
    (b : ℕ) (l l' r r' : List ℕ)
    → All (λ c. c ≢ b) l
    → All (λ c. c ≢ b) l'
    → l ++ b ∷ r ≡ l' ++ b ∷ r'
    → (l ≡ l') × (r ≡ r')
cut_injective b l l' r r' h h' e = ground (arith, cut-append b l r h, cut-append b l' r' h')
