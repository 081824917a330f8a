-- ===== src/Exec/Keeps.antt =====
-- Predicates on the world that a call keeps, whether it fails or not.
use valkeycluster_operator.Prelude.{⊤, List, [], ◌∷◌, ◌≡◌, refl, inl, inr, arith, Has}
use valkeycluster_operator.Exec.{Exec, for_each}

-- whatever the call returns, it leaves a world that satisfies `P` in one that does
abbrev pub Keeps : {W A : Type 0} → (W → Type 0) → Exec W A → Type 0
Keeps P m = (w : _) → P w → P (m w).1

module _ {W : Type 0} {P : W → Type 0} where
  pub for_each-Keeps :
      {A : Type 0} (body : A → Exec W ⊤) (xs : List A)
      → ((x : A) → Has (λ y. y ≡ x) xs → Keeps P (body x))
      → Keeps P (for_each xs body)
  unfolding for_each
  for_each-Keeps body [] h w p = p
  for_each-Keeps body (x ∷ xs) h w p =
      ground (arith, h x (inl refl) w p, for_each-Keeps body xs (λ y hy. h y (inr hy)) (body x w).1)
