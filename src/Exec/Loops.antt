-- ===== src/Exec/Loops.antt =====
-- Loops whose rounds never fail.
use valkeycluster_operator.Prelude.{⊤, List, [], ◌∷◌, ◌≡◌, refl, subst, sym, inl, inr, arith, Has}
use valkeycluster_operator.Exec.{Exec, ok, for_each, Result-cases}
use valkeycluster_operator.Exec.Keeps.{Keeps, for_each-Keeps}

module _ {W A : Type 0} (body : A → Exec W ⊤) (fine : (x : A) (w : W) → (body x w).0 ≡ ok tt) where
  pub for_each_ok : (xs : List A) (w : W) → (for_each xs body w).0 ≡ ok tt
  unfolding for_each
  for_each_ok [] w = refl
  for_each_ok (x ∷ xs) w = ground (arith, fine x w, for_each_ok xs (body x w).1)

  -- what one round brings about, and the others keep, holds after the loop
  pub for_each_establishes :
      (Q : W → Type 0) (x : A) (xs : List A)
      → Has (λ y. y ≡ x) xs
      → ((y : A) → Has (λ z. z ≡ y) xs → Keeps Q (body y))
      → ((w : W) → Q (body x w).1)
      → (w : W) → Q (for_each xs body w).1
  unfolding for_each
  for_each_establishes Q x [] i keep now w = elim i [ ]
  for_each_establishes Q x (y ∷ xs) (inl same) keep now w =
      let here : Q (body y w).1 = subst (λ z. Q (body z w).1) (sym same) (now w) in
      ground
        (arith, here, fine y w, for_each-Keeps {P = Q} body xs (λ z i. keep z (inr i)) (body y w).1)
  for_each_establishes Q x (y ∷ xs) (inr later) keep now w =
      ground (
        arith,
        fine y w,
        for_each_establishes Q x xs later (λ z i. keep z (inr i)) now (body y w).1,
      )

module _ {W A : Type 0} (body : A → Exec W ⊤) (Q : A → W → Type 0)
    (keep : (x y : A) (w : W) → (body y w).0 ≡ ok tt → Q x w → Q x (body y w).1) where
  for_each_keeps :
      (x : A) (xs : List A) (w : W)
      → (for_each xs body w).0 ≡ ok tt
      → Q x w
      → Q x (for_each xs body w).1
  unfolding for_each
  for_each_keeps x [] w h q = q
  for_each_keeps x (y ∷ xs) w h q = elim (Result-cases (body y w).0) [
    | inr (e, failed) ↦ ground arith
    | inl (_, done) ↦ ground (arith, keep x y w done q, for_each_keeps x xs (body y w).1)
  ]

  -- a loop that ends without an error leaves what each of its rounds brings about, if a round that
  -- succeeds keeps what the others have
  pub for_each_all :
      ((x : A) (w : W) → (body x w).0 ≡ ok tt → Q x (body x w).1)
      → (xs : List A) (w : W) → (for_each xs body w).0 ≡ ok tt
      → (x : A) → Has (λ y. y ≡ x) xs
      → Q x (for_each xs body w).1
  unfolding for_each
  for_each_all now [] w h x i = elim i [ ]
  for_each_all now (y ∷ xs) w h x i = elim (Result-cases (body y w).0) [
    | inr (e, failed) ↦ ground arith
    | inl (_, done) ↦ elim i [
      | inr later ↦ ground (arith, for_each_all now xs (body y w).1 (ground arith) x later)
      | inl same ↦
          let here : Q x (body y w).1 = subst (λ z. Q z (body y w).1) same (now y w done) in
          ground (arith, for_each_keeps x xs (body y w).1 (ground arith) here)
    ]
  ]
