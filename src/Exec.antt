-- ===== src/Exec.antt =====
-- Go functions that change the world and may return an error: what was done before an error stays
-- done, so the world comes back beside the error too.
pub mod Keeps
pub mod Loops
use valkeycluster_operator.Prelude.{⊤, List, [], ◌∷◌, Bool, true, false, ◌≡◌, refl, ◌⊎◌, inl, inr}
use valkeycluster_operator.Text.{Text}

-- an error: one of Kubernetes' "not found" answers, any other cause, or an error that
-- `fmt.Errorf` wraps with `%w`
pub data Error : Type 0 where
  not_found : Error
  cause : Text → Error
  wrapped : Text → Error → Error

pub data Result (A : Type 0) : Type 0 where
  ok : A → Result A
  err : Error → Result A

abbrev pub Exec : Type 0 → Type 0 → Type 0
Exec W A = W → Result A × W

-- `if err != nil { return fmt.Errorf("…: %w", err) }`
abbrev pub wrap_result : {A : Type 0} → Text → Result A → Result A
wrap_result t (ok a) = ok a
wrap_result t (err e) = err (wrapped t e)

module _ {W A : Type 0} where
  abbrev pub pure : A → Exec W A
  pure a w = (ok a, w)

  abbrev pub raise : Error → Exec W A
  raise e w = (err e, w)

  abbrev pub with_context : Text → Exec W A → Exec W A
  with_context t m w = let (r, w') = m w in (wrap_result t r, w')

  -- the result as a value: for code that looks at an error and goes on
  abbrev pub try : Exec W A → Exec W (Result A)
  try m w = let (r, w') = m w in (ok r, w')

abbrev pub continue : {W A B : Type 0} → Result A → (A → Exec W B) → Exec W B
continue (ok a) f w = f a w
continue (err e) f w = (err e, w)

infixl 5 ◌>>=◌ ◌>>◌
abbrev pub ◌>>=◌ : {W A B : Type 0} → Exec W A → (A → Exec W B) → Exec W B
◌>>=◌ m f w = let (r, w') = m w in continue r f w'

abbrev pub ◌>>◌ : {W A B : Type 0} → Exec W A → Exec W B → Exec W B
m >> k = m >>= λ _. k

-- `_ = f()`, or a call whose error is only logged
abbrev pub ignore : {W A : Type 0} → Exec W A → Exec W ⊤
ignore m w = let (r, w') = m w in (ok tt, w')

abbrev pub is_not_found : Error → Bool
is_not_found not_found = true
is_not_found (cause _) = false
is_not_found (wrapped _ e) = is_not_found e

pub Result-cases :
    {A : Type 0} (r : Result A) → ((a : A) × (r ≡ ok a)) ⊎ ((e : Error) × (r ≡ err e))
Result-cases (ok a) = inl (a, refl)
Result-cases (err e) = inr (e, refl)

-- a loop that returns at the first error
unfoldable pub for_each : {W A : Type 0} → List A → (A → Exec W ⊤) → Exec W ⊤
for_each [] body = pure tt
for_each (x ∷ xs) body = body x >> for_each xs body
