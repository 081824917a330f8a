-- ===== src/Text.antt =====
-- Go strings as lists of bytes, and the functions of the packages `strings` and `strconv` that
-- the operator calls. A string is read as ASCII: `strings.Fields` and `strings.TrimSpace` know
-- further spaces outside of it.
pub mod Decimal
pub mod Cut
pub mod Words
use Prim.Native.Char.{code}
use Prim.Native.String.{String}
use valkeycluster_operator.Prelude.{
  ℕ, zero, suc, ◌≡◌, refl, ◌↔◌, ◌≢◌, Bool, true, false, ◌&&◌, ◌||◌, Option, none, some, List, [],
  ◌∷◌, ◌++◌, arith, leb, ◌==◌, if◌then◌else◌, All,
}

abbrev pub Text : Type 0
Text = List ℕ

-- the bytes of an ASCII literal
abbrev pub codes : String → Text
codes String.[] = []
codes (String.◌∷◌ c s) = code c ∷ codes s

-- no byte of the text is `b`
abbrev pub Lacks : ℕ → Text → Type 0
Lacks b = All (λ c. c ≢ b)

-- `a == b`
unfoldable pub text_eq : Text → Text → Bool
text_eq [] [] = true
text_eq [] (y ∷ b) = false
text_eq (x ∷ a) [] = false
text_eq (x ∷ a) (y ∷ b) = x == y && text_eq a b

pub text_eq_iff : (a b : Text) → (text_eq a b ≡ true) ↔ (a ≡ b)
unfolding text_eq
text_eq_iff [] [] = ground arith
text_eq_iff [] (y ∷ b) = ground arith
text_eq_iff (x ∷ a) [] = ground arith
text_eq_iff (x ∷ a) (y ∷ b) = ground (arith, text_eq_iff a b)

pub text_eq_refl : (a : Text) → text_eq a a ≡ true
text_eq_refl a = (text_eq_iff a a).1 refl

-- `a < b`, byte by byte
unfoldable pub text_lt : Text → Text → Bool
text_lt a [] = false
text_lt [] (y ∷ b) = true
text_lt (x ∷ a) (y ∷ b) = if x == y then text_lt a b else leb x y

unfoldable pub is_empty : Text → Bool
is_empty [] = true
is_empty (_ ∷ _) = false

-- `strings.HasPrefix`
unfoldable pub has_prefix : Text → Text → Bool
has_prefix s [] = true
has_prefix [] (p ∷ ps) = false
has_prefix (c ∷ s) (p ∷ ps) = c == p && has_prefix s ps

-- `strings.Contains`
unfoldable pub contains : Text → Text → Bool
unfolding has_prefix
contains [] p = has_prefix [] p
contains (c ∷ s) p = has_prefix (c ∷ s) p || contains s p

unfoldable pub is_space : ℕ → Bool
is_space c = c == b' ' || (leb 9 c && leb c 13)

-- `strings.Join`
unfoldable pub join : List Text → Text → Text
join [] sep = []
join (p ∷ []) sep = p
join (p ∷ q ∷ ps) sep = p ++ (sep ++ join (q ∷ ps) sep)

trim_left : Text → Text
unfolding is_space
trim_left [] = []
trim_left (c ∷ s) = if is_space c then trim_left s else c ∷ s

trim_right : Text → Text
unfolding is_space
trim_right [] = []
trim_right (c ∷ s) = elim (trim_right s) [
  | [] ↦ if is_space c then [] else c ∷ []
  | d ∷ r ↦ c ∷ d ∷ r
]

-- `strings.TrimSpace`
unfoldable pub trim_space : Text → Text
unfolding trim_left trim_right
trim_space s = trim_right (trim_left s)

-- the loop of `strings.Fields`; the second argument is the field that is being read
fields_from : Text → Text → List Text
unfolding is_space
fields_from [] [] = []
fields_from [] (d ∷ cur) = (d ∷ cur) ∷ []
fields_from (c ∷ s) cur =
    let next = fields_from s [] in
    let same = fields_from s (cur ++ c ∷ []) in
    if is_space c then (if is_empty cur then next else cur ∷ next) else same

-- `strings.Fields`
unfoldable pub fields : Text → List Text
unfolding fields_from is_empty
fields s = fields_from s []

fields_test : fields (codes "  a1 10.0.0.1\tx \n") ≡ codes "a1" ∷ codes "10.0.0.1" ∷ codes "x" ∷ []
unfolding fields
fields_test = refl
