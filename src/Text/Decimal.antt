-- ===== src/Text/Decimal.antt =====
-- `strconv.Itoa` and `strconv.Atoi`, for a 64-bit `int`.
use valkeycluster_operator.Prelude.{
  ℕ, zero, suc, ◌+◌, ◌-◌, ◌*◌, ◌/◌, ◌%◌, ◌^◌, ◌≤◌, ◌<◌, ◌≡◌, refl, subst, ◌∙◌, ◌≢◌, Bool, true,
  false, ◌||◌, List, [], ◌∷◌, arith, ltb, leb, ◌==◌, if◌then◌else◌, All,
}
use valkeycluster_operator.Prelude.Int.{ℤ, pos, negsuc}

abbrev pub IsDigit : ℕ → Type 0
IsDigit c = (b'0' ≤ c) × (c ≤ b'9')

-- the decimal digits of `n`, written in front of `out`; the first argument is fuel
digits : ℕ → ℕ → List ℕ → List ℕ
digits zero n out = out
digits (suc f) n out =
    let rest = digits f (n / 10) ((b'0' + n % 10) ∷ out) in
    if ltb n 10 then (b'0' + n) ∷ out else rest

-- `%d` of a number that is not negative
unfoldable pub format_nat : ℕ → List ℕ
unfolding digits
format_nat n = digits (suc n) n []

-- `strconv.Itoa`, `%d`
unfoldable pub itoa : ℤ → List ℕ
itoa (pos n) = format_nat n
itoa (negsuc n) = b'-' ∷ format_nat (suc n)

-- how the scan of `strconv.ParseUint` ends
pub data Scan : Type 0 where
  value : ℕ → Scan
  syntax_error range_error : Scan

-- the loop of `strconv.ParseUint` at base 10 and 64 bits
scan : List ℕ → ℕ → Scan
scan [] n = value n
scan (c ∷ s) n =
    let more = scan s (n * 10 + (c - b'0')) in
    if ltb c b'0' || ltb b'9' c
    then syntax_error
    else if leb (2 ^ 64) (n * 10 + (c - b'0'))
    then range_error
    else more

scan_digits : List ℕ → Scan
unfolding scan
scan_digits [] = syntax_error
scan_digits (c ∷ s) = scan (c ∷ s) 0

-- the bounds of `strconv.ParseInt`; the result is the number and whether there was no error
clamp : Bool → Scan → ℤ × Bool
clamp neg syntax_error = (pos 0, false)
clamp true range_error = (negsuc (2 ^ 63 - 1), false)
clamp false range_error = (pos (2 ^ 63 - 1), false)
clamp false (value n) = if leb (2 ^ 63) n then (pos (2 ^ 63 - 1), false) else (pos n, true)
clamp true (value zero) = (pos 0, true)
clamp true (value (suc n)) =
    if leb (2 ^ 63) n then (negsuc (2 ^ 63 - 1), false) else (negsuc n, true)

-- `strconv.Atoi`: the number, and whether the error is nil
unfoldable pub atoi : List ℕ → ℤ × Bool
unfolding scan_digits clamp
atoi [] = (pos 0, false)
atoi (c ∷ s) =
    if c == b'-'
    then clamp true (scan_digits s)
    else if c == b'+'
    then clamp false (scan_digits s)
    else clamp false (scan_digits (c ∷ s))

digits-IsDigit : (f n : ℕ) (out : List ℕ) → All IsDigit out → All IsDigit (digits f n out)
unfolding digits
digits-IsDigit zero n out h = h
digits-IsDigit (suc f) n out h = ground (arith, digits-IsDigit f (n / 10) ((b'0' + n % 10) ∷ out))

pub format_nat-IsDigit : (n : ℕ) → All IsDigit (format_nat n)
unfolding format_nat
format_nat-IsDigit n = digits-IsDigit (suc n) n [] tt

-- reading the digits of `n` back, whatever stands behind them
scan-digits : (f n : ℕ) (out : List ℕ) → n < f → n < 2 ^ 64 → scan (digits f n out) 0 ≡ scan out n
unfolding scan digits
scan-digits zero n out h b = elim h [ ]
scan-digits (suc f) n out h b = ground (arith, scan-digits f (n / 10) ((b'0' + n % 10) ∷ out))

digits-ne-nil : (f n : ℕ) (out : List ℕ) → out ≢ [] → digits f n out ≢ []
unfolding digits
digits-ne-nil zero n out h = h
digits-ne-nil (suc f) n out h = ground (arith, digits-ne-nil f (n / 10) ((b'0' + n % 10) ∷ out))

pub format_nat-ne-nil : (n : ℕ) → format_nat n ≢ []
unfolding format_nat digits
format_nat-ne-nil n = ground (arith, digits-ne-nil n (n / 10) ((b'0' + n % 10) ∷ []))

atoi_digits : (s : List ℕ) → s ≢ [] → All IsDigit s → atoi s ≡ clamp false (scan s 0)
unfolding atoi
atoi_digits [] ne h = absurd (ne refl)
atoi_digits (c ∷ s) ne h = ground arith

-- `Atoi` reads back every number that fits an `int`.
pub atoi-format_nat : (n : ℕ) → n < 2 ^ 63 → atoi (format_nat n) ≡ (pos n, true)
atoi-format_nat n h =
    atoi_digits (format_nat n) (format_nat-ne-nil n) (format_nat-IsDigit n)
    ∙ unfold format_nat clamp scan in
      rw (scan-digits (suc n) n [] (omega arith) (omega arith)) (ground arith)

-- the number that digits spell, with no bound
spelled : List ℕ → ℕ → ℕ
spelled [] n = n
spelled (c ∷ s) n = spelled s (n * 10 + (c - b'0'))

spelled-digits : (f n : ℕ) (out : List ℕ) → n < f → spelled (digits f n out) 0 ≡ spelled out n
unfolding spelled digits
spelled-digits zero n out h = elim h [ ]
spelled-digits (suc f) n out h = ground (arith, spelled-digits f (n / 10) ((b'0' + n % 10) ∷ out))

-- Two numbers with one decimal print are equal.
pub format_nat_injective : (m n : ℕ) → format_nat m ≡ format_nat n → m ≡ n
unfolding format_nat spelled
format_nat_injective m n e =
    cc (spelled-digits (suc m) m [] (omega arith), spelled-digits (suc n) n [] (omega arith))

-- A digit is none of the bytes below `0` or above `9`.
pub format_nat-Lacks : (b n : ℕ) → ¬ IsDigit b → All (λ c. c ≢ b) (format_nat n)
format_nat-Lacks b n h = go (format_nat n) (format_nat-IsDigit n)
  where
    go : (s : List ℕ) → All IsDigit s → All (λ c. c ≢ b) s
    go [] d = tt
    go (c ∷ s) d = ((λ e. h (subst IsDigit e d.0)), go s d.1)

atoi_test :
    (atoi (b'-' ∷ b'1' ∷ b'2' ∷ []) ≡ (negsuc 11, true))
    × (atoi (b'1' ∷ b'x' ∷ []) ≡ (pos 0, false))
unfolding atoi scan
atoi_test = (refl, refl)
