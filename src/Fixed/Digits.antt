-- ===== src/Fixed/Digits.antt =====
-- What the digit loops write: the value of the digits, their number, and which digits they are.
use crossbook.Common.{
  ℕ, zero, suc, ◌+◌, ◌-◌, ◌*◌, ◌/◌, ◌^◌, ◌≤◌, ◌<◌, ◌≡◌, refl, ap, ◌∙◌, sym, arith,
}
use crossbook.Common.{List, [], ◌∷◌, ◌++◌, append_assoc, length, length-append, All, All-append}
use crossbook.Common.{if◌then◌else◌, ◌==◌, Bool-cases, inl, inr, ==_iff}
use native.Mathlib.Nat.{pow-suc}
use crossbook.Fixed.{digit_char, format_fraction, format_integer}

abbrev pub IsDigit : ℕ → Type 0
IsDigit c = (b'0' ≤ c) × (c ≤ b'9')

-- Reading digits behind a number that has been read.
abbrev pub value_from : ℕ → List ℕ → ℕ
value_from d [] = d
value_from d (c ∷ cs) = value_from (d * 10 + (c - b'0')) cs

pub le-value_from : (d : ℕ) (cs : List ℕ) → d ≤ value_from d cs
le-value_from d [] = omega arith
le-value_from d (c ∷ cs) = omega (arith, le-value_from (d * 10 + (c - b'0')) cs)

pub value_from-append :
    (d : ℕ) (xs ys : List ℕ) → value_from d (xs ++ ys) ≡ value_from (value_from d xs) ys
value_from-append d [] ys = refl
value_from-append d (x ∷ xs) ys = value_from-append (d * 10 + (x - b'0')) xs ys

-- `m` without its last `k` digits.
abbrev pub shifted : ℕ → ℕ → ℕ
shifted zero m = m
shifted (suc k) m = shifted k (m / 10)

-- The last `k` digits of `m`, padded with zeros.
unfoldable pub fraction : ℕ → ℕ → List ℕ
fraction zero m = []
fraction (suc k) m = fraction k (m / 10) ++ digit_char m ∷ []

pub format_fraction_lem :
    (k m : ℕ) (buf : List ℕ) → format_fraction k m buf ≡ (shifted k m, fraction k m ++ buf)
unfolding format_fraction fraction
format_fraction_lem zero m buf = refl
format_fraction_lem (suc k) m buf =
    format_fraction_lem k (m / 10) (digit_char m ∷ buf)
    ∙ ap (λ b. (shifted k (m / 10), b))
        (sym (append_assoc (fraction k (m / 10)) (digit_char m ∷ []) buf))

pub value-fraction : (k m : ℕ) → value_from (shifted k m) (fraction k m) ≡ m
unfolding fraction
value-fraction zero m = refl
value-fraction (suc k) m =
    value_from-append (shifted k (m / 10)) (fraction k (m / 10)) (digit_char m ∷ [])
    ∙ omega (arith, value-fraction k (m / 10))

pub length-fraction : (k m : ℕ) → length (fraction k m) ≡ k
unfolding fraction
length-fraction zero m = refl
length-fraction (suc k) m =
    omega
      (arith, length-append (fraction k (m / 10)) (digit_char m ∷ []), length-fraction k (m / 10))

pub fraction-IsDigit : (k m : ℕ) → All IsDigit (fraction k m)
unfolding fraction
fraction-IsDigit zero m = tt
fraction-IsDigit (suc k) m =
    All-append IsDigit (fraction k (m / 10)) (digit_char m ∷ []) (fraction-IsDigit k (m / 10))
      (omega arith)

-- The decimal digits of `m`, highest first, as far as the fuel goes.
unfoldable pub decimal : ℕ → ℕ → List ℕ
decimal zero m = []
decimal (suc fuel) m =
    let rest = decimal fuel (m / 10) in
    if m / 10 == 0 then digit_char m ∷ [] else rest ++ digit_char m ∷ []

pub format_integer_lem :
    (fuel m : ℕ) (buf : List ℕ) → format_integer fuel m buf ≡ decimal fuel m ++ buf
unfolding format_integer decimal
format_integer_lem zero m buf = refl
format_integer_lem (suc fuel) m buf = elim (Bool-cases (m / 10 == 0)) [
  | inl e ↦ rw e
  | inr e ↦ rw e (
      format_integer_lem fuel (m / 10) (digit_char m ∷ buf)
      ∙ sym (append_assoc (decimal fuel (m / 10)) (digit_char m ∷ []) buf))
]

pub tenth : (fuel m : ℕ) → m < 10 ^ suc fuel → m / 10 < 10 ^ fuel
tenth fuel m h = omega (arith, pow-suc 10 fuel)

pub value-decimal : (fuel m : ℕ) → m < 10 ^ fuel → value_from 0 (decimal fuel m) ≡ m
unfolding decimal
value-decimal zero m h = omega arith
value-decimal (suc fuel) m h = elim (Bool-cases (m / 10 == 0)) [
  | inl e ↦ rw e (omega (arith, (==_iff _ 0).0 e))
  | inr e ↦ rw e (
      value_from-append 0 (decimal fuel (m / 10)) (digit_char m ∷ [])
      ∙ omega (arith, value-decimal fuel (m / 10) (tenth fuel m h)))
]

pub decimal-IsDigit : (fuel m : ℕ) → All IsDigit (decimal fuel m)
unfolding decimal
decimal-IsDigit zero m = tt
decimal-IsDigit (suc fuel) m = elim (Bool-cases (m / 10 == 0)) [
  | inl e ↦ rw e (omega arith)
  | inr e ↦ rw e (
      All-append IsDigit (decimal fuel (m / 10)) (digit_char m ∷ []) (decimal-IsDigit fuel (m / 10))
        (omega arith))
]

pub length-decimal : (fuel m : ℕ) → length (decimal fuel m) ≤ fuel
unfolding decimal
length-decimal zero m = omega arith
length-decimal (suc fuel) m =
    ground (
      arith,
      length-append (decimal fuel (m / 10)) (digit_char m ∷ []),
      length-decimal fuel (m / 10),
    )

pub decimal-pos : (fuel m : ℕ) → 0 < length (decimal (suc fuel) m)
unfolding decimal
decimal-pos fuel m = ground (arith, length-append (decimal fuel (m / 10)) (digit_char m ∷ []))

-- The digits do not depend on the fuel where it is enough.
pub decimal_fuel :
    (f g m : ℕ) → m < 10 ^ suc f → m < 10 ^ suc g → decimal (suc f) m ≡ decimal (suc g) m
unfolding decimal
decimal_fuel zero zero m hf hg = refl
decimal_fuel zero (suc g) m hf hg = ground arith
decimal_fuel (suc f) zero m hf hg = ground arith
decimal_fuel (suc f) (suc g) m hf hg = elim (Bool-cases (m / 10 == 0)) [
  | inl e ↦ rw e
  | inr e ↦ rw e (
      ap (λ ds. ds ++ digit_char m ∷ [])
        (decimal_fuel f g (m / 10) (tenth (suc f) m hf) (tenth (suc g) m hg)))
]

-- A number is never too small to be the fuel of its own digits.
pub lt-pow_ten : (m : ℕ) → m < 10 ^ suc m
lt-pow_ten zero = omega arith
lt-pow_ten (suc m) = omega (arith, pow-suc 10 (suc m), lt-pow_ten m)
