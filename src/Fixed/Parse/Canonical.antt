-- ===== src/Fixed/Parse/Canonical.antt =====
-- The range of what `parse_fixed` returns, and what the canonical-spelling guard accepts.
use crossbook.Common.{ℕ, zero, suc, ◌+◌, ◌*◌, ◌/◌, ◌%◌, ◌^◌, ◌≤◌, ◌≡◌, ◌↔◌, refl, sym, arith}
use crossbook.Common.{Bool, true, false, List, [], ◌∷◌, Option, some, none}
use crossbook.Common.{if◌then◌else◌, ltb, ◌==◌, ==_iff, Bool-cases, Option-cases, inl, inr}
use crossbook.Common.Int.{ℤ, pos, negsuc, ◌+ℤ◌, ◌-ℤ◌}
use native.Mathlib.Nat.{div-lt_iff_lt-mul, div-le_self, div-mul-le_self}
use crossbook.Fixed.{max_scale, max_int64, format_fixed}
use crossbook.Fixed.Parse.{
  Digits, ParseResult, parse_fixed, parse_text, parse_unsigned, take_sign, scan_fraction,
  scan_digits,
}
use crossbook.Fixed.Parse.{
  parse_exponent, finish, rescale, is_digit, push_digit, append_digit, checked_mul,
}
use crossbook.Fixed.Parse.{eq_bytes, strip_plus, is_canonical_at_scale, is_ok}
use crossbook.Fixed.Parse.RoundTrip.{IsSymmetric, parse_fixed-format_fixed}

push_digit_bound :
    (d c : ℕ) (o : Bool) → is_digit c ≡ true → d ≤ max_int64 → (push_digit (d, o) c).0 ≤ max_int64
unfolding push_digit append_digit
push_digit_bound d c true e h = h
push_digit_bound d c false e h = ground arith

scan_digits_bound :
    (d : ℕ) (o : Bool) (n : ℕ) (cs : List ℕ)
    → d ≤ max_int64
    → (scan_digits (d, o) n cs).digits ≤ max_int64
unfolding scan_digits
scan_digits_bound d o n [] h = h
scan_digits_bound d o n (c ∷ cs) h = elim (Bool-cases (is_digit c)) [
  | inl e ↦ rw e (
      scan_digits_bound (push_digit (d, o) c).0 (push_digit (d, o) c).1 (n + 1) cs
        (push_digit_bound d c o e h))
  | inr e ↦ rw e h
]

scan_fraction_bound :
    (d : ℕ) (o : Bool) (cs : List ℕ) → d ≤ max_int64 → (scan_fraction (d, o) cs).digits ≤ max_int64
unfolding scan_fraction
scan_fraction_bound d o [] h = h
scan_fraction_bound d o (c ∷ cs) h = elim (Bool-cases (c == b'.')) [
  | inl e ↦ rw e (scan_digits_bound d o 0 cs h)
  | inr e ↦ rw e h
]

negated : (b : Bool) (m : ℕ) → m ≤ max_int64 → IsSymmetric (if b then pos 0 -ℤ pos m else pos m)
unfolding ◌-ℤ◌
negated true m h = ground arith
negated false m h = ground arith

product_bound : (a b : ℕ) → a ≤ max_int64 / b → a * b ≤ max_int64
product_bound a b h = grind (arith, div-mul-le_self max_int64 b)

-- The test of `checked_mul` is exact.
pub checked_mul_lem :
    (a b : ℕ) → checked_mul a b ≡ (if ltb max_int64 (a * b) then none else some (a * b))
unfolding checked_mul
checked_mul_lem zero b = grind arith
checked_mul_lem (suc a) zero = grind arith
checked_mul_lem (suc a) (suc b) =
    grind (arith, div-lt_iff_lt-mul {k = suc b} {x = max_int64} {y = suc a} (omega arith))

-- A product that `checked_mul` lets through.
checked_mul_bound : (a b : ℕ) {m : ℕ} → checked_mul a b ≡ some m → m ≤ max_int64
unfolding checked_mul
checked_mul_bound a b e = grind (arith, div-mul-le_self max_int64 b, product_bound a b)

rescale_bound : (b : Bool) (d : ℕ) (z : ℤ) → d ≤ max_int64 → IsSymmetric (rescale b d z).mantissa
unfolding rescale
rescale_bound b d (pos zero) h = negated b d h
rescale_bound b d (pos (suc k)) h = elim (Bool-cases (ltb max_scale (suc k))) [
  | inl e ↦ rw e (omega arith)
  | inr e ↦ rw e (elim (Option-cases (checked_mul d (10 ^ suc k))) [
    | inl n ↦ rw n (omega arith)
    | inr (m, n) ↦ rw n (negated b m (checked_mul_bound d (10 ^ suc k) n))
  ])
]
rescale_bound b d (negsuc k) h = elim (Bool-cases (ltb max_scale (suc k))) [
  | inl e ↦
      rw e (elim (Bool-cases (d == 0)) [ inl z ↦ rw z (omega arith) | inr z ↦ rw z (omega arith) ])
  | inr e ↦ rw e (elim (Bool-cases (d % 10 ^ suc k == 0)) [
    | inl z ↦ rw z (negated b (d / 10 ^ suc k) (omega (arith, div-le_self d (10 ^ suc k))))
    | inr z ↦ rw z (omega arith)
  ])
]

finish_bound :
    (b : Bool) (s : ℕ) (f : Digits) (x : Option (ℤ × List ℕ))
    → f.digits ≤ max_int64
    → IsSymmetric (finish b s f x).mantissa
unfolding finish
finish_bound b s f none h = omega arith
finish_bound b s f (some (e, [])) h = elim (Bool-cases f.overflowed) [
  | inl o ↦ rw o (omega arith)
  | inr o ↦ simp o (rescale_bound b f.digits (pos s +ℤ e -ℤ pos f.count) h)
]
finish_bound b s f (some (e, c ∷ cs)) h = omega arith

parse_unsigned_bound :
    (b : Bool) (s : ℕ) (text : List ℕ) → IsSymmetric (parse_unsigned b s text).mantissa
unfolding parse_unsigned
parse_unsigned_bound b s text = elim (Bool-cases (i.count + f.count == 0)) [
  | inl z ↦ rw z (omega arith)
  | inr z ↦ rw z (
      finish_bound b s f (parse_exponent f.rest) (
        scan_fraction_bound i.digits i.overflowed i.rest
          (scan_digits_bound 0 false 0 text (omega arith))))
]
  where
    i : Digits
    i = scan_digits (0, false) 0 text

    f : Digits
    f = scan_fraction (i.digits, i.overflowed) i.rest

parse_text_bound : (s : ℕ) (text : List ℕ) → IsSymmetric (parse_text s text).mantissa
unfolding parse_text
parse_text_bound s [] = omega arith
parse_text_bound s (c ∷ cs) = parse_unsigned_bound (take_sign (c ∷ cs)).0 s (take_sign (c ∷ cs)).1

-- Whatever the text and the scale, the mantissa that `parse_fixed` returns lies strictly between
-- -2 ^ 63 and 2 ^ 63.
pub parse_fixed-IsSymmetric : (text : List ℕ) (s : ℕ) → IsSymmetric (parse_fixed text s).mantissa
unfolding parse_fixed
parse_fixed-IsSymmetric text s = elim (Bool-cases (ltb max_scale s)) [
  | inl e ↦ rw e (omega arith)
  | inr e ↦ rw e (parse_text_bound s text)
]

eq_bytes→eq : (xs ys : List ℕ) → eq_bytes xs ys ≡ true → xs ≡ ys
unfolding eq_bytes
eq_bytes→eq [] [] e = refl
eq_bytes→eq [] (y ∷ ys) e = cc
eq_bytes→eq (x ∷ xs) [] e = cc
eq_bytes→eq (x ∷ xs) (y ∷ ys) e = ground (arith, eq_bytes→eq xs ys)

eq_bytes_refl : (xs : List ℕ) → eq_bytes xs xs ≡ true
unfolding eq_bytes
eq_bytes_refl [] = refl
eq_bytes_refl (x ∷ xs) = rw ((==_iff x x).1 refl) (eq_bytes_refl xs)

-- At a scale up to 18 the guard accepts a text if and only if the text, without one leading '+',
-- is what `format_fixed` writes for some mantissa that lies strictly between -2 ^ 63 and 2 ^ 63.
pub is_canonical_at_scale_iff :
    (text : List ℕ) (s : ℕ)
    → s ≤ 18
    → (is_canonical_at_scale text s ≡ true)
      ↔ ((v : ℤ) × IsSymmetric v × (strip_plus text ≡ format_fixed v s))
unfolding is_canonical_at_scale
is_canonical_at_scale_iff text s k = (sound, λ (v, h, e). complete v h e)
  where
    parsed : ParseResult
    parsed = parse_fixed (strip_plus text) s

    sound :
        (if is_ok parsed.error
            then eq_bytes (format_fixed parsed.mantissa s) (strip_plus text)
            else false)
          ≡ true
        → (v : ℤ) × IsSymmetric v × (strip_plus text ≡ format_fixed v s)
    sound e = (
      parsed.mantissa,
      parse_fixed-IsSymmetric (strip_plus text) s,
      sym (eq_bytes→eq (format_fixed parsed.mantissa s) (strip_plus text) (ground (arith, e))),
    )

    complete :
        (v : ℤ)
        → IsSymmetric v
        → strip_plus text ≡ format_fixed v s
        → (if is_ok parsed.error
            then eq_bytes (format_fixed parsed.mantissa s) (strip_plus text)
            else false)
          ≡ true
    complete v h e = rw (e, parse_fixed-format_fixed v s h k) (eq_bytes_refl (format_fixed v s))
