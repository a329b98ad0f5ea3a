-- ===== src/Fixed/Token.antt =====
-- The checksum token of include/crossbook/fixed.hpp against Kraken's own description of it, and the
-- size of the buffer that `format_fixed_into` writes to.
use crossbook.Common.{
  ◌≢◌, subst, ℕ, zero, suc, ◌+◌, ◌-◌, ◌/◌, ◌^◌, ◌≤◌, ◌<◌, ◌≡◌, refl, sym, ap, ◌∙◌, arith,
}
use crossbook.Common.{
  false, List, [], ◌∷◌, ◌++◌, append-nil, append_assoc, length, length-append, All,
}
use crossbook.Common.{if◌then◌else◌, ◌==◌, ==_iff, Bool-cases, inl, inr, lt→ltb}
use crossbook.Common.Int.{ℤ, pos, negsuc, pos_part, IsInt64}
use crossbook.Fixed.{
  digit_char, magnitude, format_fixed, format_integer, checksum_token, point, signed,
}
use crossbook.Fixed.Digits.{
  IsDigit, decimal, fraction, shifted, format_integer_lem, length-fraction,
}
use crossbook.Fixed.Digits.{decimal-IsDigit, fraction-IsDigit, decimal-pos, tenth}
use crossbook.Fixed.Parse.RoundTrip.{format_fixed_lem, magnitude_lem}

-- Kraken's transformation of a token on the wire: remove the point, then strip leading zeros.
pub remove_point : List ℕ → List ℕ
remove_point [] = []
remove_point (c ∷ cs) = if c == b'.' then remove_point cs else c ∷ remove_point cs

pub strip_zeros : List ℕ → List ℕ
strip_zeros [] = []
strip_zeros (c ∷ cs) = if c == b'0' then strip_zeros cs else c ∷ cs

abbrev pub wire_token : List ℕ → List ℕ
wire_token text = strip_zeros (remove_point text)

remove_point_digits :
    (ds rest : List ℕ) → All IsDigit ds → remove_point (ds ++ rest) ≡ ds ++ remove_point rest
unfolding remove_point
remove_point_digits [] rest h = refl
remove_point_digits (d ∷ ds) rest (h, hs) = ground (arith, remove_point_digits ds rest hs)

or_else : List ℕ → List ℕ → List ℕ
or_else [] ys = strip_zeros ys
or_else (x ∷ xs) ys = (x ∷ xs) ++ ys

-- Stripping a concatenation depends only on the stripped front.
strip_zeros-append : (xs ys : List ℕ) → strip_zeros (xs ++ ys) ≡ or_else (strip_zeros xs) ys
unfolding strip_zeros or_else
strip_zeros-append [] ys = refl
strip_zeros-append (x ∷ xs) ys = ground (arith, strip_zeros-append xs ys)

or_else-cons : (ds ys : List ℕ) → 0 < length ds → or_else ds ys ≡ ds ++ ys
unfolding or_else
or_else-cons [] ys h = absurd (omega arith)
or_else-cons (d ∷ ds) ys h = refl

-- One more round of fuel changes nothing where the fuel was enough.
decimal-stable : (f m : ℕ) → m < 10 ^ suc f → decimal (suc (suc f)) m ≡ decimal (suc f) m
unfolding decimal
decimal-stable zero m h = ground arith
decimal-stable (suc f) m h = elim (Bool-cases (m / 10 == 0)) [
  | inl e ↦ rw e
  | inr e ↦
      rw e (ap (λ ds. ds ++ digit_char m ∷ []) (decimal-stable f (m / 10) (tenth (suc f) m h)))
]

strip_zeros-decimal_zero : (f : ℕ) → strip_zeros (decimal (suc f) 0) ≡ []
unfolding decimal strip_zeros
strip_zeros-decimal_zero f = refl

-- Dropping the lowest digit and putting it back.
strip_zeros-decimal :
    (f m : ℕ)
    → m < 10 ^ suc f
    → or_else (strip_zeros (decimal (suc f) (m / 10))) (digit_char m ∷ [])
      ≡ strip_zeros (decimal (suc f) m)
strip_zeros-decimal f m h = elim (Bool-cases (m / 10 == 0)) [
  | inl e ↦
      ap (λ q. or_else (strip_zeros (decimal (suc f) q)) (digit_char m ∷ []))
        ((==_iff (m / 10) 0).0 e)
      ∙ ap (λ ds. or_else ds (digit_char m ∷ [])) (strip_zeros-decimal_zero f)
      ∙ unfold or_else decimal in rw e
  | inr e ↦
      ap (λ ds. or_else (strip_zeros ds) (digit_char m ∷ [])) (shorter f m h e)
      ∙ sym (strip_zeros-append (decimal f (m / 10)) (digit_char m ∷ []))
      ∙ unfold decimal in rw e
]
  where
    shorter :
        (f' m' : ℕ)
        → m' < 10 ^ suc f'
        → (m' / 10 == 0) ≡ false
        → decimal (suc f') (m' / 10) ≡ decimal f' (m' / 10)
    shorter zero m' h' e = absurd (ground (arith, e, tenth 0 m' h'))
    shorter (suc f') m' h' e = decimal-stable f' (m' / 10) (tenth (suc f') m' h')

strip_zeros-fraction :
    (k f m : ℕ)
    → m < 10 ^ suc f
    → strip_zeros (decimal (suc f) (shifted k m) ++ fraction k m) ≡ strip_zeros (decimal (suc f) m)
unfolding fraction
strip_zeros-fraction zero f m h = ap strip_zeros (append-nil (decimal (suc f) m))
strip_zeros-fraction (suc k) f m h =
    ap strip_zeros (
      sym (
        append_assoc (decimal (suc f) (shifted k (m / 10))) (fraction k (m / 10))
          (digit_char m ∷ [])))
    ∙ strip_zeros-append (decimal (suc f) (shifted k (m / 10)) ++ fraction k (m / 10))
        (digit_char m ∷ [])
    ∙ ap (λ ds. or_else ds (digit_char m ∷ [])) (strip_zeros-fraction k f (m / 10) (omega arith))
    ∙ strip_zeros-decimal f m h

-- A positive number has no leading zero.
strip_zeros_none : (f m : ℕ) → 0 < m → m < 10 ^ f → strip_zeros (decimal f m) ≡ decimal f m
unfolding decimal
strip_zeros_none zero m p h = absurd (omega arith)
strip_zeros_none (suc f) m p h = elim (Bool-cases (m / 10 == 0)) [
  | inl e ↦ rw e (unfold strip_zeros in ground (arith, e))
  | inr e ↦ rw e (
      strip_zeros-append (decimal f (m / 10)) (digit_char m ∷ [])
      ∙ ap (λ ds. or_else ds (digit_char m ∷ []))
          (strip_zeros_none f (m / 10) (ground (arith, e)) (tenth f m h))
      ∙ or_else-cons (decimal f (m / 10)) (digit_char m ∷ [])
          (decimal_pos f (m / 10) (ground (arith, e)) (tenth f m h)))
]
  where
    decimal_pos : (g q : ℕ) → 0 < q → q < 10 ^ g → 0 < length (decimal g q)
    decimal_pos zero q a b = absurd (omega arith)
    decimal_pos (suc g) q a b = decimal-pos g q

fits_twenty : (v : ℤ) → IsInt64 v → magnitude v < 10 ^ 20
fits_twenty v h = omega (arith, magnitude_lem v h)

remove_point_signed :
    (s m : ℕ)
    → remove_point (decimal 20 (shifted s m) ++ point s (fraction s m))
      ≡ decimal 20 (shifted s m) ++ fraction s m
remove_point_signed s m =
    remove_point_digits (decimal 20 (shifted s m)) (point s (fraction s m))
      (decimal-IsDigit 20 (shifted s m))
    ∙ ap (◌++◌ (decimal 20 (shifted s m))) (behind s)
  where
    digits_only : (ds : List ℕ) → All IsDigit ds → remove_point ds ≡ ds
    digits_only ds h =
        ap remove_point (sym (append-nil ds))
        ∙ remove_point_digits ds [] h
        ∙ unfold remove_point in append-nil ds

    behind : (k : ℕ) → remove_point (point k (fraction k m)) ≡ fraction k m
    behind zero = unfold remove_point fraction in refl
    behind (suc k) =
        rw (lt→ltb 0 (suc k) (omega arith))
          (unfold remove_point in digits_only (fraction (suc k) m) (fraction-IsDigit (suc k) m))

-- For every positive int64_t mantissa and every scale, Kraken's transformation of the canonical
-- spelling (point removed, leading zeros stripped) is the token that the code computes from the
-- mantissa alone.
pub wire_token-format_fixed :
    (v : ℤ) (s : ℕ) → IsInt64 v → 0 < pos_part v → wire_token (format_fixed v s) ≡ checksum_token v
unfolding checksum_token
wire_token-format_fixed v s h p =
    ap wire_token (format_fixed_lem v s ∙ unsigned_text v p)
    ∙ ap strip_zeros (remove_point_signed s (magnitude v))
    ∙ strip_zeros-fraction s 19 (magnitude v) (fits_twenty v h)
    ∙ strip_zeros_none 20 (magnitude v) (omega (arith, magnitude_lem v h)) (fits_twenty v h)
    ∙ sym (append-nil (decimal 20 (magnitude v)))
    ∙ sym (format_integer_lem 20 (magnitude v) [])
  where
    unsigned_text : (w : ℤ) → 0 < pos_part w → {buf : List ℕ} → signed w buf ≡ buf
    unsigned_text (pos n) q = ground arith
    unsigned_text (negsuc n) q = absurd (omega arith)

-- At zero the identity fails at every scale: Kraken's transformation of the canonical spelling of
-- zero is not the token that the code computes for it.
pub wire_token-ne-checksum_token_zero :
    (s : ℕ) → wire_token (format_fixed (pos 0) s) ≢ checksum_token (pos 0)
wire_token-ne-checksum_token_zero s e = cc (sym stripped ∙ e ∙ token)
  where
    stripped : wire_token (format_fixed (pos 0) s) ≡ []
    stripped =
        ap wire_token (format_fixed_lem (pos 0) s)
        ∙ ap strip_zeros (remove_point_signed s 0)
        ∙ strip_zeros-fraction s 19 0 (omega arith)
        ∙ strip_zeros-decimal_zero 19

    token : checksum_token (pos 0) ≡ b'0' ∷ []
    token = unfold checksum_token format_integer in refl

pub length-decimal_bound : (f k m : ℕ) → m < 10 ^ suc k → length (decimal f m) ≤ suc k
unfolding decimal
length-decimal_bound zero k m h = omega arith
length-decimal_bound (suc f) zero m h = ground arith
length-decimal_bound (suc f) (suc k) m h = elim (Bool-cases (m / 10 == 0)) [
  | inl e ↦ rw e (omega arith)
  | inr e ↦ rw e (
      omega (
        arith,
        length-append (decimal f (m / 10)) (digit_char m ∷ []),
        length-decimal_bound f k (m / 10) (tenth (suc k) m h),
      ))
]

magnitude-le : (v : ℤ) → IsInt64 v → magnitude v ≤ 2 ^ 63
magnitude-le (pos n) h = ground arith
magnitude-le (negsuc n) h = ground arith

shifted_bound : (s k j m : ℕ) → j ≡ s + k → m < 10 ^ j → shifted s m < 10 ^ k
shifted_bound zero k j m e h = subst (λ i. m < 10 ^ i) (e ∙ omega arith) h
shifted_bound (suc s) k zero m e h = absurd (omega arith)
shifted_bound (suc s) k (suc j) m e h = shifted_bound s k j (m / 10) (omega arith) (tenth j m h)

length-point : (s : ℕ) (buf : List ℕ) → length (point s buf) ≤ suc (length buf)
length-point s buf = ground arith

length-signed : (v : ℤ) (buf : List ℕ) → length (signed v buf) ≤ suc (length buf)
length-signed v buf = ground arith

-- For every int64_t mantissa and every scale up to 18 the text that `format_fixed_into` writes fits
-- the 24 bytes of its buffer.
pub length-format_fixed : (v : ℤ) (s : ℕ) → IsInt64 v → s ≤ 18 → length (format_fixed v s) ≤ 24
length-format_fixed v s h k = rw (format_fixed_lem v s) (
    omega (
      arith,
      length-signed v (decimal 20 (shifted s m) ++ point s (fraction s m)),
      length-append (decimal 20 (shifted s m)) (point s (fraction s m)),
      length-point s (fraction s m),
      length-fraction s m,
      length-decimal_bound 20 (18 - s) (shifted s m)
          (shifted_bound s (suc (18 - s)) 19 m (omega arith) (omega (arith, magnitude-le v h))),
    ))
  where
    m : ℕ
    m = magnitude v
