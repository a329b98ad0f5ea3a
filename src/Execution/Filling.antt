-- ===== src/Execution/Filling.antt =====
-- The sweep of `cost_to_trade` over the levels of a side: its checked sums, and what it captures.
use crossbook.Common.{
  ℕ, ◌+◌, ◌-◌, ◌*◌, ◌^◌, ◌≤◌, ◌<◌, ◌≡◌, ◌⊎◌, inl, inr, refl, sym, ap, ◌∙◌, subst, arith, min,
}
use crossbook.Common.{
  Bool, true, false, List, [], ◌∷◌, none, some, if◌then◌else◌, All, ltb, if_cases,
}
use crossbook.Common.Int.{ℤ, pos, negsuc, pos_part, ltb_ℤ, ◌-ℤ◌, ◌+ℤ◌}
use native.Mathlib.Nat.{mod-eq_of_lt}
use crossbook.Types.{Price, Level}
use crossbook.Fixed.{max_int64}
use crossbook.Fixed.Parse.Canonical.{checked_mul_lem}
use crossbook.Checksum.Payload.{IsQuoted}
use crossbook.Book.Visit.{visit, resume}
use crossbook.Execution.{
  Sweep, checked_mul_signed, checked_add_signed, contribute, magnitude_u64, visit_wanted, taken,
}

-- All that rests on the levels, and what the next `wanted` of it is worth.
abbrev pub depth : List Level → ℕ
depth [] = 0
depth (l ∷ ls) = pos_part l.qty + depth ls

pub value : ℕ → List Level → ℕ
value wanted [] = 0
value wanted (l ∷ ls) =
    let rest = value (wanted - pos_part l.qty) ls in
    pos_part l.price * min (pos_part l.qty) wanted + rest

magnitude_u64_pos : (n : ℕ) → n < 2 ^ 63 → magnitude_u64 (pos n) ≡ n
magnitude_u64_pos n h = mod-eq_of_lt (omega arith)

pub checked_mul_signed_lem :
    (p t : ℕ)
    → p < 2 ^ 63
    → t < 2 ^ 63
    → checked_mul_signed (pos p) (pos t)
      ≡ (if ltb max_int64 (p * t) then none else some (pos (p * t)))
unfolding checked_mul_signed
checked_mul_signed_lem p t hp ht =
    rw (magnitude_u64_pos p hp, magnitude_u64_pos t ht, checked_mul_lem p t) (ground arith)

pub contribute_lem :
    (n p t : ℕ)
    → n < 2 ^ 63
    → p < 2 ^ 63
    → t < 2 ^ 63
    → contribute (pos n) (pos p) (pos t)
      ≡ (if ltb max_int64 (n + p * t) then none else some (pos (n + p * t)))
unfolding contribute checked_add_signed ◌+ℤ◌ ◌-ℤ◌
contribute_lem n p t hn hp ht = rw (checked_mul_signed_lem p t hp ht) (ground arith)

pub pos_of : (a : ℤ) → 0 < pos_part a → a ≡ pos (pos_part a)
pos_of (pos n) h = refl
pos_of (negsuc n) h = absurd (omega arith)

value_zero : (ls : List Level) → value 0 ls ≡ 0
unfolding value
value_zero [] = refl
value_zero (l ∷ ls) =
    let rest : value (0 - pos_part l.qty) ls ≡ 0 =
      ap (λ n. value n ls) (omega arith) ∙ value_zero ls in
    let none_taken : min (pos_part l.qty) 0 ≡ 0 = omega arith in rw (rest, none_taken) (grind arith)

-- What the visitor has captured once the size `n` is worth so much, with `w` still wanted.
abbrev so_far : ℕ → ℕ → Price → ℕ → Sweep
so_far n w price levels = record {
  notional = pos n;
  total = pos w;
  overflowed = false;
  stopped = false;
  limit_price = price;
  levels = levels;
}

abbrev taken_if_fits : ℕ → ℕ → Price → ℕ → Level → ℕ → Sweep × Bool
taken_if_fits n w price levels l t = taken (so_far n w price levels) l.price (pos t) (
    if ltb max_int64 (n + pos_part l.price * t)
    then none
    else some (pos (n + pos_part l.price * t)))

visit_wanted_lem :
    (n w : ℕ) (price : Price) (levels : ℕ) (l : Level)
    → IsQuoted l
    → n < 2 ^ 63
    → w < 2 ^ 63
    → visit_wanted (so_far n w price levels) l
      ≡ taken_if_fits n w price levels l (min (pos_part l.qty) w)
visit_wanted_lem n w price levels l (hp, hq, pp, pq) hn hw =
    ap (λ t. taken x l.price t (contribute (pos n) l.price t)) taken_eq
    ∙ ap (λ p. taken x l.price (pos t) (contribute (pos n) p (pos t))) (pos_of l.price pp)
    ∙ ap (taken x l.price (pos t))
        (contribute_lem n (pos_part l.price) t hn hp.0 (omega (arith, hq)))
  where
    x : Sweep
    x = so_far n w price levels

    t : ℕ
    t = min (pos_part l.qty) w

    smaller :
        (q : ℤ)
        → q ≡ pos (pos_part q)
        → (if ltb_ℤ q (pos w) then q else pos w) ≡ pos (min (pos_part q) w)
    smaller (pos q) e = ground arith
    smaller (negsuc q) e = ground arith

    taken_eq : (if ltb_ℤ l.qty (pos w) then l.qty else pos w) ≡ pos t
    taken_eq = smaller l.qty (pos_of l.qty pq)

-- The end of a sweep that wanted `w` more: all of its value fits, or the sweep overflowed.
abbrev pub IsSwept : ℕ → ℕ → List Level → Sweep → Type 0
IsSwept n w ls r =
    ((n + value w ls < 2 ^ 63)
      × (r.overflowed ≡ false)
      × (r.notional ≡ pos (n + value w ls))
      × (r.total ≡ pos (w - depth ls)))
    ⊎ ((2 ^ 63 ≤ n + value w ls) × (r.overflowed ≡ true))

pub sub_pos : (w t : ℕ) → t ≤ w → pos w -ℤ pos t ≡ pos (w - t)
unfolding ◌-ℤ◌
sub_pos w t h = ground arith

resumed :
    {A : Type 0} (P : A → Type 0) (a : A) (k : A → A) (b : Bool)
    → (b ≡ true → P (k a))
    → (b ≡ false → P a)
    → P (resume (a, b) k)
resumed P a k true f g = f refl
resumed P a k false f g = g refl

IsSwept-on :
    (l : Level) (ls : List Level) (n w : ℕ) (r : Sweep)
    → let t = min (pos_part l.qty) w in
      IsSwept (n + pos_part l.price * t) (w - t) ls r → IsSwept n w (l ∷ ls) r
unfolding value
IsSwept-on l ls n w r s =
    let same : value (w - min (pos_part l.qty) w) ls ≡ value (w - pos_part l.qty) ls =
      ap (λ n. value n ls) (omega arith) in
    elim s [
      | inl (b, o, e, m) ↦
          inl (omega (arith, same), o, e ∙ ap pos (omega (arith, same)), m ∙ ap pos (omega arith))
      | inr (b, o) ↦ inr (omega (arith, same), o)
    ]

pub visit-IsSwept :
    (ls : List Level) (n w : ℕ) (price : Price) (levels : ℕ)
    → All IsQuoted ls
    → n < 2 ^ 63
    → w < 2 ^ 63
    → IsSwept n w ls (visit visit_wanted ls (so_far n w price levels))
unfolding visit value
visit-IsSwept [] n w price levels h hn hw =
    inl (omega arith, refl, ap pos (omega arith), ap pos (omega arith))
visit-IsSwept (l ∷ ls) n w price levels (g, h) hn hw =
    subst (λ r. IsSwept n w (l ∷ ls) (resume r (visit visit_wanted ls)))
      (sym (visit_wanted_lem n w price levels l g hn hw))
      (if_cases
        (λ o.
          IsSwept n w (l ∷ ls)
            (resume (taken (so_far n w price levels) l.price (pos t) o) (visit visit_wanted ls)))
        (ltb max_int64 (n + pos_part l.price * t)) none _ (λ e. inr (ground arith, refl))
        (λ e.
          subst
            (λ z.
              IsSwept n w (l ∷ ls)
                (resume (record next { total = z }, ltb_ℤ (pos 0) z) (visit visit_wanted ls)))
            (sym (sub_pos w t (omega arith)))
            (resumed (IsSwept n w (l ∷ ls)) next (visit visit_wanted ls)
              (ltb_ℤ (pos 0) (pos (w - t)))
              (λ m. IsSwept-on l ls n w (visit visit_wanted ls next) (
                visit-IsSwept ls (n + pos_part l.price * t) (w - t) l.price (levels + 1) h
                  (ground arith) (omega arith)))
              (λ m. inl (ended e m)))))
  where
    t : ℕ
    t = min (pos_part l.qty) w

    next : Sweep
    next = so_far (n + pos_part l.price * t) (w - t) l.price (levels + 1)

    ended :
        ltb max_int64 (n + pos_part l.price * t) ≡ false
        → ltb_ℤ (pos 0) (pos (w - t)) ≡ false
        → (n + value w (l ∷ ls) < 2 ^ 63)
          × (false ≡ false)
          × (pos (n + pos_part l.price * t) ≡ pos (n + value w (l ∷ ls)))
          × (pos (w - t) ≡ pos (w - depth (l ∷ ls)))
    ended e m =
        let rest : value (w - pos_part l.qty) ls ≡ 0 =
          ap (λ n. value n ls) (ground arith) ∙ value_zero ls in
        (ground (arith, rest), refl, ap pos (omega (arith, rest)), ap pos (ground arith))
