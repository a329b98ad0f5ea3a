-- ===== src/Execution/Within.antt =====
-- The sweep of `executable_size` over the levels of a side, as far as the limit.
use crossbook.Common.{
  ℕ, ◌+◌, ◌*◌, ◌^◌, ◌≤◌, ◌<◌, ◌≡◌, ◌⊎◌, inl, inr, refl, sym, ap, ap₂, ◌∙◌, subst, arith,
}
use crossbook.Common.{
  Bool, true, false, List, [], ◌∷◌, none, some, if◌then◌else◌, All, ltb, length, if_cases,
}
use crossbook.Common.Int.{pos, pos_part, ◌-ℤ◌, ◌+ℤ◌}
use crossbook.Types.{Side, Price, Level}
use crossbook.Fixed.{max_int64}
use crossbook.Checksum.Payload.{IsQuoted}
use crossbook.Book.Visit.{visit, resume}
use crossbook.Execution.{Sweep, checked_add_signed, contribute, add_within, visit_within}
use crossbook.Execution.Filling.{depth, contribute_lem, pos_of}
use crossbook.Execution.Limit.{no_worse, no_worse-beyond}

-- The levels as far as their prices are no worse than the limit, and what they are worth.
pub within : Side → Price → List Level → List Level
within s limit [] = []
within s limit (l ∷ ls) =
    let rest = within s limit ls in if no_worse s l.price limit then l ∷ rest else []

abbrev pub worth : List Level → ℕ
worth [] = 0
worth (l ∷ ls) = pos_part l.price * pos_part l.qty + worth ls

abbrev pub so_far : ℕ → ℕ → Price → ℕ → Sweep
so_far n w price levels = record {
  notional = pos n;
  total = pos w;
  overflowed = false;
  stopped = false;
  limit_price = price;
  levels = levels;
}

-- The end of a sweep that takes the levels `ks` of `ls`: its sums fit, or it overflowed.
abbrev pub IsSwept : ℕ → ℕ → List Level → List Level → Sweep → Type 0
IsSwept n w ks ls r =
    ((n + worth ks < 2 ^ 63)
      × (w + depth ks < 2 ^ 63)
      × (r.overflowed ≡ false)
      × (r.notional ≡ pos (n + worth ks))
      × (r.total ≡ pos (w + depth ks))
      × (r.stopped ≡ ltb (length ks) (length ls)))
    ⊎ (((2 ^ 63 ≤ n + worth ks) ⊎ (2 ^ 63 ≤ w + depth ks)) × (r.overflowed ≡ true))

added_lem :
    (w q : ℕ)
    → w < 2 ^ 63
    → q < 2 ^ 63
    → checked_add_signed (pos w) (pos q)
      ≡ (if ltb max_int64 (w + q) then none else some (pos (w + q)))
unfolding checked_add_signed ◌+ℤ◌ ◌-ℤ◌
added_lem w q hw hq = ground arith

IsSwept-on :
    (l : Level) (ks ls : List Level) (n w : ℕ) (r : Sweep)
    → IsSwept (n + pos_part l.price * pos_part l.qty) (w + pos_part l.qty) ks ls r
    → IsSwept n w (l ∷ ks) (l ∷ ls) r
IsSwept-on l ks ls n w r (inl (a, b, o, e, m, t)) = inl (
  omega (arith, a),
  omega (arith, b),
  o,
  e ∙ ap pos (omega arith),
  m ∙ ap pos (omega arith),
  t ∙ ground arith,
)
IsSwept-on l ks ls n w r (inr (inl a, o)) = inr (inl (omega (arith, a)), o)
IsSwept-on l ks ls n w r (inr (inr a, o)) = inr (inr (omega (arith, a)), o)

pub visit-IsSwept :
    (s : Side) (limit : Price) (ls : List Level) (n w : ℕ) (price : Price) (levels : ℕ)
    → All IsQuoted ls
    → n < 2 ^ 63
    → w < 2 ^ 63
    → IsSwept n w (within s limit ls) ls (visit (visit_within s limit) ls (so_far n w price levels))
unfolding visit within
visit-IsSwept s limit [] n w price levels h hn hw =
    inl (omega arith, omega arith, refl, ap pos (omega arith), ap pos (omega arith), refl)
visit-IsSwept s limit (l ∷ ls) n w price levels ((hp, hq, pp, pq), h) hn hw =
    subst
      (λ c. IsSwept n w (within s limit (l ∷ ls)) (l ∷ ls) (
        resume
          (if c
            then (record x { stopped = true }, false)
            else add_within x l.price (contribute (pos n) l.price l.qty)
                (checked_add_signed (pos w) l.qty))
          k))
      (sym (no_worse-beyond s l.price limit))
      (go (no_worse s l.price limit) (visit-IsSwept s limit ls))
  where
    p : ℕ
    p = pos_part l.price

    q : ℕ
    q = pos_part l.qty

    x : Sweep
    x = so_far n w price levels

    k : Sweep → Sweep
    k = visit (visit_within s limit) ls

    contribution :
        contribute (pos n) l.price l.qty
        ≡ (if ltb max_int64 (n + p * q) then none else some (pos (n + p * q)))
    contribution =
        ap₂ (contribute (pos n)) (pos_of l.price pp) (pos_of l.qty pq)
        ∙ contribute_lem n p q hn hp.0 hq.0

    added :
        checked_add_signed (pos w) l.qty
        ≡ (if ltb max_int64 (w + q) then none else some (pos (w + q)))
    added = ap (checked_add_signed (pos w)) (pos_of l.qty pq) ∙ added_lem w q hw hq.0

    fits :
        ((n w : ℕ) (price : Price) (levels : ℕ)
          → All IsQuoted ls
          → n < 2 ^ 63
          → w < 2 ^ 63
          → IsSwept n w
              (within s limit ls)
              ls
              (visit (visit_within s limit) ls (so_far n w price levels)))
        → IsSwept n w (l ∷ within s limit ls) (l ∷ ls) (
            resume
              (add_within x l.price
                (if ltb max_int64 (n + p * q) then none else some (pos (n + p * q)))
                (if ltb max_int64 (w + q) then none else some (pos (w + q))))
              k)
    fits next =
        if_cases
          (λ o. IsSwept n w (l ∷ within s limit ls) (l ∷ ls) (
            resume
              (add_within x l.price o (if ltb max_int64 (w + q) then none else some (pos (w + q))))
              k))
          (ltb max_int64 (n + p * q)) none _ (λ e. inr (inl (ground arith), refl))
          (λ e.
            if_cases
              (λ o.
                IsSwept n w (l ∷ within s limit ls) (l ∷ ls)
                  (resume (add_within x l.price (some (pos (n + p * q))) o) k))
              (ltb max_int64 (w + q)) none _ (λ f. inr (inr (ground arith), refl))
              (λ f.
                IsSwept-on l (within s limit ls) ls n w
                  (k (so_far (n + p * q) (w + q) l.price (levels + 1)))
                  (next (n + p * q) (w + q) l.price (levels + 1) h (ground arith) (ground arith))))

    go :
        (b : Bool)
        → ((n w : ℕ) (price : Price) (levels : ℕ)
            → All IsQuoted ls
            → n < 2 ^ 63
            → w < 2 ^ 63
            → IsSwept n w
                (within s limit ls)
                ls
                (visit (visit_within s limit) ls (so_far n w price levels)))
        → IsSwept n w (if b then l ∷ within s limit ls else []) (l ∷ ls) (
            resume
              (if (if b then false else true)
                then (record x { stopped = true }, false)
                else add_within x l.price
                    (contribute (pos n) l.price l.qty)
                    (checked_add_signed (pos w) l.qty))
              k)
    go false next =
        inl
          (omega arith, omega arith, refl, ap pos (omega arith), ap pos (omega arith), ground arith)
    go true next =
        subst
          (λ o.
            IsSwept n w (l ∷ within s limit ls) (l ∷ ls)
              (resume (add_within x l.price o (checked_add_signed (pos w) l.qty)) k))
          (sym contribution)
          (subst
            (λ o. IsSwept n w (l ∷ within s limit ls) (l ∷ ls) (
              resume
                (add_within x l.price
                  (if ltb max_int64 (n + p * q) then none else some (pos (n + p * q))) o)
                k))
            (sym added) (fits next))

pub within-IsQuoted :
    (s : Side) (limit : Price) (ls : List Level)
    → All IsQuoted ls
    → All IsQuoted (within s limit ls)
unfolding within
within-IsQuoted s limit [] h = tt
within-IsQuoted s limit (l ∷ ls) (g, h) =
    if_cases (All IsQuoted) (no_worse s l.price limit) (l ∷ within s limit ls) []
      (λ e. (g, within-IsQuoted s limit ls h)) (λ e. tt)
