-- ===== src/Execution/Cost.antt =====
-- `cost_to_trade` fills what the depth has of the size that is wanted, at a price that is rounded
-- against the taker.
use crossbook.Common.{
  ℕ, ◌+◌, ◌-◌, ◌*◌, ◌/◌, ◌%◌, ◌^◌, ◌≤◌, ◌<◌, ◌≡◌, ◌⊎◌, inl, inr, refl, sym, ap, ◌∙◌, subst, arith,
  min,
}
use crossbook.Common.{
  true, false, List, [], ◌∷◌, Option, none, some, if◌then◌else◌, Bool-cases, All, ltb, ◌==◌,
  if_cases,
}
use crossbook.Common.Int.{pos, negsuc, pos_part, ltb_ℤ, IsInt64, ◌-ℤ◌, ◌+ℤ◌}
use native.Mathlib.Nat.{mod-add-div', mod-lt}
use crossbook.Types.{Side, bid, ask, Price, Qty, Level, eq_ℤ}
use crossbook.Checksum.Payload.{IsQuoted}
use crossbook.Book.Visit.{SideImpl, IsSideImpl, visit, head?}
use crossbook.Book.L2
use crossbook.Book.L2.{L2Book}
use crossbook.Book.L2.Update.{IsBook, book_levels, side-IsValid, best-head?}
use crossbook.Execution.{
  Execution, Sweep, sweep, conservative_vwap, refused, ok, empty_book, overflow, invalid_request,
  costed, filled_at, visit_wanted, cost_of, cost_to_trade,
}
use crossbook.Execution.Filling.{depth, value, IsSwept, sub_pos, visit-IsSwept}

-- The price is rounded against the taker: up for one who buys, down for one who sells.
abbrev pub IsVwap : Side → ℕ → ℕ → Price → Type 0
IsVwap ask notional qty vwap =
    (k : ℕ) × (vwap ≡ pos k) × (notional ≤ k * qty) × (k * qty < notional + qty)
IsVwap bid notional qty vwap =
    (k : ℕ) × (vwap ≡ pos k) × (k * qty ≤ notional) × (notional < k * qty + qty)

vwap_bid : (n q : ℕ) → conservative_vwap (pos n) (pos q) bid ≡ pos (n / q)
unfolding conservative_vwap
vwap_bid n q = ground arith

vwap_ask :
    (n q : ℕ)
    → conservative_vwap (pos n) (pos q) ask ≡ pos (if n % q == 0 then n / q else n / q + 1)
unfolding conservative_vwap ◌+ℤ◌
vwap_ask n q = ground arith

pub conservative_vwap-IsVwap :
    (s : Side) (n q : ℕ) → 0 < q → IsVwap s n q (conservative_vwap (pos n) (pos q) s)
conservative_vwap-IsVwap bid n q h = (
  n / q,
  vwap_bid n q,
  omega (arith, mod-add-div' n q),
  omega (arith, mod-add-div' n q, mod-lt n h),
)
conservative_vwap-IsVwap ask n q h = elim (Bool-cases (n % q == 0)) [
  | inl e ↦ (
    n / q,
    vwap_ask n q ∙ rw e refl,
    ground (arith, mod-add-div' n q),
    ground (arith, mod-add-div' n q),
  )
  | inr e ↦
      let up : (n / q + 1) * q ≡ n / q * q + q = grind arith in
      (
        n / q + 1,
        vwap_ask n q ∙ rw e refl,
        ground (arith, mod-add-div' n q, mod-lt n h, up),
        ground (arith, mod-add-div' n q, up),
      )
]

-- A size that was wanted, and is filled as far as the depth goes.
abbrev pub Filled : Side → ℕ → List Level → Execution → Type 0
Filled s w ls r =
    (value w ls < 2 ^ 63)
    × (r.status ≡ ok)
    × (r.qty ≡ pos (min w (depth ls)))
    × (r.depth_exhausted ≡ ltb (depth ls) w)
    × IsVwap s (value w ls) (min w (depth ls)) r.vwap

-- What `cost_to_trade` answers for the levels of the side, in book order.
abbrev pub Costs : Side → Qty → List Level → Execution → Type 0
Costs s wanted ls r =
    ((ltb_ℤ (pos 0) wanted ≡ false) × (r ≡ refused false invalid_request))
    ⊎ ((ls ≡ []) × (r ≡ refused true empty_book))
    ⊎ ((2 ^ 63 ≤ value (pos_part wanted) ls) × (r ≡ refused false overflow))
    ⊎ Filled s (pos_part wanted) ls r

pub some_depth : (l : Level) (ls : List Level) → IsQuoted l → 0 < depth (l ∷ ls)
some_depth l ls (_, _, _, h) = omega (arith, h)

-- A sweep's end, as `cost_to_trade` reads it.
costed-Costs :
    (s : Side) (w : ℕ) (l : Level) (ls : List Level) (r : Sweep)
    → 0 < w
    → IsQuoted l
    → IsSwept 0 w (l ∷ ls) r
    → Costs s (pos w) (l ∷ ls) (costed s l (pos w) r)
unfolding filled_at
costed-Costs s w l ls r h g (inr (b, o)) = inr (inr (inl (omega (arith, b), rw o refl)))
costed-Costs s w l ls r h g (inl (b, o, e, m)) =
    inr (
      inr (inr (subst (Filled s w (l ∷ ls)) (sym same) (omega (arith, b), refl, refl, refl, vwap))))
  where
    f : ℕ
    f = min w (depth (l ∷ ls))

    some_filled : 0 < f
    some_filled = omega (arith, some_depth l ls g)

    filled : pos w -ℤ r.total ≡ pos f
    filled =
        ap (λ t. pos w -ℤ t) m ∙ sub_pos w (w - depth (l ∷ ls)) (omega arith) ∙ ap pos (omega arith)

    left : ltb_ℤ (pos 0) r.total ≡ ltb (depth (l ∷ ls)) w
    left = ap (ltb_ℤ (pos 0)) m ∙ ground arith

    nonzero : eq_ℤ (pos f) (pos 0) ≡ false
    nonzero = ground (arith, some_filled)

    same : costed s l (pos w) r ≡ filled_at s l r (pos f) (ltb (depth (l ∷ ls)) w)
    same =
        ap
          (λ c.
            if c
            then refused false overflow
            else if eq_ℤ (pos w -ℤ r.total) (pos 0)
            then refused true empty_book
            else filled_at s l r (pos w -ℤ r.total) (ltb_ℤ (pos 0) r.total))
          o
        ∙ ap
            (λ z.
              if eq_ℤ z (pos 0)
              then refused true empty_book
              else filled_at s l r z (ltb_ℤ (pos 0) r.total))
            filled
        ∙ ap
            (λ c.
              if c
              then refused true empty_book
              else filled_at s l r (pos f) (ltb_ℤ (pos 0) r.total))
            nonzero
        ∙ ap (filled_at s l r (pos f)) left

    vwap : IsVwap s (value w (l ∷ ls)) f (conservative_vwap r.notional (pos f) s)
    vwap =
        subst (λ n. IsVwap s (value w (l ∷ ls)) f (conservative_vwap n (pos f) s))
          (sym (e ∙ ap pos (omega arith)))
          (conservative_vwap-IsVwap s (value w (l ∷ ls)) f some_filled)

-- For any container that keeps the laws.
module _ (I : SideImpl) (L : IsSideImpl I) where
  open I use {State}

  -- `cost_to_trade` of an int64_t size on a valid book whose levels on that side all have positive
  -- prices and quantities, on every branch. A size that is not positive is an invalid request, and a
  -- side without levels is an empty book. Otherwise let the value of a size be what its best levels
  -- cost, level by level in book order. If the value does not fit int64_t the answer is an overflow
  -- and nothing else. If it does, the size filled is what was wanted or all that rests, whichever is
  -- less, the depth is exhausted exactly when less rests than was wanted, and the price is the value
  -- divided by the size filled, rounded up for a buyer and down for a seller.
  pub cost_to_trade-Costs :
      (b : L2Book State) (s : Side) (wanted : Qty)
      → IsBook I L b
      → All IsQuoted (book_levels I L b s)
      → IsInt64 wanted
      → Costs s wanted (book_levels I L b s) (cost_to_trade I b s wanted)
  unfolding cost_to_trade
  cost_to_trade-Costs b s wanted v h r =
      if_cases (Costs s wanted ls) (ltb_ℤ (pos 0) wanted) _ _ (λ e. traded wanted r e)
        (λ e. inl (e, refl))
    where
      ls : List Level
      ls = book_levels I L b s

      answer : Qty → Option Level → Sweep → Execution
      answer wanted none r = refused true empty_book
      answer wanted (some touch) r = costed s touch wanted r

      by_levels :
          (w : ℕ) (ls : List Level)
          → 0 < w
          → w < 2 ^ 63
          → All IsQuoted ls
          → Costs s (pos w) ls (answer (pos w) (head? ls) (visit visit_wanted ls (sweep (pos w))))
      by_levels w [] p k h = inr (inl (refl, refl))
      by_levels w (l ∷ ls) p k (g, h) =
          costed-Costs s w l ls (visit visit_wanted (l ∷ ls) (sweep (pos w))) p g
            (visit-IsSwept (l ∷ ls) 0 w (pos 0) 0 (g, h) (omega arith) k)

      cost_of_eq :
          (w : ℕ)
          → cost_of I b s (pos w) (L2.best I b s)
            ≡ answer (pos w) (head? ls) (visit visit_wanted ls (sweep (pos w)))
      cost_of_eq w =
          by_touch (L2.best I b s)
          ∙ ap
              (λ o.
                answer (pos w) o (I.for_each Sweep visit_wanted (L2.side I b s) (sweep (pos w))))
              (best-head? I L b s v)
          ∙ ap (answer (pos w) (head? ls)) (
              L.for_each-levels Sweep visit_wanted (L2.side I b s) (sweep (pos w))
                (side-IsValid I L b s v))
        where
          by_touch :
              (o : Option Level)
              → cost_of I b s (pos w) o
                ≡ answer (pos w) o (I.for_each Sweep visit_wanted (L2.side I b s) (sweep (pos w)))
          by_touch none = refl
          by_touch (some l) = refl

      traded :
          (z : Qty)
          → IsInt64 z
          → ltb_ℤ (pos 0) z ≡ true
          → Costs s z ls (cost_of I b s z (L2.best I b s))
      traded (negsuc n) r e = absurd (ground arith)
      traded (pos w) r e =
          subst (Costs s (pos w) ls) (sym (cost_of_eq w))
            (by_levels w ls (ground arith) (omega arith) h)
