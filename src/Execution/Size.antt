-- ===== src/Execution/Size.antt =====
-- `executable_size` takes every level up to the limit and none beyond it.
use crossbook.Common.{ℕ, ◌^◌, ◌≤◌, ◌<◌, ◌≡◌, ◌⊎◌, inl, inr, refl, sym, ap, ◌∙◌, subst, arith}
use crossbook.Common.{true, false, not, List, [], ◌∷◌, Option, if◌then◌else◌, All, ltb, length}
use crossbook.Common.Int.{ℤ, pos, negsuc, pos_part, IsInt64}
use crossbook.Types.{Side, Price, Level, eq_ℤ}
use crossbook.Checksum.Payload.{IsQuoted}
use crossbook.Book.Visit.{SideImpl, IsSideImpl, visit, head?}
use crossbook.Book.L2
use crossbook.Book.L2.{L2Book}
use crossbook.Book.L2.Update.{IsBook, book_levels, side-IsValid, best-head?}
use crossbook.Execution.{
  Sweep, Execution, sweep, ok, overflow, empty_book, limit_excluded_all, invalid_request, refused,
  price_limit, visit_within, sized, filled_at, limited, conservative_vwap, size_within,
  executable_size,
}
use crossbook.Execution.Filling.{depth, pos_of}
use crossbook.Execution.Cost.{some_depth, IsVwap, conservative_vwap-IsVwap}
use crossbook.Execution.Limit.{limit_at, IsRepresentable, IsLimit, price_limit-IsLimit}
use crossbook.Execution.Within.{within, worth, IsSwept, visit-IsSwept, within-IsQuoted}

-- Levels that were taken.
abbrev pub Taken : Side → List Level → List Level → Execution → Type 0
Taken s ks ls r =
    (worth ks < 2 ^ 63)
    × (depth ks < 2 ^ 63)
    × (r.status ≡ ok)
    × (r.qty ≡ pos (depth ks))
    × (r.depth_exhausted ≡ not (ltb (length ks) (length ls)))
    × IsVwap s (worth ks) (depth ks) r.vwap

-- What is answered for the levels `ks` up to the limit.
abbrev pub Sized : Side → List Level → List Level → Execution → Type 0
Sized s ks ls r =
    (((2 ^ 63 ≤ worth ks) ⊎ (2 ^ 63 ≤ depth ks)) × (r ≡ refused false overflow))
    ⊎ ((ks ≡ []) × (r ≡ refused false limit_excluded_all))
    ⊎ Taken s ks ls r

-- What `executable_size` answers for a slippage and the levels of the side, in book order.
abbrev pub Sizes : Side → ℤ → List Level → Execution → Type 0
Sizes s (negsuc n) ls r = r ≡ refused false invalid_request
Sizes s (pos m) [] r = r ≡ refused true empty_book
Sizes s (pos m) (touch ∷ ls) r =
    ((¬ IsRepresentable s (pos_part touch.price) m) × (r ≡ refused false overflow))
    ⊎ (IsRepresentable s (pos_part touch.price) m
        × Sized s (within s (limit_at s (pos_part touch.price) m) (touch ∷ ls)) (touch ∷ ls) r)

-- A sweep's end, as `executable_size` reads it.
sized-Sized :
    (s : Side) (touch : Level) (ks ls : List Level) (r : Sweep)
    → All IsQuoted ks
    → IsSwept 0 0 ks ls r
    → Sized s ks ls (sized s touch r)
unfolding filled_at
sized-Sized s touch ks ls r h (inr (inl b, o)) = inl (inl (omega (arith, b)), rw o refl)
sized-Sized s touch ks ls r h (inr (inr b, o)) = inl (inr (omega (arith, b)), rw o refl)
sized-Sized s touch [] ls r h (inl (a, b, o, e, m, t)) = inr (inl (refl, rw (o, m) refl))
sized-Sized s touch (l ∷ ks) ls r h (inl (a, b, o, e, m, t)) = inr (
    inr (
      subst (Taken s (l ∷ ks) ls) (sym same)
        (omega (arith, a), omega (arith, b), refl, refl, refl, vwap)))
  where
    d : ℕ
    d = depth (l ∷ ks)

    some_taken : 0 < d
    some_taken = some_depth l ks h.0

    total : r.total ≡ pos d
    total = m ∙ ap pos (omega arith)

    nonzero : eq_ℤ (pos d) (pos 0) ≡ false
    nonzero = ground (arith, some_taken)

    same : sized s touch r ≡ filled_at s touch r (pos d) (not (ltb (length (l ∷ ks)) (length ls)))
    same =
        ap
          (λ c.
            if c
            then refused false overflow
            else if eq_ℤ r.total (pos 0)
            then refused false limit_excluded_all
            else filled_at s touch r r.total (not r.stopped))
          o
        ∙ ap
            (λ z.
              if eq_ℤ z (pos 0)
              then refused false limit_excluded_all
              else filled_at s touch r z (not r.stopped))
            total
        ∙ ap
            (λ c.
              if c
              then refused false limit_excluded_all
              else filled_at s touch r (pos d) (not r.stopped))
            nonzero
        ∙ ap (λ c. filled_at s touch r (pos d) (not c)) t

    vwap : IsVwap s (worth (l ∷ ks)) d (conservative_vwap r.notional (pos d) s)
    vwap =
        subst (λ n. IsVwap s (worth (l ∷ ks)) d (conservative_vwap n (pos d) s))
          (sym (e ∙ ap pos (omega arith)))
          (conservative_vwap-IsVwap s (worth (l ∷ ks)) d some_taken)

-- For any container that keeps the laws.
module _ (I : SideImpl) (L : IsSideImpl I) where
  open I use {State}

  -- `executable_size` on a valid book whose levels on that side all have positive int64_t prices
  -- and quantities, for any int64_t slippage, on every branch. A negative slippage is an invalid
  -- request, and a side without levels is an empty book. Otherwise the limit lies above the first
  -- level's price, for a seller below it, by that price times the slippage in millionths, rounded
  -- down to whole ticks, and the levels are taken in book order as far as their prices are not
  -- above a buyer's limit, not below a seller's. The answer is an overflow and nothing else
  -- exactly where the product of price and slippage, the limit, or the sum of the sizes or of the
  -- values that are taken does not fit int64_t. If it is not, and no level is taken, the limit
  -- excluded all; and if some are, the size is all that they hold, the depth is exhausted exactly
  -- when no level was left, and the price is the value divided by the size, rounded up for a buyer
  -- and down for a seller.
  pub executable_size-Sizes :
      (b : L2Book State) (s : Side) (slippage : ℤ)
      → IsBook I L b
      → IsInt64 slippage
      → All IsQuoted (book_levels I L b s)
      → Sizes s slippage (book_levels I L b s) (executable_size I b s slippage)
  unfolding executable_size
  executable_size-Sizes b s (negsuc n) v i h = refl
  executable_size-Sizes b s (pos m) v i h =
      by_touch (L2.best I b s) (book_levels I L b s) refl (best-head? I L b s v) h
    where
      by_limit :
          (touch : Level) (ls : List Level) (o : Option Price)
          → book_levels I L b s ≡ touch ∷ ls
          → All IsQuoted (touch ∷ ls)
          → IsLimit s (pos_part touch.price) m o
          → Sizes s (pos m) (touch ∷ ls) (limited I b s touch o)
      by_limit touch ls o e g (inl (n, q)) = inl (n, rw q refl)
      by_limit touch ls o e g (inr (f, q)) = inr (
        f,
        subst (λ r. Sized s (within s limit (touch ∷ ls)) (touch ∷ ls) r)
            (ap (λ xs. sized s touch (visit (visit_within s limit) xs (sweep (pos 0)))) (sym e)
              ∙ ap (sized s touch) (
                  sym (
                    L.for_each-levels Sweep (visit_within s limit) (L2.side I b s) (sweep (pos 0))
                      (side-IsValid I L b s v)))
              ∙ ap (limited I b s touch) (sym q))
            (sized-Sized s touch (within s limit (touch ∷ ls)) (touch ∷ ls)
              (visit (visit_within s limit) (touch ∷ ls) (sweep (pos 0)))
              (within-IsQuoted s limit (touch ∷ ls) g)
              (visit-IsSwept s limit (touch ∷ ls) 0 0 (pos 0) 0 g (omega arith) (omega arith))),
      )
        where
          limit : Price
          limit = limit_at s (pos_part touch.price) m

      by_touch :
          (o : Option Level) (ls : List Level)
          → book_levels I L b s ≡ ls
          → o ≡ head? ls
          → All IsQuoted ls
          → Sizes s (pos m) ls (size_within I b s (pos m) o)
      by_touch o [] e t g = rw t refl
      by_touch o (touch ∷ ls) e t g = rw t (
          by_limit touch ls (price_limit touch.price s (pos m)) e g (
            subst (λ p. IsLimit s (pos_part touch.price) m (price_limit p s (pos m)))
              (sym (pos_of touch.price g.0.2))
              (price_limit-IsLimit s (pos_part touch.price) m g.0.0.0 i.0)))
