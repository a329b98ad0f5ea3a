-- ===== src/Book/L2/Top.antt =====
-- `top` copies a prefix of the levels.
use crossbook.Common.{ℕ, zero, suc, ◌+◌, ◌≡◌, refl, ap, ◌∙◌, sym, arith}
use crossbook.Common.{
  List, [], ◌∷◌, ◌++◌, length, take, append-nil, append_assoc, length-append, lt→ltb, le→ltb,
}
use crossbook.Types.{Side, Level}
use crossbook.Book.Visit.{SideImpl, IsSideImpl, visit, visit-go_on, visit-stop}
use crossbook.Book.L2
use crossbook.Book.L2.{L2Book}
use crossbook.Book.L2.Update.{IsBook, book_levels, side-IsValid}

visit-take :
    (k n : ℕ) (out ls : List Level)
    → length out + suc k ≡ n
    → visit (L2.take_level n) ls out ≡ out ++ take (suc k) ls
visit-take k n out [] h = unfold visit in sym (append-nil out)
visit-take zero n out (l ∷ ls) h =
    visit-stop (L2.take_level n) l ls out (out ++ l ∷ [])
      (ap (λ b. (out ++ l ∷ [], b)) (le→ltb (length out + 1) n (omega arith)))
visit-take (suc k) n out (l ∷ ls) h =
    visit-go_on (L2.take_level n) l ls out (out ++ l ∷ [])
      (ap (λ b. (out ++ l ∷ [], b)) (lt→ltb (length out + 1) n (omega arith)))
    ∙ visit-take k n (out ++ l ∷ []) ls (omega (arith, length-append out (l ∷ [])))
    ∙ append_assoc out (l ∷ []) (take (suc k) ls)

-- The first visit happens before the test, so one level comes out even where none is asked for.
visit-take_zero : (ls : List Level) → visit (L2.take_level 0) ls [] ≡ take 1 ls
visit-take_zero [] = unfold visit in refl
visit-take_zero (l ∷ ls) = visit-stop (L2.take_level 0) l ls [] (l ∷ []) refl

abbrev pub at_least_one : ℕ → ℕ
at_least_one zero = 1
at_least_one (suc n) = suc n

module _ (I : SideImpl) (L : IsSideImpl I) where
  open I use {State}

  -- `top` of a valid book copies the first `n` levels of a side in book order, or all if it has
  -- fewer; asked for 0 levels, it copies one if there is one.
  pub top_lem :
      (b : L2Book State) (s : Side) (n : ℕ)
      → IsBook I L b
      → L2.top I b s n ≡ take (at_least_one n) (book_levels I L b s)
  unfolding L2.top
  top_lem b s zero v =
      L.for_each-levels (List Level) (L2.take_level 0) (L2.side I b s) [] (side-IsValid I L b s v)
      ∙ visit-take_zero (book_levels I L b s)
  top_lem b s (suc n) v =
      L.for_each-levels (List Level) (L2.take_level (suc n)) (L2.side I b s) []
        (side-IsValid I L b s v)
      ∙ visit-take n (suc n) [] (book_levels I L b s) (omega arith)
