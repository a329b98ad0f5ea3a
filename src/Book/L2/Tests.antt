-- ===== src/Book/L2/Tests.antt =====
-- Concrete runs of the book over its reference container, and its theorems at concrete inputs.
use crossbook.Book.Visit.{visit}
use crossbook.Book.Map.{apply, best, clear, for_each, make, size}
use crossbook.Common.{ℕ, ◌≡◌, refl, arith, true, [], ◌∷◌, codes, take, some}
use crossbook.Common.{List, Option, none, ◌==◌, ◌⊎◌, false, if◌then◌else◌, ◌&&◌}
use crossbook.Common.Int.{pos, negsuc}
use crossbook.Types.{bid, ask, Side, Level, InstrumentSpec, Price, Qty, eq_ℤ}
use crossbook.Book.Map.Refines.{map_impl, map_refines}
use crossbook.Book.L2
use crossbook.Book.L2.{L2Book}
use crossbook.Book.L2.Update.{IsBook, book_levels, book_qty, same_side, accepts}
use crossbook.Book.L2.Update.{make-IsBook, apply-IsBook, apply_lem, side-IsValid}
use crossbook.Book.L2.TrimLoop.{Trims, trim_side-Trimmed}
use crossbook.Book.L2.Top.{top_lem}
use crossbook.Book.L2.Act.{Act, put, cut, run}
use crossbook.Book.L2.Agree.{IsRunAlike, run-IsRunAlike}
use crossbook.Book.Array.Refines.{array_impl}

abbrev spec : InstrumentSpec
spec = record { symbol = codes "BTC/USD"; price_scale = 1; qty_scale = 8 }

abbrev Book : Type 0
Book = L2Book map_impl.State

abbrev applied : Book → Price → Qty → Book
applied b p q = (L2.apply map_impl b bid p q).0

abbrev one_bid : Book
one_bid = applied (L2.make map_impl spec) (pos 500) (pos 3)

abbrev two_bids : Book
two_bids = applied one_bid (pos 505) (pos 2)

abbrev level : ℕ → ℕ → Level
level p q = record { price = pos p; qty = pos q }

one_bid-IsBook : IsBook map_impl map_refines one_bid
one_bid-IsBook =
    apply-IsBook map_impl map_refines (L2.make map_impl spec) bid (pos 500) (pos 3)
      (make-IsBook map_impl map_refines spec) (omega arith) (omega arith)

two_bids-IsBook : IsBook map_impl map_refines two_bids
two_bids-IsBook =
    apply-IsBook map_impl map_refines one_bid bid (pos 505) (pos 2) one_bid-IsBook (omega arith)
      (omega arith)

two_bids_best : L2.best map_impl two_bids bid ≡ some (level 505 2)
unfolding map_impl L2.best L2.apply L2.make best apply make
two_bids_best = refl

cleared_top :
    L2.top map_impl (L2.set_last_update map_impl (L2.clear map_impl two_bids) (pos 3)) bid 5 ≡ []
unfolding map_impl L2.top L2.clear L2.set_last_update L2.apply L2.make for_each visit clear apply
    make
cleared_top = refl

-- Asked for no level, `top` gives one.
top_zero : L2.top map_impl two_bids bid 0 ≡ level 505 2 ∷ []
unfolding map_impl L2.top L2.apply L2.make for_each visit apply make
top_zero = refl

one_trimmed :
    L2.trim map_impl two_bids 1 ≡ some (applied (L2.make map_impl spec) (pos 505) (pos 2), 1)
unfolding map_impl L2.trim L2.apply L2.make L2.trim_side L2.trim_loop L2.doomed for_each visit apply
    make size L2.remove_all
one_trimmed = refl

apply_lem_example :
    ((accepts map_impl map_refines (pos 505) (pos 0) ≡ false)
      × (L2.apply map_impl two_bids bid (pos 505) (pos 0) ≡ (two_bids, false)))
    ⊎ ((accepts map_impl map_refines (pos 505) (pos 0) ≡ true)
        × ((L2.apply map_impl two_bids bid (pos 505) (pos 0)).1 ≡ true)
        × IsBook map_impl map_refines (applied two_bids (pos 505) (pos 0))
        × ((s : Side) (t : Price)
            → book_qty map_impl map_refines (applied two_bids (pos 505) (pos 0)) s t ≡ (
                if same_side bid s && eq_ℤ (pos 505) t
                then pos 0
                else book_qty map_impl map_refines two_bids s t)))
apply_lem_example =
    apply_lem map_impl map_refines two_bids bid (pos 505) (pos 0) two_bids-IsBook (omega arith)
      (omega arith)

trim_side-Trimmed_example : Trims map_impl map_refines (L2.side map_impl two_bids bid) 1
trim_side-Trimmed_example =
    trim_side-Trimmed map_impl map_refines (L2.side map_impl two_bids bid) 1
      (side-IsValid map_impl map_refines two_bids bid two_bids-IsBook)

top_lem_example :
    L2.top map_impl two_bids bid 1 ≡ take 1 (book_levels map_impl map_refines two_bids bid)
top_lem_example = top_lem map_impl map_refines two_bids bid 1 two_bids-IsBook

abbrev answers : Option (Book × List ℕ) → List ℕ
answers none = []
answers (some (b, ns)) = ns

abbrev acts : List Act
acts =
    put bid (pos 500) (pos 3)
    ∷ put ask (pos 900) (pos 1)
    ∷ put bid (pos 600) (pos 2)
    ∷ put bid (pos 600) (negsuc 4)
    ∷ cut 1
    ∷ []

-- The negative quantity is refused, and the cut removes one level.
acts-answers : answers (run map_impl acts (L2.make map_impl spec)) ≡ 1 ∷ 1 ∷ 1 ∷ 0 ∷ 1 ∷ []
unfolding map_impl run L2.trim L2.trim_side L2.trim_loop L2.doomed for_each visit L2.apply apply
    L2.make make size L2.remove_all
acts-answers = refl

run-IsRunAlike_example :
    IsRunAlike
      (array_impl 8)
      map_impl
      (run (array_impl 8) acts (L2.make (array_impl 8) spec))
      (run map_impl acts (L2.make map_impl spec))
run-IsRunAlike_example = run-IsRunAlike 8 spec acts (omega arith) (
  (omega arith, omega arith),
  (
    (omega arith, omega arith),
    ((omega arith, omega arith), ((omega arith, omega arith), (tt, tt))),
  ),
)

hash-ne : (L2.state_hash map_impl one_bid == L2.state_hash map_impl two_bids) ≡ false
unfolding map_impl L2.state_hash L2.hash_side for_each visit L2.apply L2.make make L2.mix
    L2.mix_bytes apply size
hash-ne = refl
