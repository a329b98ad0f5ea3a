-- ===== src/Execution/Tests.antt =====
-- Concrete executions against two asks, and the theorems at concrete inputs.
use crossbook.Fixed.Parse.{checked_mul}
use crossbook.Common.{◌≡◌, refl, arith, List, [], ◌∷◌, codes, some, All, subst, sym, ap, ◌∙◌}
use crossbook.Common.Int.{pos, negsuc, ◌-ℤ◌, ◌+ℤ◌}
use crossbook.Types.{ask, Price, Qty, Level, InstrumentSpec}
use crossbook.Book.Map.Refines.{map_impl, map_refines}
use crossbook.Book.L2
use crossbook.Book.L2.{L2Book}
use crossbook.Book.L2.Update.{
  IsBook, book_levels, make-IsBook, apply-IsBook, book_levels-apply, book_levels-make,
}
use crossbook.Execution
use crossbook.Execution.{cost_to_trade, executable_size}
use crossbook.Execution.Size.{Sizes, executable_size-Sizes}
use crossbook.Checksum.Payload.{IsQuoted}
use crossbook.Book.Visit.{visit}
use crossbook.Book.Ladder.{update}
use crossbook.Execution.Cost.{Costs, cost_to_trade-Costs}

abbrev spec : InstrumentSpec
spec = record { symbol = codes "BTC/USD"; price_scale = 1; qty_scale = 8 }

abbrev Book : Type 0
Book = L2Book map_impl.State

abbrev asked : Book → Price → Qty → Book
asked b p q = (L2.apply map_impl b ask p q).0

abbrev one_ask : Book
one_ask = asked (L2.make map_impl spec) (pos 1000) (pos 2)

abbrev touch : Level
touch = record { price = pos 1000; qty = pos 2 }

abbrev ladder : List Level
ladder = touch ∷ record { price = pos 1003; qty = pos 5 } ∷ []

-- Two at 1000 and two at 1003 cost 4006, which is 1001.5 each: a buyer pays 1002.
bought :
    (Execution.costed ask touch
      (pos 4)
      (visit Execution.visit_wanted ladder (Execution.sweep (pos 4)))).vwap
    ≡ pos 1002
unfolding visit Execution.contribute Execution.checked_mul_signed checked_mul
    Execution.checked_add_signed ◌-ℤ◌ ◌+ℤ◌ Execution.filled_at Execution.conservative_vwap
bought = refl

-- Within 0.2 percent of 1000 the buyer goes up to 1002, and the second level is left.
limit : Execution.price_limit (pos 1000) ask (Execution.from_bps (pos 20)) ≡ some (pos 1002)
unfolding Execution.price_limit Execution.checked_mul_signed checked_mul
    Execution.checked_add_signed ◌-ℤ◌ ◌+ℤ◌
limit = refl

near_touch :
    (Execution.sized ask touch
      (visit (Execution.visit_within ask (pos 1002)) ladder (Execution.sweep (pos 0)))).qty
    ≡ pos 2
unfolding visit Execution.contribute Execution.checked_mul_signed checked_mul
    Execution.checked_add_signed ◌-ℤ◌ ◌+ℤ◌ Execution.filled_at
near_touch = refl

-- Truncated division, rounded to either side.
rounding : Execution.floor_div (negsuc 6) (pos 2) ≡ negsuc 3
unfolding ◌-ℤ◌
rounding = refl

one_ask-IsBook : IsBook map_impl map_refines one_ask
one_ask-IsBook =
    apply-IsBook map_impl map_refines (L2.make map_impl spec) ask (pos 1000) (pos 2)
      (make-IsBook map_impl map_refines spec) (omega arith) (omega arith)

asks_IsQuoted : All IsQuoted (book_levels map_impl map_refines one_ask ask)
unfolding update
asks_IsQuoted =
    subst (All IsQuoted)
      (sym (
        book_levels-apply map_impl map_refines (L2.make map_impl spec) ask ask (pos 1000) (pos 2)
          refl (make-IsBook map_impl map_refines spec) (omega arith) (omega arith)
        ∙ ap (update ask (pos 1000) (pos 2)) (book_levels-make map_impl map_refines spec ask)))
      ((omega arith, omega arith, omega arith, omega arith), tt)

cost_to_trade-Costs_example :
    Costs ask
      (pos 4)
      (book_levels map_impl map_refines one_ask ask)
      (cost_to_trade map_impl one_ask ask (pos 4))
cost_to_trade-Costs_example =
    cost_to_trade-Costs map_impl map_refines one_ask ask (pos 4) one_ask-IsBook asks_IsQuoted
      (omega arith)

executable_size-Sizes_example :
    Sizes ask
      (pos 2000)
      (book_levels map_impl map_refines one_ask ask)
      (executable_size map_impl one_ask ask (pos 2000))
executable_size-Sizes_example =
    executable_size-Sizes map_impl map_refines one_ask ask (pos 2000) one_ask-IsBook (omega arith)
      asks_IsQuoted
