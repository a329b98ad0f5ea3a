-- ===== src/Book/Array/Tests.antt =====
-- Concrete runs of the array side with eight slots, and its theorems at concrete inputs.
use crossbook.Common.{ℕ, ◌-◌, ◌^◌, ◌≡◌, refl, arith, List, [], ◌∷◌, some}
use crossbook.Common.Int.{pos, ◌+ℤ◌, ◌-ℤ◌}
use crossbook.Types.{bid, ask, Level}
use crossbook.Book.Visit.{IsSideImpl}
use crossbook.Book.Array
use crossbook.Book.Array.{ArraySide}
use crossbook.Book.Array.Order.{IsSlot, IsWindow, window_index-IsSlot, anchor_for-IsWindow}
use crossbook.Book.Array.Valid.{IsValid}
use crossbook.Book.Array.Update.{apply-IsUpdated}
use crossbook.Book.Array.Rebuild.{IsRebuilt, rebuild_around_touch-IsRebuilt}
use crossbook.Book.Array.Refines.{array_impl, array_refines, make-IsValid}
use crossbook.Book.Array.Hysteresis.{IsBounded, apply-IsBounded}

abbrev level : ℕ → ℕ → Level
level p q = record { price = pos p; qty = pos q }

-- The window is 96 to 103, and 200 spills.
abbrev empty_asks : ArraySide
empty_asks = Array.make 8 ask

abbrev one_ask : ArraySide
one_ask = Array.apply empty_asks (pos 100) (pos 5)

abbrev asks : ArraySide
asks = Array.apply one_ask (pos 200) (pos 7)

abbrev three_asks : ArraySide
three_asks = Array.apply asks (pos 98) (pos 2)

three_asks_in_order :
    Array.for_each (List Level) Array.push three_asks []
    ≡ level 98 2 ∷ level 100 5 ∷ level 200 7 ∷ []
unfolding Array.make Array.for_each Array.merge_loop Array.apply Array.window_index Array.anchor_for
    ◌+ℤ◌ ◌-ℤ◌ Array.overflow_set Array.overflow_lower_bound Array.seek Array.price_at
three_asks_in_order = refl

best_removed : Array.best (Array.apply three_asks (pos 98) (pos 0)) ≡ some (level 100 5)
unfolding Array.make Array.best Array.apply Array.window_index Array.anchor_for ◌+ℤ◌ ◌-ℤ◌
    Array.overflow_set Array.overflow_lower_bound Array.advance_best Array.price_at Array.seek
best_removed = refl

-- Around a touch of 98 the window is 94 to 101.
rebuilt_base : (Array.rebuild_around_touch three_asks).base ≡ pos 94
unfolding Array.make Array.rebuild_around_touch Array.for_each Array.merge_loop Array.apply
    Array.window_index Array.anchor_for ◌+ℤ◌ ◌-ℤ◌ Array.overflow_set Array.overflow_lower_bound
    Array.seek Array.price_at Array.place_all
rebuilt_base = refl

cleared_size : Array.size (Array.clear three_asks) ≡ 0
unfolding Array.clear
cleared_size = refl

-- A bid side reads its window downwards.
best_bid :
    Array.best (Array.apply (Array.apply (Array.make 8 bid) (pos 100) (pos 5)) (pos 102) (pos 1))
    ≡ some (level 102 1)
unfolding Array.make Array.best Array.apply Array.window_index Array.anchor_for ◌+ℤ◌ ◌-ℤ◌
    Array.price_at
best_bid = refl

empty_asks-IsValid : IsValid empty_asks
empty_asks-IsValid = make-IsValid 8 ask (omega arith)

one_ask-IsValid : IsValid one_ask
one_ask-IsValid =
    (apply-IsUpdated empty_asks (pos 100) (pos 5) empty_asks-IsValid (omega arith)).valid

asks-IsValid : IsValid asks
asks-IsValid = (apply-IsUpdated one_ask (pos 200) (pos 7) one_ask-IsValid (omega arith)).valid

array_refines_example : IsSideImpl (array_impl 8)
array_refines_example = array_refines 8 (omega arith)

rebuild_around_touch-IsRebuilt_example : IsRebuilt asks (Array.rebuild_around_touch asks)
rebuild_around_touch-IsRebuilt_example = rebuild_around_touch-IsRebuilt asks asks-IsValid

empty_asks-IsBounded : IsBounded empty_asks
unfolding Array.make
empty_asks-IsBounded = (omega arith, omega arith)

asks-IsBounded : IsBounded asks
asks-IsBounded = apply-IsBounded one_ask (pos 200) (pos 7) one_ask-IsValid (omega arith) (
    apply-IsBounded empty_asks (pos 100) (pos 5) empty_asks-IsValid (omega arith)
      empty_asks-IsBounded)

apply-IsBounded_example : IsBounded (Array.apply asks (pos 300) (pos 1))
apply-IsBounded_example =
    apply-IsBounded asks (pos 300) (pos 1) asks-IsValid (omega arith) asks-IsBounded

window_index-IsSlot_example : IsSlot (pos 96) 8 (pos 200) (Array.window_index (pos 96) 8 (pos 200))
window_index-IsSlot_example = window_index-IsSlot (pos 96) 8 (pos 200) (omega arith) (omega arith)

anchor_for-IsWindow_example : IsWindow (Array.anchor_for 8 (pos (2 ^ 63 - 1))) 8
anchor_for-IsWindow_example = anchor_for-IsWindow 8 (pos (2 ^ 63 - 1)) (omega arith) (omega arith)
