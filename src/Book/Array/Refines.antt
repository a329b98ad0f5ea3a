-- ===== src/Book/Array/Refines.antt =====
-- `ArraySide` implements the ladder of its side.
use crossbook.Common.{ℕ, ◌-◌, ◌<◌, ◌^◌, ◌≡◌, inl, inr, refl, sym, ◌∙◌, arith, ◌+◌}
use crossbook.Common.{true, List, [], ◌∷◌, Option, none, some, ltb, ◌==◌, length, if_cases}
use crossbook.Common.Int.{pos}
use crossbook.Types.{Side, Price, Qty, Level, is_zero}
use crossbook.Sequence.{inc64}
use crossbook.Book.Visit.{SideImpl, IsSideImpl}
use crossbook.Book.Array.{
  ArraySide, anchor_for, make, apply, clear, size, best, for_each, mark_dirty, advance_best,
  window_index, place_at, place, place_all, recentred, push, overflow_set,
  overflow_rebuild_threshold, refill, rebuild_around_touch, spilled, apply_window, apply_overflow,
  apply_at, apply_anchored,
}
use crossbook.Book.Array.Count.{count_none}
use crossbook.Book.Array.Valid.{IsValid, levels, levels-IsLadder, levels-IsInt64, length-levels}
use crossbook.Book.Array.Loop.{for_each-levels, best-levels}
use crossbook.Book.Array.Rebuild.{clear_window_slots-IsEmptied}
use crossbook.Book.Array.Update.{apply-IsUpdated, levels_nil}

-- The side that a container serves never changes.
abbrev Same : ArraySide → ArraySide → Type 0
Same x y = y.side ≡ x.side

side-mark_dirty : (x y : ArraySide) (i : ℕ) → Same x y → Same x (mark_dirty y i)
side-mark_dirty x y i h = if_cases (Same x) (ltb y.dirty_hi y.dirty_lo) _ _ (λ _. h) (λ _. h)

side-place_all : (x : ArraySide) (ls : List Level) → Same x (place_all x ls)
unfolding place_all
side-place_all x [] = refl
side-place_all x (l ∷ ls) =
    side-place_all (place x l) ls ∙ placed (window_index x.base x.slots l.price)
  where
    placed : (o : Option ℕ) → Same x (place_at x l o)
    placed none = refl
    placed (some i) = side-mark_dirty x _ i refl

side-refill : (x : ArraySide) (ls : List Level) → Same x (refill x ls)
side-refill x [] = refl
side-refill x (l ∷ ls) = side-place_all (recentred x l.price) (l ∷ ls)

side-rebuild_around_touch : (x : ArraySide) → Same x (rebuild_around_touch x)
unfolding rebuild_around_touch
side-rebuild_around_touch x =
    side-refill (record x { rebuild_count = inc64 x.rebuild_count })
      (for_each (List Level) push x [])

side-spilled : (x : ArraySide) → Same x (spilled x)
side-spilled x =
    if_cases (Same x) (ltb (x.overflow_floor + overflow_rebuild_threshold) (length x.overflow))
      (rebuild_around_touch x) x (λ _. side-rebuild_around_touch x) (λ _. refl)

side-apply_window : (x : ArraySide) (i : ℕ) (q : Qty) → Same x (apply_window x i q)
unfolding advance_best
side-apply_window x i q =
    if_cases (Same x) (is_zero q) _ _
      (λ _.
        if_cases (Same x) (is_zero (x.window i)) x _ (λ _. refl)
          (λ _.
            if_cases (Same x) (i == x.best_index) _ _
              (λ _. if_cases (Same x) (x.window_count - 1 == 0) _ _ (λ _. refl) (λ _. refl))
              (λ _. refl)))
      (λ _.
        side-mark_dirty x _ i
          (if_cases (Same x) (is_zero (x.window i)) _ x (λ _. refl) (λ _. refl)))

side-apply_overflow : (x : ArraySide) (p : Price) (q : Qty) → Same x (apply_overflow x p q)
side-apply_overflow x p q =
    if_cases (Same x) (is_zero q) _ _ (λ _. refl)
      (λ _. side-spilled (record x { overflow = overflow_set p q x.overflow }))

side-apply_anchored : (x : ArraySide) (p : Price) (q : Qty) → Same x (apply_anchored x p q)
side-apply_anchored x p q = go (window_index x.base x.slots p)
  where
    go : (o : Option ℕ) → Same x (apply_at x p q o)
    go none = side-apply_overflow x p q
    go (some i) = side-apply_window x i q

side-apply : (x : ArraySide) (p : Price) (q : Qty) → Same x (apply x p q)
unfolding apply
side-apply x p q =
    if_cases (Same x) x.anchored _ _ (λ _. side-apply_anchored x p q)
      (λ _.
        if_cases (Same x) (is_zero q) x _ (λ _. refl)
          (λ _.
            side-apply_anchored (record x { base = anchor_for x.slots p; anchored = true }) p q))

pub make-IsValid : (slots : ℕ) (s : Side) → slots < 2 ^ 63 → IsValid (make slots s)
unfolding make
make-IsValid slots s h = record {
  windowed = record {
    fits = ground arith;
    counted = sym (count_none slots (λ i. pos 0) (λ k l. refl));
    touch = inl refl;
    written = λ k. inl refl;
  };
  ascending = tt;
  outside = tt;
  int64 = tt;
  unanchored = inr (refl, refl);
}

clear-IsValid : (x : ArraySide) → IsValid x → IsValid (clear x)
unfolding clear
clear-IsValid x v =
    let b = v.windowed.fits.1 in
    record {
      windowed = record {
        fits = ground arith;
        counted = sym (count_none x.slots _ (λ k l. clear_window_slots-IsEmptied x v.windowed k));
        touch = inl refl;
        written = λ k. inl (clear_window_slots-IsEmptied x v.windowed k);
      };
      ascending = tt;
      outside = tt;
      int64 = tt;
      unanchored = inr (refl, refl);
    }

unfoldable pub array_impl : ℕ → SideImpl
array_impl slots = record {
  State = ArraySide;
  make = make slots;
  apply = apply;
  clear = clear;
  size = size;
  best = best;
  for_each = for_each;
}

-- The window container implements the ladder of its side, for fewer than 2^63 slots: the levels of
-- a valid container are sorted in book order with no price twice and no empty level, `apply` is the
-- ladder's update, wherever the price stands to the window, whether or not it rebuilds, and `make`,
-- `clear`, `size`, `best` and `for_each` are what they are on the ladder. Each operation keeps the
-- container valid.
pub array_refines : (slots : ℕ) → slots < 2 ^ 63 → IsSideImpl (array_impl slots)
unfolding array_impl make clear
array_refines slots h = record {
  IsValid = IsValid;
  side = λ x. x.side;
  levels = levels;
  levels-IsLadder = levels-IsLadder;
  levels-IsInt64 = levels-IsInt64;
  make-IsValid = λ s. make-IsValid slots s h;
  side-make = λ s. refl;
  levels-make = λ s. levels_nil (make slots s) (make-IsValid slots s h) refl refl;
  apply-IsValid = λ x p q v r _. (apply-IsUpdated x p q v r).valid;
  side-apply = side-apply;
  levels-apply = λ x p q v r _. (apply-IsUpdated x p q v r).same;
  clear-IsValid = clear-IsValid;
  side-clear = λ x. refl;
  levels-clear = λ x v. levels_nil (clear x) (clear-IsValid x v) refl refl;
  size-levels = λ x v. sym (length-levels x v);
  best-levels = best-levels;
  for_each-levels = λ A f x a v. for_each-levels x v A f a;
}
