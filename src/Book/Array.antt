-- ===== src/Book/Array.antt =====
-- `ArraySide` of include/crossbook/book.hpp: a window of slots addressed by tick offset, and a sorted
-- spill list for the levels outside it. The window is the function of its index, and the scratch
-- buffer, which `rebuild_around_touch` empties before it uses it, is left out. An index that has left
-- the window, and the -1 of `for_each`, are `none`. The count of the window is lowered only where a
-- slot was occupied, which a valid side has counted.
pub mod Order
pub mod Merge
pub mod Walk
pub mod Seek
pub mod Count
pub mod Spill
pub mod Valid
pub mod Loop
pub mod Slot
pub mod Insert
pub mod Place
pub mod Refill
pub mod Outside
pub mod Rebuild
pub mod Update
pub mod Refines
pub mod Hysteresis
mod Tests
use crossbook.Common.{ℕ, zero, suc, ◌+◌, ◌-◌, ◌/◌, ◌%◌, ◌^◌}
use crossbook.Common.{Bool, true, false, ◌&&◌, ◌||◌, List, [], ◌∷◌, ◌++◌, Option, none, some}
use crossbook.Common.{if◌then◌else◌, ltb, leb, ◌==◌, length, take, drop, reverse}
use crossbook.Common.Int.{ℤ, pos, negsuc, ltb_ℤ, ◌+ℤ◌, ◌-ℤ◌}
use crossbook.Types.{Side, bid, ask, Price, Qty, Level, eq_ℤ, is_zero, precedes}
use crossbook.Fixed.{to_u64}
use crossbook.Sequence.{inc64}
use crossbook.Book.Visit.{resume}

pub record ArraySide : Type 0 where
  pub side : Side
  pub slots : ℕ
  pub window : ℕ → Qty
  pub overflow : List Level
  pub base : ℤ
  pub window_count : ℕ
  pub best_index : ℕ
  pub dirty_lo : ℕ
  pub dirty_hi : ℕ
  pub overflow_floor : ℕ
  pub rebuild_count : ℕ
  pub degraded : Bool
  pub anchored : Bool

abbrev pub overflow_rebuild_threshold : ℕ
overflow_rebuild_threshold = 64

-- `kNoDirty`, the greatest size_t.
abbrev pub no_dirty : ℕ
no_dirty = 2 ^ 64 - 1

pub make : ℕ → Side → ArraySide
make slots s = record {
  side = s;
  slots = slots;
  window = λ i. pos 0;
  overflow = [];
  base = pos 0;
  window_count = 0;
  best_index = 0;
  dirty_lo = no_dirty;
  dirty_hi = 0;
  overflow_floor = 0;
  rebuild_count = 0;
  degraded = false;
  anchored = false;
}

pub anchor_for : ℕ → ℤ → ℤ
anchor_for slots touch =
    let lowest = negsuc (2 ^ 63 - 1) in
    let half = pos (slots / 2) in
    let highest = pos (2 ^ 63 - 1) -ℤ pos (slots - 1) in
    if ltb_ℤ touch (lowest +ℤ half)
    then lowest
    else if ltb_ℤ highest (touch -ℤ half)
    then highest
    else touch -ℤ half

-- The slot of a price; the subtraction is on uint64_t.
pub window_index : ℤ → ℕ → Price → Option ℕ
window_index base slots ticks =
    let offset = (2 ^ 64 + to_u64 ticks - to_u64 base) % 2 ^ 64 in
    if leb slots offset then none else some offset

-- `static_cast<std::int64_t>` of a uint64_t.
abbrev pub from_u64 : ℕ → ℤ
from_u64 n = if ltb n (2 ^ 63) then pos n else negsuc (2 ^ 64 - 1 - n)

pub price_at : ℤ → ℕ → Price
price_at base index = from_u64 ((to_u64 base + index) % 2 ^ 64)

abbrev pub better_index : Side → ℕ → ℕ → Bool
better_index ask candidate incumbent = ltb candidate incumbent
better_index bid candidate incumbent = ltb incumbent candidate

-- `window_[index] = units`.
abbrev pub store : (ℕ → Qty) → ℕ → Qty → ℕ → Qty
store w index units i = if i == index then units else w i

abbrev pub mark_dirty : ArraySide → ℕ → ArraySide
mark_dirty x index =
    if ltb x.dirty_hi x.dirty_lo
    then record x { dirty_lo = index; dirty_hi = index }
    else record x {
      dirty_lo = if ltb index x.dirty_lo then index else x.dirty_lo;
      dirty_hi = if ltb x.dirty_hi index then index else x.dirty_hi;
    }

-- `std::fill` of the written range with zero.
abbrev pub fill : ℕ → ℕ → (ℕ → Qty) → ℕ → Qty
fill lo hi w i = if leb lo i && leb i hi then pos 0 else w i

abbrev pub clear_window_slots : ArraySide → ArraySide
clear_window_slots x = record x {
  window = if leb x.dirty_lo x.dirty_hi then fill x.dirty_lo x.dirty_hi x.window else x.window;
  dirty_lo = no_dirty;
  dirty_hi = 0;
}

-- `std::lower_bound` on the spill list, which is sorted.
pub overflow_lower_bound : Price → List Level → ℕ
overflow_lower_bound ticks [] = 0
overflow_lower_bound ticks (l ∷ ls) =
    let rest = overflow_lower_bound ticks ls in if ltb_ℤ l.price ticks then suc rest else 0

-- The spill list with a new level at the index, where it may replace the one that stands there.
abbrev pub insert_at : List Level → Level → List Level → List Level
insert_at front new [] = front ++ new ∷ []
insert_at front new (l ∷ back) =
    if eq_ℤ l.price new.price
    then front ++ record l { qty = new.qty } ∷ back
    else front ++ new ∷ l ∷ back

pub overflow_set : Price → Qty → List Level → List Level
overflow_set ticks units ls =
    let index = overflow_lower_bound ticks ls in
    insert_at (take index ls) (record { price = ticks; qty = units }) (drop index ls)

abbrev pub erase_at : List Level → Price → List Level → List Level
erase_at front ticks [] = front
erase_at front ticks (l ∷ back) = if eq_ℤ l.price ticks then front ++ back else front ++ l ∷ back

pub overflow_erase : Price → List Level → List Level
overflow_erase ticks ls =
    let index = overflow_lower_bound ticks ls in erase_at (take index ls) ticks (drop index ls)

-- `index += step`, where the step leads away from the touch.
abbrev pub next_index : Side → ℕ → ℕ → Option ℕ
next_index ask slots i = if ltb (suc i) slots then some (suc i) else none
next_index bid slots zero = none
next_index bid slots (suc i) = some i

-- On to the next occupied slot, on fuel: the window has `slots` slots.
pub seek : ℕ → Side → ℕ → (ℕ → Qty) → Option ℕ → Option ℕ
seek zero s slots w o = none
seek (suc fuel) s slots w none = none
seek (suc fuel) s slots w (some i) =
    let rest = seek fuel s slots w (next_index s slots i) in if is_zero (w i) then rest else some i

abbrev pub index_or_zero : Option ℕ → ℕ
index_or_zero none = 0
index_or_zero (some i) = i

pub advance_best : ArraySide → ArraySide
advance_best x = if x.window_count == 0 then record x { best_index = 0 } else record x {
  best_index =
      index_or_zero (seek x.slots x.side x.slots x.window (next_index x.side x.slots x.best_index));
}

abbrev pub level_at : ArraySide → ℕ → Level
level_at x i = record { price = price_at x.base i; qty = x.window i }

-- `seek_occupied` of `for_each`.
abbrev pub seek_occupied : ArraySide → ℕ → Option ℕ → Option ℕ
seek_occupied x emitted o =
    if leb x.window_count emitted then none else seek x.slots x.side x.slots x.window o

-- The spill list in book order, from its cursor on.
abbrev pub spill : Side → List Level → List Level
spill ask ls = ls
spill bid ls = reverse ls

-- The two-way merge of `for_each` on fuel: what has been emitted, the two cursors, and what the
-- visitor has captured. Every round visits a level, so the case without fuel is never taken.
pub merge_loop :
    {A : Type 0} → (A → Level → A × Bool) → ArraySide → ℕ → ℕ → Option ℕ → List Level → A → A
merge_loop f x zero emitted win ov a = a
merge_loop f x (suc fuel) emitted none [] a = a
merge_loop f x (suc fuel) emitted none (l ∷ ov) a =
    resume (f a l) (merge_loop f x fuel emitted none ov)
merge_loop f x (suc fuel) emitted (some i) [] a = resume (f a (level_at x i)) (
    merge_loop f x fuel (emitted + 1) (seek_occupied x (emitted + 1) (next_index x.side x.slots i))
      [])
merge_loop f x (suc fuel) emitted (some i) (l ∷ ov) a =
    if precedes x.side (price_at x.base i) l.price
    then resume (f a (level_at x i)) (
        merge_loop f x fuel (emitted + 1)
          (seek_occupied x (emitted + 1) (next_index x.side x.slots i)) (l ∷ ov))
    else resume (f a l) (merge_loop f x fuel emitted (some i) ov)

abbrev pub size : ArraySide → ℕ
size x = x.window_count + length x.overflow

-- The first cursor into the window.
abbrev pub window_start : ArraySide → Option ℕ
window_start x =
    if x.anchored && ltb 0 x.window_count then seek_occupied x 0 (some x.best_index) else none

pub for_each : (A : Type 0) → (A → Level → A × Bool) → ArraySide → A → A
for_each A f x a = merge_loop f x (suc (size x)) 0 (window_start x) (spill x.side x.overflow) a

abbrev pub first : List Level → Option Level
first [] = none
first (l ∷ ls) = some l

-- The level at the touch: of the window, of the spill list, or the one of the two that precedes.
abbrev pub touch_of : Side → Option Level → Option Level → Option Level
touch_of s none spilled = spilled
touch_of s (some l) none = some l
touch_of s (some l) (some m) = if precedes s l.price m.price then some l else some m

pub best : ArraySide → Option Level
best x =
    touch_of x.side
      (if x.anchored && ltb 0 x.window_count then some (level_at x x.best_index) else none)
      (first (spill x.side x.overflow))

-- One level of the scratch buffer, put back into the window or behind the spill list.
abbrev pub place_at : ArraySide → Level → Option ℕ → ArraySide
place_at x l none = record x { overflow = x.overflow ++ l ∷ [] }
place_at x l (some index) =
    mark_dirty
      (record x {
        best_index = if x.window_count == 0 then index else x.best_index;
        window = store x.window index l.qty;
        window_count = x.window_count + 1;
      })
      index

abbrev pub place : ArraySide → Level → ArraySide
place x l = place_at x l (window_index x.base x.slots l.price)

pub place_all : ArraySide → List Level → ArraySide
place_all x [] = x
place_all x (l ∷ ls) = place_all (place x l) ls

abbrev pub push : List Level → Level → List Level × Bool
push out l = (out ++ l ∷ [], true)

-- The cleared side, with the window around the touch.
abbrev pub recentred : ArraySide → Price → ArraySide
recentred x touch = record (clear_window_slots x) {
  overflow = [];
  window_count = 0;
  best_index = 0;
  base = anchor_for x.slots touch;
  anchored = true;
}

-- The end of a rebuild: the spill list into ascending order, and the floor and the flag.
abbrev pub settle : ℕ → ArraySide → ArraySide
settle before x = record x {
  overflow = spill x.side x.overflow;
  overflow_floor = length x.overflow;
  degraded = ltb 0 (length x.overflow) && leb before (length x.overflow);
}

abbrev pub refill : ArraySide → List Level → ArraySide
refill x [] = x
refill x (l ∷ ls) = settle (length x.overflow) (place_all (recentred x l.price) (l ∷ ls))

pub rebuild_around_touch : ArraySide → ArraySide
rebuild_around_touch x =
    refill (record x { rebuild_count = inc64 x.rebuild_count }) (for_each (List Level) push x [])

-- An update of a slot of the window.
abbrev pub apply_window : ArraySide → ℕ → Qty → ArraySide
apply_window x index q =
    if is_zero q
    then if is_zero (x.window index) then x else removed
    else mark_dirty (record added { window = store x.window index q }) index
  where
    cleared : ArraySide
    cleared = record x { window = store x.window index (pos 0); window_count = x.window_count - 1 }

    removed : ArraySide
    removed = if index == x.best_index then advance_best cleared else cleared

    added : ArraySide
    added =
        if is_zero (x.window index)
        then record x {
          best_index =
              if x.window_count == 0 || better_index x.side index x.best_index
              then index
              else x.best_index;
          window_count = x.window_count + 1;
        }
        else x

-- An update outside the window.
abbrev pub spilled : ArraySide → ArraySide
spilled x =
    if ltb (x.overflow_floor + overflow_rebuild_threshold) (length x.overflow)
    then rebuild_around_touch x
    else x

abbrev pub apply_overflow : ArraySide → Price → Qty → ArraySide
apply_overflow x p q =
    if is_zero q
    then record x {
      overflow = rest;
      overflow_floor = if ltb (length rest) x.overflow_floor then length rest else x.overflow_floor;
      degraded = if length rest == 0 then false else x.degraded;
    }
    else spilled (record x { overflow = overflow_set p q x.overflow })
  where
    rest : List Level
    rest = overflow_erase p x.overflow

abbrev pub apply_at : ArraySide → Price → Qty → Option ℕ → ArraySide
apply_at x p q none = apply_overflow x p q
apply_at x p q (some index) = apply_window x index q

abbrev pub apply_anchored : ArraySide → Price → Qty → ArraySide
apply_anchored x p q = apply_at x p q (window_index x.base x.slots p)

pub apply : ArraySide → Price → Qty → ArraySide
apply x p q =
    if x.anchored
    then apply_anchored x p q
    else if is_zero q
    then x
    else apply_anchored (record x { base = anchor_for x.slots p; anchored = true }) p q

pub clear : ArraySide → ArraySide
clear x = record (clear_window_slots x) {
  overflow = [];
  window_count = 0;
  best_index = 0;
  anchored = false;
  base = pos 0;
  overflow_floor = 0;
  degraded = false;
}
