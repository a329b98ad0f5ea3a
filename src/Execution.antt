-- ===== src/Execution.antt =====
-- include/crossbook/execution.hpp: what a book would fill, and at which price, over any container.
-- An int64_t division is `quot` and `rem`; the sums that an overflow leaves are never read.
pub mod Filling
pub mod Cost
pub mod Limit
pub mod Within
pub mod Size
mod Tests
use crossbook.Common.{
  ℕ, suc, ◌+◌, ◌-◌, ◌*◌, ◌/◌, ◌%◌, ◌^◌, Bool, true, false, not, ◌&&◌, ◌||◌, Option, none, some,
}
use crossbook.Common.{if◌then◌else◌, ltb}
use crossbook.Common.Int.{ℤ, pos, negsuc, ltb_ℤ, sub_ℕ, ◌+ℤ◌, ◌-ℤ◌}
use crossbook.Types.{Side, bid, ask, Price, Qty, Level, eq_ℤ}
use crossbook.Fixed.{to_u64, max_int64}
use crossbook.Fixed.Parse.{checked_mul}
use crossbook.Book.Visit.{SideImpl}
use crossbook.Book.L2
use crossbook.Book.L2.{L2Book}

-- Hundredths of a basis point.
abbrev pub from_bps : ℤ → ℤ
from_bps (pos n) = pos (n * 100)
from_bps (negsuc n) = negsuc (n * 100 + 99)

abbrev pub from_percent : ℤ → ℤ
from_percent (pos n) = pos (n * 10000)
from_percent (negsuc n) = negsuc (n * 10000 + 9999)

pub data ExecutionStatus : Type 0 where
  unset ok empty_book overflow limit_excluded_all invalid_request : ExecutionStatus

pub record Execution : Type 0 where
  pub qty : Qty
  pub vwap : Price
  pub limit_price : Price
  pub levels : ℕ
  pub depth_exhausted : Bool
  pub slippage : ℤ
  pub status : ExecutionStatus

-- A default execution with that status.
abbrev pub refused : Bool → ExecutionStatus → Execution
refused exhausted s = record {
  qty = pos 0;
  vwap = pos 0;
  limit_price = pos 0;
  levels = 0;
  depth_exhausted = exhausted;
  slippage = pos 0;
  status = s;
}

abbrev pub is_negative : ℤ → Bool
is_negative (pos n) = false
is_negative (negsuc n) = true

abbrev pub magnitude_u64 : ℤ → ℕ
magnitude_u64 v = if is_negative v then (2 ^ 64 - to_u64 v) % 2 ^ 64 else to_u64 v

abbrev pub negate : ℤ → ℤ
negate v = pos 0 -ℤ v

abbrev pub differ : Bool → Bool → Bool
differ true b = not b
differ false b = b

abbrev pub with_sign : Bool → Option ℕ → Option ℤ
with_sign negative none = none
with_sign true (some product) = some (negate (pos product))
with_sign false (some product) = some (pos product)

pub checked_mul_signed : ℤ → ℤ → Option ℤ
checked_mul_signed a b =
    if ltb max_int64 (magnitude_u64 a) || ltb max_int64 (magnitude_u64 b)
    then none
    else with_sign (differ (is_negative a) (is_negative b))
        (checked_mul (magnitude_u64 a) (magnitude_u64 b))

-- With `checked_add` of fixed.hpp for a `b` that is not negative.
pub checked_add_signed : ℤ → ℤ → Option ℤ
checked_add_signed a b =
    if is_negative b
    then if ltb_ℤ a (negsuc (2 ^ 63 - 1) -ℤ b) then none else some (a +ℤ b)
    else if ltb_ℤ (pos max_int64 -ℤ b) a
    then none
    else some (a +ℤ b)

pub checked_sub_signed : ℤ → ℤ → Option ℤ
checked_sub_signed a b =
    if eq_ℤ b (negsuc (2 ^ 63 - 1))
    then if is_negative a then some (a -ℤ b) else none
    else checked_add_signed a (negate b)

-- The division of C++, which truncates; it is never by zero.
abbrev pub quot : ℤ → ℤ → ℤ
quot (pos a) (pos b) = pos (a / b)
quot (pos a) (negsuc b) = sub_ℕ 0 (a / suc b)
quot (negsuc a) (pos b) = sub_ℕ 0 (suc a / b)
quot (negsuc a) (negsuc b) = pos (suc a / suc b)

abbrev pub rem : ℤ → ℤ → ℤ
rem (pos a) (pos b) = pos (a % b)
rem (pos a) (negsuc b) = pos (a % suc b)
rem (negsuc a) (pos b) = sub_ℕ 0 (suc a % b)
rem (negsuc a) (negsuc b) = sub_ℕ 0 (suc a % suc b)

abbrev pub floor_div : ℤ → ℤ → ℤ
floor_div num den =
    let quotient = quot num den in
    let remainder = rem num den in
    if not (eq_ℤ remainder (pos 0)) && differ (is_negative remainder) (is_negative den)
    then quotient -ℤ pos 1
    else quotient

abbrev pub ceil_div : ℤ → ℤ → ℤ
ceil_div num den =
    let quotient = quot num den in
    let remainder = rem num den in
    if not (eq_ℤ remainder (pos 0)) && not (differ (is_negative remainder) (is_negative den))
    then quotient +ℤ pos 1
    else quotient

abbrev pub div_away_from_zero : ℤ → ℤ → ℤ
div_away_from_zero num den =
    let quotient = quot num den in
    if eq_ℤ (rem num den) (pos 0)
    then quotient
    else if differ (is_negative num) (is_negative den)
    then quotient -ℤ pos 1
    else quotient +ℤ pos 1

pub conservative_vwap : ℤ → ℤ → Side → ℤ
conservative_vwap notional qty ask = ceil_div notional qty
conservative_vwap notional qty bid = floor_div notional qty

pub price_limit : ℤ → Side → ℤ → Option ℤ
price_limit touch s slippage = elim (checked_mul_signed touch slippage) [
  | none ↦ none
  | some product ↦ by_side s (quot product (pos 1000000))
]
  where
    by_side : Side → ℤ → Option ℤ
    by_side ask offset = checked_add_signed touch offset
    by_side bid offset = checked_add_signed touch (negate offset)

pub bps_between : ℤ → ℤ → ℤ
bps_between reference moved =
    if eq_ℤ reference (pos 0)
    then pos 0
    else elim (checked_mul_signed
        (if ltb_ℤ reference moved then moved -ℤ reference else reference -ℤ moved) (pos 1000000)) [
          | none ↦ pos 0
          | some scaled ↦ quot scaled reference
        ]

-- What the two visitors capture: `total` is the size so far, or what remains to be filled.
pub record Sweep : Type 0 where
  pub notional : ℤ
  pub total : ℤ
  pub overflowed : Bool
  pub stopped : Bool
  pub limit_price : Price
  pub levels : ℕ

abbrev pub sweep : ℤ → Sweep
sweep total = record {
  notional = pos 0;
  total = total;
  overflowed = false;
  stopped = false;
  limit_price = pos 0;
  levels = 0;
}

abbrev pub beyond : Side → Price → Price → Bool
beyond ask price limit = ltb_ℤ limit price
beyond bid price limit = ltb_ℤ price limit

-- `checked_mul_signed` and `checked_add_signed` of one level's contribution.
abbrev pub add_to : ℤ → Option ℤ → Option ℤ
add_to notional none = none
add_to notional (some contribution) = checked_add_signed notional contribution

pub contribute : ℤ → Price → ℤ → Option ℤ
contribute notional price size = add_to notional (checked_mul_signed price size)

abbrev pub add_within : Sweep → Price → Option ℤ → Option ℤ → Sweep × Bool
add_within w price none total = (record w { overflowed = true }, false)
add_within w price (some notional) none = (record w { overflowed = true }, false)
add_within w price (some notional) (some total) = (
  record w { notional = notional; total = total; limit_price = price; levels = w.levels + 1 },
  true,
)

abbrev pub visit_within : Side → Price → Sweep → Level → Sweep × Bool
visit_within s limit w l =
    if beyond s l.price limit
    then (record w { stopped = true }, false)
    else add_within w l.price (contribute w.notional l.price l.qty)
        (checked_add_signed w.total l.qty)

-- The level's part that is still wanted is taken.
abbrev pub taken : Sweep → Price → ℤ → Option ℤ → Sweep × Bool
taken w price take none = (record w { overflowed = true }, false)
taken w price take (some notional) = (
  record w {
    notional = notional;
    total = w.total -ℤ take;
    limit_price = price;
    levels = w.levels + 1;
  },
  ltb_ℤ (pos 0) (w.total -ℤ take),
)

abbrev pub visit_wanted : Sweep → Level → Sweep × Bool
visit_wanted w l =
    let take = if ltb_ℤ l.qty w.total then l.qty else w.total in
    taken w l.price take (contribute w.notional l.price take)

-- The end of both: the result of a sweep of the size `filled`.
pub filled_at : Side → Level → Sweep → ℤ → Bool → Execution
filled_at s touch w filled exhausted =
    let vwap = conservative_vwap w.notional filled s in
    record {
      qty = filled;
      vwap = vwap;
      limit_price = w.limit_price;
      levels = w.levels;
      depth_exhausted = exhausted;
      slippage = bps_between touch.price vwap;
      status = ok;
    }

abbrev pub sized : Side → Level → Sweep → Execution
sized s touch w =
    if w.overflowed
    then refused false overflow
    else if eq_ℤ w.total (pos 0)
    then refused false limit_excluded_all
    else filled_at s touch w w.total (not w.stopped)

abbrev pub costed : Side → Level → Qty → Sweep → Execution
costed s touch wanted w =
    if w.overflowed
    then refused false overflow
    else if eq_ℤ (wanted -ℤ w.total) (pos 0)
    then refused true empty_book
    else filled_at s touch w (wanted -ℤ w.total) (ltb_ℤ (pos 0) w.total)

module _ (I : SideImpl) where
  open I use {State}

  abbrev pub limited : L2Book State → Side → Level → Option Price → Execution
  limited book s touch none = refused false overflow
  limited book s touch (some limit) =
      sized s touch (I.for_each Sweep (visit_within s limit) (L2.side I book s) (sweep (pos 0)))

  abbrev pub size_within : L2Book State → Side → ℤ → Option Level → Execution
  size_within book s max_slippage none = refused true empty_book
  size_within book s max_slippage (some touch) =
      limited book s touch (price_limit touch.price s max_slippage)

  pub executable_size : L2Book State → Side → ℤ → Execution
  executable_size book s max_slippage =
      if is_negative max_slippage
      then refused false invalid_request
      else size_within book s max_slippage (L2.best I book s)

  abbrev pub qty_of : Option Level → Qty
  qty_of none = pos 0
  qty_of (some l) = l.qty

  pub touch_size : L2Book State → Side → Qty
  touch_size book s = qty_of (L2.best I book s)

  abbrev pub cost_of : L2Book State → Side → Qty → Option Level → Execution
  cost_of book s wanted none = refused true empty_book
  cost_of book s wanted (some touch) =
      costed s touch wanted (I.for_each Sweep visit_wanted (L2.side I book s) (sweep wanted))

  pub cost_to_trade : L2Book State → Side → Qty → Execution
  cost_to_trade book s wanted =
      if ltb_ℤ (pos 0) wanted
      then cost_of book s wanted (L2.best I book s)
      else refused false invalid_request
