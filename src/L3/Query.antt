-- ===== src/L3/Query.antt =====
-- The lookups of `L3Book` in include/crossbook/l3.hpp. A walk along a queue has one round more than
-- the level counts orders; `none` means that it took more.
use crossbook.Common.{ℕ, zero, suc, Bool, List, [], ◌∷◌, Option, none, some}
use mathlib.Core.Option
use crossbook.Common.{if◌then◌else◌, ◌==◌, ◌||◌, reverse, map, length}
use crossbook.Common.Int.{pos}
use crossbook.Types.{Side, bid, ask, Price, Qty, Level}
use crossbook.Book.Visit.{visit}
use crossbook.L3.Table.{no_order, find_ref}
use crossbook.L3.{add_qty, Order, L3Level, Entry, L3Book, side_levels, find_level}

unfoldable pub order_count : L3Book → ℕ
order_count b = b.live_orders

unfoldable pub free_slots : L3Book → ℕ
free_slots b = length b.free_list

unfoldable pub find : L3Book → ℕ → Option Order
find b id = let r = find_ref b.table id in if r == no_order then none else some (b.orders r)

-- The loop of `queue_ahead`.
unfoldable pub ahead_from : ℕ → (ℕ → Order) → ℕ → ℕ → Qty → Option Qty
ahead_from zero orders r cursor ahead = none
ahead_from (suc fuel) orders r cursor ahead =
    let rest = ahead_from fuel orders r (orders cursor).next (add_qty ahead (orders cursor).qty) in
    if cursor == no_order || cursor == r then some ahead else rest

abbrev pub or_missing {ℓ} :
    {A : Type ℓ} → Option L3Level → (L3Level → Option (Option A)) → Option (Option A)
or_missing none f = some none
or_missing (some l) f = f l

-- `none` where the walk does not end, `some none` where the source returns false.
unfoldable pub queue_ahead : L3Book → ℕ → Option (Option Qty)
queue_ahead b id =
    let r = find_ref b.table id in
    let o = b.orders r in
    let walk =
      λ (l : L3Level). Option.map some (ahead_from (suc l.orders) b.orders r l.head (pos 0)) in
    if r == no_order then some none else or_missing (find_level b o.side o.price) walk

-- The loop of `for_each_order`; a visitor returns its state and whether to go on.
unfoldable pub walk_orders :
    ℕ → (A : Type 0) → (A → Order → A × Bool) → (ℕ → Order) → ℕ → A → Option A
walk_orders zero A f orders cursor a = none
walk_orders (suc fuel) A f orders cursor a =
    let (a', more) = f a (orders cursor) in
    let rest = walk_orders fuel A f orders (orders cursor).next a' in
    if cursor == no_order then some a else if more then rest else some a'

abbrev pub or_some {ℓ} : {A : Type ℓ} → A → Option L3Level → (L3Level → Option A) → Option A
or_some a none f = some a
or_some a (some l) f = f l

unfoldable pub for_each_order :
    (A : Type 0) → (A → Order → A × Bool) → L3Book → Side → Price → A → Option A
for_each_order A f b s p a =
    or_some a (find_level b s p) (λ l. walk_orders (suc l.orders) A f b.orders l.head a)

abbrev pub projected : Entry → Level
projected e = record { price = e.ticks; qty = e.level.qty }

-- `rbegin` to `rend` for bids, `begin` to `end` for asks.
abbrev pub in_book_order : Side → List Entry → List Entry
in_book_order bid es = reverse es
in_book_order ask es = es

unfoldable pub best : L3Book → Side → Option Level
best b s = elim (in_book_order s (side_levels b s)) [ [] ↦ none | e ∷ es ↦ some (projected e) ]

unfoldable pub for_each_level : (A : Type 0) → (A → Level → A × Bool) → L3Book → Side → A → A
for_each_level A f b s a = visit f (map projected (in_book_order s (side_levels b s))) a
