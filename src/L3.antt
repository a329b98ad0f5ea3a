-- ===== src/L3.antt =====
-- `L3Book` of include/crossbook/l3.hpp: every resting order, a queue for each price, and the state of
-- each level. The arena and the hash table are a size and a function of the index, a std::map is the
-- list of its entries in key order, and the head of `free_list` is the back of the source's vector.
-- The int64_t sums of quantities are cut off to their range at every step, since nothing checks them.
pub mod Table
pub mod Query
pub mod Links
pub mod Entries
pub mod Queues
pub mod LinkBack
pub mod Summary
pub mod Append
pub mod Unlink
pub mod Leave
pub mod Spec
pub mod Valid
pub mod Lookup
pub mod Allocate
pub mod Enter
pub mod Release
pub mod Resize
pub mod Commands
pub mod Refines
pub mod Steps
mod Tests
pub mod Aggregates
pub mod Lookups
pub mod Requeue
use crossbook.Common.{ℕ, ◌+◌, ◌-◌, ◌%◌, ◌^◌, Bool, true, false, ◌||◌, not, List, [], ◌∷◌}
use crossbook.Common.{Option, none, some, if◌then◌else◌, ◌==◌}
use crossbook.Common.Int.{to_int64, pos, ◌+ℤ◌, ◌-ℤ◌, ltb_ℤ}
use crossbook.Types.{Side, bid, ask, Price, Qty, eq_ℤ}
use crossbook.L3.Table.{IdTable, no_order, make_table, find_ref, insert_ref, erase_ref, clear_table}

pub record Order : Type 0 where
  pub id : ℕ
  pub price : Price
  pub qty : Qty
  pub side : Side
  pub prev : ℕ
  pub next : ℕ
  pub live : Bool

abbrev pub blank_order : Order
blank_order = record {
  id = 0;
  price = pos 0;
  qty = pos 0;
  side = bid;
  prev = no_order;
  next = no_order;
  live = false;
}

pub record L3Level : Type 0 where
  pub qty : Qty
  pub orders : ℕ
  pub head : ℕ
  pub tail : ℕ

abbrev pub blank_level : L3Level
blank_level = record { qty = pos 0; orders = 0; head = no_order; tail = no_order }

-- An entry of `bids_` or `asks_`.
pub record Entry : Type 0 where
  pub ticks : Price
  pub level : L3Level

pub record L3Book : Type 0 where
  pub orders : ℕ → Order
  pub arena_size : ℕ
  pub free_list : List ℕ
  pub table : IdTable
  pub bids : List Entry
  pub asks : List Entry
  pub live_orders : ℕ

unfoldable pub make : ℕ → L3Book
make expected_orders = record {
  orders = λ r. blank_order;
  arena_size = 0;
  free_list = [];
  table = make_table expected_orders;
  bids = [];
  asks = [];
  live_orders = 0;
}

abbrev pub pick {ℓ} : {A : Type ℓ} → Side → A → A → A
pick bid x y = x
pick ask x y = y

abbrev pub side_levels : L3Book → Side → List Entry
side_levels b s = pick s b.bids b.asks

abbrev pub with_levels : L3Book → Side → List Entry → L3Book
with_levels b s es = record b { bids = pick s es b.bids; asks = pick s b.asks es }

-- std::map::find, a write through operator[], and std::map::erase.
unfoldable pub find_entry : Price → List Entry → Option L3Level
find_entry p [] = none
find_entry p (e ∷ es) = if eq_ℤ e.ticks p then some e.level else find_entry p es

unfoldable pub set_entry : Price → L3Level → List Entry → List Entry
set_entry p l [] = record { ticks = p; level = l } ∷ []
set_entry p l (e ∷ es) =
    if eq_ℤ e.ticks p
    then record { ticks = p; level = l } ∷ es
    else if ltb_ℤ p e.ticks
    then record { ticks = p; level = l } ∷ e ∷ es
    else e ∷ set_entry p l es

unfoldable pub erase_entry : Price → List Entry → List Entry
erase_entry p [] = []
erase_entry p (e ∷ es) = let rest = erase_entry p es in if eq_ℤ e.ticks p then rest else e ∷ rest

unfoldable pub find_level : L3Book → Side → Price → Option L3Level
find_level b s p = find_entry p (side_levels b s)

abbrev pub or_blank : Option L3Level → L3Level
or_blank none = blank_level
or_blank (some l) = l

-- `level_for`: operator[] makes a blank level where there is none. Every caller writes the level
-- that it was given, by `set_level`.
unfoldable pub level_for : L3Book → Side → Price → L3Level
level_for b s p = or_blank (find_level b s p)

unfoldable pub set_level : L3Book → Side → Price → L3Level → L3Book
set_level b s p l = with_levels b s (set_entry p l (side_levels b s))

unfoldable pub write_order : L3Book → ℕ → Order → L3Book
write_order b r o = record b { orders = λ j. if r == j then o else b.orders j }

unfoldable pub set_next : L3Book → ℕ → ℕ → L3Book
unfolding write_order
set_next b r n = write_order b r (record (b.orders r) { next = n })

unfoldable pub set_prev : L3Book → ℕ → ℕ → L3Book
unfolding write_order
set_prev b r p = write_order b r (record (b.orders r) { prev = p })

unfoldable pub allocate_from : List ℕ → L3Book → ℕ × L3Book
allocate_from (r ∷ rs) b = (r, record b { free_list = rs })
allocate_from [] b = (
  b.arena_size % 2 ^ 32,
  record b {
    orders = λ j. if b.arena_size == j then blank_order else b.orders j;
    arena_size = b.arena_size + 1;
  },
)

unfoldable pub allocate : L3Book → ℕ × L3Book
unfolding allocate_from
allocate b = allocate_from b.free_list b

-- `+=` and `-=` on an int64_t.
unfoldable pub add_qty : Qty → Qty → Qty
add_qty a b = to_int64 (a +ℤ b)

unfoldable pub sub_qty : Qty → Qty → Qty
sub_qty a b = to_int64 (a -ℤ b)

-- The level that `link_back` writes.
unfoldable pub appended : L3Level → ℕ → Qty → L3Level
appended l r q = record {
  qty = add_qty l.qty q;
  orders = l.orders + 1;
  head = if l.tail == no_order then r else l.head;
  tail = r;
}

unfoldable pub link_back : L3Book → ℕ → L3Book
unfolding set_next write_order level_for set_level
link_back b r =
    let o = b.orders r in
    let l = level_for b o.side o.price in
    let b' = write_order b r (record o { prev = l.tail; next = no_order }) in
    let b'' = if l.tail == no_order then b' else set_next b' l.tail r in
    set_level b'' o.side o.price (appended l r o.qty)

-- The level that `unlink` leaves.
unfoldable pub removed : L3Level → Order → L3Level
removed l o = record {
  qty = sub_qty l.qty o.qty;
  orders = l.orders - 1;
  head = if o.prev == no_order then o.next else l.head;
  tail = if o.next == no_order then o.prev else l.tail;
}

unfoldable pub put_level : L3Book → Side → Price → L3Level → L3Book
unfolding set_level
put_level b s p l =
    if l.orders == 0 then with_levels b s (erase_entry p (side_levels b s)) else set_level b s p l

-- The neighbours of an order are joined, and the order is left with no links.
unfoldable pub detach : L3Book → ℕ → L3Book
unfolding set_next set_prev write_order
detach b r =
    let o = b.orders r in
    let b' = if o.prev == no_order then b else set_next b o.prev o.next in
    let b'' = if o.next == no_order then b' else set_prev b' o.next o.prev in
    write_order b'' r (record (b''.orders r) { prev = no_order; next = no_order })

unfoldable pub unlink : L3Book → ℕ → L3Book
unfolding detach put_level removed
unlink b r =
    let o = b.orders r in
    elim (find_level b o.side o.price) [
      | none ↦ b
      | some l ↦ put_level (detach b r) o.side o.price (removed l o)
    ]

abbrev pub is_positive : Qty → Bool
is_positive q = ltb_ℤ (pos 0) q

unfoldable pub new_order : ℕ → Side → Price → Qty → Order
new_order id s p q = record {
  id = id;
  price = p;
  qty = q;
  side = s;
  prev = no_order;
  next = no_order;
  live = true;
}

-- `add` for an order that is accepted.
unfoldable pub enter : L3Book → ℕ → Order → L3Book
unfolding allocate write_order link_back insert_ref
enter b id o =
    let (r, b') = allocate b in
    let linked = link_back (write_order b' r o) r in
    record linked { table = insert_ref linked.table id r; live_orders = linked.live_orders + 1 }

unfoldable pub add : L3Book → ℕ → Side → Price → Qty → L3Book × Bool
add b id s p q =
    if not (is_positive q) || not (find_ref b.table id == no_order)
    then (b, false)
    else (enter b id (new_order id s p q), true)

-- `remove` of the order at a reference.
unfoldable pub release : L3Book → ℕ → ℕ → L3Book
unfolding unlink write_order erase_ref
release b id r =
    let b' = unlink b r in
    let b'' = write_order b' r (record (b'.orders r) { live = false }) in
    record b'' {
      table = erase_ref b''.table id;
      free_list = r ∷ b''.free_list;
      live_orders = b''.live_orders - 1;
    }

unfoldable pub remove : L3Book → ℕ → L3Book × Bool
remove b id =
    let r = find_ref b.table id in if r == no_order then (b, false) else (release b id r, true)

-- The level and the order take a new quantity.
unfoldable pub resize : L3Book → ℕ → Qty → Qty → L3Book
unfolding level_for set_level write_order
resize b r level_qty order_qty =
    let o = b.orders r in
    let b' = set_level b o.side o.price (record (level_for b o.side o.price) { qty = level_qty }) in
    write_order b' r (record o { qty = order_qty })

unfoldable pub modify : L3Book → ℕ → Qty → L3Book × Bool
modify b id new_qty =
    let r = find_ref b.table id in
    let o = b.orders r in
    let l = level_for b o.side o.price in
    let resized = resize b r (add_qty l.qty (sub_qty new_qty o.qty)) new_qty in
    if r == no_order
    then (b, false)
    else if not (is_positive new_qty)
    then remove b id
    else if ltb_ℤ o.qty new_qty
    then (link_back (unlink resized r) r, true)
    else (resized, true)

-- What is left of the order is between 1 and its quantity, so that difference needs no cut.
unfoldable pub execute : L3Book → ℕ → Qty → L3Book × Bool
execute b id traded =
    let r = find_ref b.table id in
    let o = b.orders r in
    let l = level_for b o.side o.price in
    if r == no_order || not (is_positive traded)
    then (b, false)
    else if not (ltb_ℤ traded o.qty)
    then remove b id
    else (resize b r (sub_qty l.qty traded) (o.qty -ℤ traded), true)

unfoldable pub clear : L3Book → L3Book
unfolding clear_table
clear b = record {
  orders = λ r. blank_order;
  arena_size = 0;
  free_list = [];
  table = clear_table b.table;
  bids = [];
  asks = [];
  live_orders = 0;
}
