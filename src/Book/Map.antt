-- ===== src/Book/Map.antt =====
-- `MapSide` of include/crossbook/book.hpp: the reference container. Its std::map is the list of its
-- entries in key order, ascending.
pub mod Refines
use crossbook.Common.{ℕ, Bool, List, [], ◌∷◌, Option, none, some}
use crossbook.Common.{if◌then◌else◌, reverse, length}
use crossbook.Common.Int.{ltb_ℤ}
use crossbook.Types.{Side, bid, ask, Price, Qty, eq_ℤ, is_zero, Level}
use crossbook.Book.Visit.{visit}

pub record MapSide : Type 0 where
  pub side : Side
  pub levels : List Level

-- std::map::erase and operator[] on the entries.
unfoldable pub erase : Price → List Level → List Level
erase p [] = []
erase p (l ∷ ls) = if eq_ℤ l.price p then ls else if ltb_ℤ p l.price then l ∷ ls else l ∷ erase p ls

unfoldable pub assign : Price → Qty → List Level → List Level
assign p q [] = record { price = p; qty = q } ∷ []
assign p q (l ∷ ls) =
    if eq_ℤ l.price p
    then record { price = p; qty = q } ∷ ls
    else if ltb_ℤ p l.price
    then record { price = p; qty = q } ∷ l ∷ ls
    else l ∷ assign p q ls

unfoldable pub make : Side → MapSide
make s = record { side = s; levels = [] }

unfoldable pub apply : MapSide → Price → Qty → MapSide
unfolding erase assign
apply m p q =
    if is_zero q
    then record m { levels = erase p m.levels }
    else record m { levels = assign p q m.levels }

unfoldable pub clear : MapSide → MapSide
clear m = record m { levels = [] }

unfoldable pub size : MapSide → ℕ
size m = length m.levels

-- Forward iteration for asks, backward iteration for bids.
unfoldable pub iterate : Side → List Level → List Level
iterate ask ls = ls
iterate bid ls = reverse ls

unfoldable pub first : List Level → Option Level
first [] = none
first (l ∷ ls) = some l

unfoldable pub best : MapSide → Option Level
unfolding first iterate
best m = first (iterate m.side m.levels)

unfoldable pub for_each : (A : Type 0) → (A → Level → A × Bool) → MapSide → A → A
unfolding iterate
for_each A f m a = visit f (iterate m.side m.levels) a
