-- ===== src/L3/Spec.antt =====
-- What an order-by-order book means: its resting orders in time priority. An order that is added, or
-- whose quantity grows, goes to the end; all else keeps its place.
use crossbook.Common.{All, length, ℕ, Bool, true, false, not, ◌||◌, if◌then◌else◌, ◌==◌}
use crossbook.Common.{List, [], ◌∷◌, ◌++◌, Option, none, some}
use crossbook.Common.Int.{IsInt64, pos, ◌+ℤ◌, ◌-ℤ◌, ltb_ℤ}
use crossbook.Types.{Side, Price, Qty}
use crossbook.L3.{is_positive}
use crossbook.L3.Entries.{is_at}

pub record Resting : Type 0 where
  pub id : ℕ
  pub side : Side
  pub price : Price
  pub qty : Qty

unfoldable pub lookup : ℕ → List Resting → Option Resting
lookup id [] = none
lookup id (o ∷ os) = if o.id == id then some o else lookup id os

unfoldable pub without : ℕ → List Resting → List Resting
without id [] = []
without id (o ∷ os) = let rest = without id os in if o.id == id then rest else o ∷ rest

unfoldable pub with_qty : ℕ → Qty → List Resting → List Resting
with_qty id q [] = []
with_qty id q (o ∷ os) = (if o.id == id then record o { qty = q } else o) ∷ with_qty id q os

abbrev pub found : Option Resting → Bool
found none = false
found (some o) = true

pub data Command : Type 0 where
  add : ℕ → Side → Price → Qty → Command
  modify : ℕ → Qty → Command
  remove : ℕ → Command
  execute : ℕ → Qty → Command
  clear : Command

abbrev pub reduce : List Resting → ℕ → Qty → Resting → List Resting × Bool
reduce os id q o =
    if not (is_positive q)
    then (without id os, true)
    else if ltb_ℤ o.qty q
    then (without id os ++ record o { qty = q } ∷ [], true)
    else (with_qty id q os, true)

abbrev pub trade : List Resting → ℕ → Qty → Resting → List Resting × Bool
trade os id q o =
    if not (is_positive q)
    then (os, false)
    else if ltb_ℤ q o.qty
    then (with_qty id (o.qty -ℤ q) os, true)
    else (without id os, true)

abbrev pub on_order :
    List Resting → Option Resting → (Resting → List Resting × Bool) → List Resting × Bool
on_order os none f = (os, false)
on_order os (some o) f = f o

-- The new orders, and the answer.
abbrev pub spec : List Resting → Command → List Resting × Bool
spec os (add id s p q) =
    if not (is_positive q) || found (lookup id os)
    then (os, false)
    else (os ++ record { id = id; side = s; price = p; qty = q } ∷ [], true)
spec os (modify id q) = on_order os (lookup id os) (reduce os id q)
spec os (remove id) = on_order os (lookup id os) (λ o. (without id os, true))
spec os (execute id q) = on_order os (lookup id os) (trade os id q)
spec os clear = ([], true)

-- The quantity that rests at a price before the order with an id.
unfoldable pub ahead : ℕ → Side → Price → List Resting → Qty
ahead id s p [] = pos 0
ahead id s p (o ∷ os) =
    let rest = ahead id s p os in
    if o.id == id then pos 0 else if is_at o.side o.price s p then o.qty +ℤ rest else rest

-- The orders of one price, in time priority.
unfoldable pub at_price : Side → Price → List Resting → List Resting
at_price s p [] = []
at_price s p (o ∷ os) =
    let rest = at_price s p os in if is_at o.side o.price s p then o ∷ rest else rest

unfoldable pub sum_qty : List Resting → Qty
sum_qty [] = pos 0
sum_qty (o ∷ os) = o.qty +ℤ sum_qty os

-- The quantity and the number of the orders of a level, if there are any.
unfoldable pub aggregate : List Resting → Option (Qty × ℕ)
aggregate [] = none
aggregate (o ∷ os) = some (sum_qty (o ∷ os), length (o ∷ os))

-- At each price the quantities that rest there have a sum that an int64_t holds.
abbrev pub Fits : List Resting → Type 0
Fits os = All (λ (o : Resting). IsInt64 (sum_qty (at_price o.side o.price os))) os

-- So it is from these orders on, after each of the calls.
abbrev pub AllFit : List Resting → List Command → Type 0
AllFit os [] = Fits os
AllFit os (c ∷ cs) = Fits os × AllFit (spec os c).0 cs
