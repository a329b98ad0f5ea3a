-- ===== src/L3/Commands.antt =====
-- The calls that change an order-by-order book of l3.hpp, and what it means that they implement the
-- abstract book.
use crossbook.Common.{◌+◌, ◌≤◌, ◌≡◌, Bool, true, List, [], ◌∷◌}
use crossbook.L3
use crossbook.L3.{L3Book}
use crossbook.L3.Spec.{Resting, Command, spec}
use crossbook.L3.Valid.{Represents}

unfoldable pub step : L3Book → Command → L3Book × Bool
step b (Command.add id s p q) = L3.add b id s p q
step b (Command.modify id q) = L3.modify b id q
step b (Command.remove id) = L3.remove b id
step b (Command.execute id q) = L3.execute b id q
step b Command.clear = (L3.clear b, true)

-- The answers come in the order of the calls.
unfoldable pub run : L3Book → List Command → L3Book × List Bool
run b [] = (b, [])
run b (c ∷ cs) =
    let (b', answer) = step b c in let (b'', answers) = run b' cs in (b'', answer ∷ answers)

unfoldable pub spec_run : List Resting → List Command → List Resting × List Bool
spec_run os [] = (os, [])
spec_run os (c ∷ cs) =
    let (os', answer) = spec os c in
    let (os'', answers) = spec_run os' cs in (os'', answer ∷ answers)

-- The book stands for the abstract orders, gives the same answer, and has taken one reference at
-- most.
abbrev pub Answers : L3Book → L3Book × Bool → List Resting × Bool → Type 0
Answers b x y = Represents x.0 y.0 × (x.1 ≡ y.1) × (x.0.arena_size ≤ b.arena_size + 1)
