-- ===== src/L3/Tests.antt =====
-- The theorems on l3.hpp at concrete calls, and runs of the book.
use crossbook.L3.Entries.{same_side}
use crossbook.Common.{ℕ, ◌≡◌, refl, arith, true, List, [], ◌∷◌, some}
use crossbook.Common.{if◌then◌else◌, ◌==◌}
use mathlib.Core.Option
use crossbook.Common.Int.{pos, ◌+ℤ◌, ◌-ℤ◌}
use crossbook.Types.{bid, ask, Side, Price}
use crossbook.L3
use crossbook.L3.{find_level}
use crossbook.L3.Query.{queue_ahead}
use crossbook.L3.Table.{no_order, make_table, insert_ref, erase_ref, find_ref, mix_id}
use crossbook.L3.Table.Laws.{
  make_table-IsTable, find_ref-make_table, insert_ref-IsTable, find_ref-insert_ref,
  find_ref-erase_ref,
}
use crossbook.L3.Spec.{
  Resting, Command, Fits, AllFit, at_price, sum_qty, aggregate, lookup, ahead, with_qty, without,
}
use crossbook.L3.Valid.{Represents}
use crossbook.L3.Commands.{run, spec_run}
use crossbook.L3.Steps.{run-Represents}
use crossbook.L3.Aggregates.{level_facts}
use crossbook.L3.Lookups.{queue_ahead-Represents, Shows, Represents-Shows}

abbrev calls : List Command
calls =
    Command.add 7 bid (pos 100) (pos 5)
    ∷ Command.add 8 bid (pos 100) (pos 3)
    ∷ Command.add 9 ask (pos 101) (pos 4)
    ∷ Command.add 7 bid (pos 99) (pos 1)
    ∷ Command.execute 7 (pos 2)
    ∷ Command.modify 7 (pos 6)
    ∷ Command.remove 9
    ∷ Command.add 10 bid (pos 100) (pos 2)
    ∷ []

-- The quantities at a price of the book never exceed 11.
calls_fit : AllFit [] calls
unfolding spec_run at_price sum_qty lookup with_qty without same_side ◌-ℤ◌ ◌+ℤ◌
calls_fit = omega arith

fit : Fits (spec_run [] calls).0
unfolding spec_run at_price sum_qty lookup with_qty without same_side ◌-ℤ◌ ◌+ℤ◌
fit = omega arith

run-Represents_example :
    Represents (run (L3.make 1) calls).0 (spec_run [] calls).0
    × ((run (L3.make 1) calls).1 ≡ (spec_run [] calls).1)
    × ((s : Side) (p : Price)
        → Option.map level_facts (find_level (run (L3.make 1) calls).0 s p)
          ≡ aggregate (at_price s p (spec_run [] calls).0))
run-Represents_example = run-Represents 1 calls (omega arith) calls_fit

queue_ahead-Represents_example :
    queue_ahead (run (L3.make 1) calls).0 10
    ≡ some (
        Option.map
          (λ (o : Resting). ahead 10 o.side o.price (spec_run [] calls).0)
          (lookup 10 (spec_run [] calls).0))
queue_ahead-Represents_example =
    queue_ahead-Represents (run (L3.make 1) calls).0 (spec_run [] calls).0 10
      (run-Represents 1 calls (omega arith) calls_fit).0 fit

Represents-Shows_example : Shows (run (L3.make 1) calls).0 (spec_run [] calls).0
Represents-Shows_example =
    Represents-Shows (run (L3.make 1) calls).0 (spec_run [] calls).0
      (run-Represents 1 calls (omega arith) calls_fit).0 fit

abbrev zero_named : {A : Type 0} → ◌≡◌ {A = ℕ} 0 no_order → A
zero_named h = absurd (omega (arith, h))

find_ref-insert_ref_example :
    find_ref (insert_ref (make_table 1) 7 0) 8 ≡ (if 7 == 8 then 0 else find_ref (make_table 1) 8)
find_ref-insert_ref_example =
    find_ref-insert_ref (make_table-IsTable 1) 7 0 zero_named (find_ref-make_table 1 7) 8

find_ref-erase_ref_example :
    find_ref (erase_ref (insert_ref (make_table 1) 7 0) 7) 8
    ≡ (if 7 == 8 then no_order else find_ref (insert_ref (make_table 1) 7 0) 8)
find_ref-erase_ref_example =
    find_ref-erase_ref
      (insert_ref-IsTable (make_table-IsTable 1) 7 0 zero_named (find_ref-make_table 1 7)) 7 8

-- Order 7 lost its place when it grew, so 8 and 7 stand before 10.
nine_ahead : queue_ahead (run (L3.make 1) calls).0 10 ≡ some (some (pos 9))
unfolding spec_run lookup ahead with_qty ◌-ℤ◌ without same_side ◌+ℤ◌
nine_ahead =
    queue_ahead-Represents (run (L3.make 1) calls).0 (spec_run [] calls).0 10
      (run-Represents 1 calls (omega arith) calls_fit).0 fit

-- The code itself runs: an order is found where it was put, and not where it was erased.
found_again : find_ref (insert_ref (make_table 1) 7 0) 7 ≡ 0
unfolding find_ref insert_ref make_table mix_id
found_again = refl

erased : find_ref (erase_ref (insert_ref (make_table 1) 7 0) 7) 7 ≡ no_order
unfolding find_ref erase_ref insert_ref make_table mix_id
erased = refl

entered : (L3.add (L3.make 1) 7 bid (pos 100) (pos 5)).1 ≡ true
unfolding find_ref L3.add L3.make make_table
entered = refl
