-- ===== src/L3/Steps.antt =====
-- Every sequence of calls of l3.hpp does to the book what it does to the abstract orders.
use crossbook.Common.{ℕ, ◌+◌, ◌≤◌, ◌<◌, ◌≡◌, ◌≢◌, refl, sym, ap₂, arith, length, subst}
use crossbook.Common.{true, false, inl, inr, Bool-cases, ◌==◌, ==_iff}
use crossbook.Common.{List, [], ◌∷◌, ◌++◌, none, some, map}
use crossbook.Types.{Side, Price, Qty}
use crossbook.L3
use crossbook.L3.Table.{no_order, find_ref}
use crossbook.L3.Table.Valid.{IsTable}
use crossbook.L3.Table.Laws.{
  clear_table-IsTable, find_ref-clear_table, make_table-IsTable, find_ref-make_table,
}
use crossbook.L3.{L3Book, is_positive, new_order, find_level, find_entry}
use crossbook.L3.Queues.{queue, expected}
use crossbook.L3.Spec.{Resting, Command, spec, lookup, Fits, AllFit, at_price, aggregate}
use mathlib.Core.Option
use crossbook.L3.Aggregates.{level_facts}
use crossbook.L3.Lookups.{find_level-Represents}
use crossbook.L3.Valid.{IsBook, Represents, resting}
use crossbook.L3.Lookup.{Lacks, lookup-Lacks, lookup-middle, missing_id, hit_id}
use crossbook.L3.Enter.{enter-IsBook, enter_view, enter-arena}
use crossbook.L3.Refines.{remove_hit, modify_hit, execute_hit}
use crossbook.L3.Commands.{step, run, spec_run, Answers}

-- A book with no orders and an empty table.
blank-IsBook :
    (b : L3Book)
    → IsTable b.table
    → ((x : ℕ) → find_ref b.table x ≡ no_order)
    → b.free_list ≡ []
    → b.arena_size ≡ 0
    → b.live_orders ≡ 0
    → b.bids ≡ []
    → b.asks ≡ []
    → IsBook b []
unfolding queue expected find_level find_entry
blank-IsBook b t e f a l eb ea = record {
  queued = record { links = λ s p. tt; levels = levels; distinct = tt; nulls = tt };
  on_file = record {
    table = t;
    indexed = λ x ne. absurd (ne (e x));
    filed = tt;
    alive = tt;
    free = rw f tt;
    free_distinct = rw f tt;
    bounded = omega arith;
    counted = l;
  };
}
  where
    levels : (s : Side) (p : Price) → find_level b s p ≡ none
    levels Side.bid p = rw eb
    levels Side.ask p = rw ea

module _ {b : L3Book} {rs : List ℕ} (k : IsBook b rs) where
  abbrev os : List Resting
  os = map (resting b.orders) rs

  stays : Answers b (b, false) (os, false)
  stays = ((rs, k, refl), refl, omega arith)

  module _ (id : ℕ) (gone : find_ref b.table id ≡ no_order) where
    null : (find_ref b.table id == no_order) ≡ true
    null = (==_iff (find_ref b.table id) no_order).1 gone

    lost : lookup id os ≡ none
    lost = lookup-Lacks b.orders id rs (missing_id k id gone)

    remove_miss : Answers b (L3.remove b id) (spec os (Command.remove id))
    remove_miss =
        rw (lost, (let e : L3.remove b id ≡ (b, false) = unfold L3.remove in rw null in e)) stays

    modify_miss : (q : Qty) → Answers b (L3.modify b id q) (spec os (Command.modify id q))
    modify_miss q =
        rw (lost, (let e : L3.modify b id q ≡ (b, false) = unfold L3.modify in rw null in e)) stays

    execute_miss : (q : Qty) → Answers b (L3.execute b id q) (spec os (Command.execute id q))
    execute_miss q =
        rw (lost, (let e : L3.execute b id q ≡ (b, false) = unfold L3.execute in rw null in e))
          stays

    add_new :
        (s : Side) (p : Price) (q : Qty)
        → b.arena_size < no_order
        → Answers b (L3.add b id s p q) (spec os (Command.add id s p q))
    unfolding L3.add new_order
    add_new s p q room = elim (Bool-cases (is_positive q)) [
      | inr bad ↦ rw bad stays
      | inl good ↦
          rw (good, null, lost)
            (
              (
                _,
                enter-IsBook k room (new_order id s p q) gone refl good,
                sym (enter_view k room (new_order id s p q) gone refl good),
              ),
              refl,
              enter-arena k room (new_order id s p q) gone refl good,
            )
    ]

  module _ (id : ℕ) (there : (find_ref b.table id == no_order) ≡ false) where
    live : find_ref b.table id ≢ no_order
    live h = cc (there, (==_iff (find_ref b.table id) no_order).1 h)

    -- What holds with the order between those before and behind it, holds.
    at_hit :
        (P : List ℕ → Type 0)
        → ((xs ys : List ℕ)
            → IsBook b (xs ++ find_ref b.table id ∷ ys)
            → ((b.orders (find_ref b.table id)).id == id) ≡ true
            → Lacks b.orders id xs
            → Lacks b.orders id ys
            → P (xs ++ find_ref b.table id ∷ ys))
        → P rs
    at_hit P h =
        let (xs, ys, e, own, lx, ly) = hit_id k id live in
        subst P (sym e) (h xs ys (subst (IsBook b) e k) own lx ly)

    remove_live : Answers b (L3.remove b id) (spec os (Command.remove id))
    remove_live =
        at_hit
          (λ zs. Answers b (L3.remove b id) (spec (map (resting b.orders) zs) (Command.remove id)))
          (λ xs ys k' own lx ly. remove_hit xs (find_ref b.table id) ys k' id refl own lx ly)

    modify_live : (q : Qty) → Answers b (L3.modify b id q) (spec os (Command.modify id q))
    modify_live q =
        at_hit
          (λ zs.
            Answers b (L3.modify b id q) (spec (map (resting b.orders) zs) (Command.modify id q)))
          (λ xs ys k' own lx ly. modify_hit xs (find_ref b.table id) ys k' id refl own lx ly q)

    execute_live : (q : Qty) → Answers b (L3.execute b id q) (spec os (Command.execute id q))
    execute_live q =
        at_hit
          (λ zs.
            Answers b (L3.execute b id q) (spec (map (resting b.orders) zs) (Command.execute id q)))
          (λ xs ys k' own lx ly. execute_hit xs (find_ref b.table id) ys k' id refl own lx ly q)

    taken : lookup id os ≡ some (resting b.orders (find_ref b.table id))
    taken =
        at_hit
          (λ zs.
            lookup id (map (resting b.orders) zs) ≡ some (resting b.orders (find_ref b.table id)))
          (λ xs ys k' own lx ly. lookup-middle b.orders id (find_ref b.table id) own xs ys lx)

    add_live :
        (s : Side) (p : Price) (q : Qty)
        → Answers b (L3.add b id s p q) (spec os (Command.add id s p q))
    unfolding L3.add
    add_live s p q = elim (Bool-cases (is_positive q)) [
      | inr bad ↦ rw bad stays
      | inl good ↦ rw (good, there, taken) stays
    ]

  at_id :
      (P : Type 0) (id : ℕ)
      → (find_ref b.table id ≡ no_order → P)
      → ((find_ref b.table id == no_order) ≡ false → P)
      → P
  at_id P id f g = elim (Bool-cases (find_ref b.table id == no_order)) [
    | inl gone ↦ f ((==_iff (find_ref b.table id) no_order).0 gone)
    | inr there ↦ g there
  ]

  cleared : IsBook (L3.clear b) []
  unfolding L3.clear
  cleared =
      blank-IsBook (L3.clear b) (clear_table-IsTable k.on_file.table)
        (find_ref-clear_table k.on_file.table) refl refl refl refl refl

  cleared_arena : (L3.clear b).arena_size ≤ b.arena_size + 1
  unfolding L3.clear
  cleared_arena = omega arith

  step-Answers_at : (c : Command) → b.arena_size < no_order → Answers b (step b c) (spec os c)
  unfolding step
  step-Answers_at (Command.add id s p q) room =
      at_id _ id (λ g. add_new id g s p q room) (λ t. add_live id t s p q)
  step-Answers_at (Command.modify id q) room =
      at_id _ id (λ g. modify_miss id g q) (λ t. modify_live id t q)
  step-Answers_at (Command.remove id) room = at_id _ id (remove_miss id) (remove_live id)
  step-Answers_at (Command.execute id q) room =
      at_id _ id (λ g. execute_miss id g q) (λ t. execute_live id t q)
  step-Answers_at Command.clear room = (([], cleared, refl), refl, cleared_arena)

pub step-Answers :
    (b : L3Book) (rests : List Resting) (c : Command)
    → Represents b rests
    → b.arena_size < no_order
    → Answers b (step b c) (spec rests c)
step-Answers b rests c (rs, k, e) room =
    subst (λ zs. Answers b (step b c) (spec zs c)) (sym e) (step-Answers_at k c room)

pub make-Represents : (n : ℕ) → Represents (L3.make n) []
unfolding L3.make
make-Represents n = (
  [],
  blank-IsBook (L3.make n) (make_table-IsTable n) (find_ref-make_table n) refl refl refl refl refl,
  refl,
)

Fits-spec_run :
    (rests : List Resting) (cs : List Command) → AllFit rests cs → Fits (spec_run rests cs).0
unfolding spec_run
Fits-spec_run rests [] h = h
Fits-spec_run rests (c ∷ cs) h = Fits-spec_run (spec rests c).0 cs h.1

run-Represents_from :
    (b : L3Book) (rests : List Resting) (cs : List Command)
    → Represents b rests
    → b.arena_size + length cs ≤ no_order
    → Represents (run b cs).0 (spec_run rests cs).0 × ((run b cs).1 ≡ (spec_run rests cs).1)
unfolding run spec_run
run-Represents_from b rests [] r room = (r, refl)
run-Represents_from b rests (c ∷ cs) r room =
    let (r', same, arena) = step-Answers b rests c r (omega arith) in
    let (r'', answers) = run-Represents_from (step b c).0 (spec rests c).0 cs r' (omega arith) in
    (r'', ap₂ ◌∷◌ same answers)

-- From a new book, made for any number of orders, let there be at most 2^32 - 1 calls of add, modify,
-- remove, execute and clear, after each of which the quantities that rest at one price have a sum
-- that an int64_t holds. The calls give the answers of the abstract book and leave a book that
-- represents its orders in time priority: the links of every price, the hash table, the arena, the
-- free list and the count of orders; and the level of every price has the sum of the quantities and
-- the number of the orders there, and is gone where there are none.
pub run-Represents :
    (n : ℕ) (cs : List Command)
    → length cs ≤ no_order
    → AllFit [] cs
    → Represents (run (L3.make n) cs).0 (spec_run [] cs).0
      × ((run (L3.make n) cs).1 ≡ (spec_run [] cs).1)
      × ((s : Side) (p : Price)
          → Option.map level_facts (find_level (run (L3.make n) cs).0 s p)
            ≡ aggregate (at_price s p (spec_run [] cs).0))
run-Represents n cs room fit =
    let (r, answers) =
      run-Represents_from (L3.make n) [] cs (make-Represents n) (omega (arith, room_made)) in
    (
      r,
      answers,
      λ s p.
          find_level-Represents (run (L3.make n) cs).0 (spec_run [] cs).0 s p r
            (Fits-spec_run [] cs fit),
    )
  where
    room_made : (L3.make n).arena_size ≡ 0
    room_made = unfold L3.make in refl
