-- ===== src/L3/Queues.antt =====
-- The queues of an order-by-order book. The live references in the order in which they were queued
-- determine the queue of each price, and with it what l3.hpp keeps: the links and the level.
use crossbook.Common.{ℕ, ◌≡◌, refl, sym, ap, ap₂, ◌∙◌, arith, All, length}
use crossbook.Common.{Bool, true, false, inl, inr, Bool-cases, if◌then◌else◌, ◌==◌}
use crossbook.Common.{List, [], ◌∷◌, ◌++◌, Option, none, some}
use crossbook.Common.Int.{to_int64, pos, ◌+ℤ◌, +ℤ_parts, eq_of_parts}
use crossbook.Types.{Side, bid, ask, Price, Qty}
use crossbook.Book.Ladder.{eq_of_eq_ℤ, eq_ℤ-refl}
use crossbook.L3.Table.{no_order}
use crossbook.L3.{Order, L3Level, L3Book, find_level, or_blank}
use crossbook.L3.Links.{first, last, Linked, IsFresh, IsDistinct}
use crossbook.L3.Entries.{is_at, same_side}

abbrev pub select : (ℕ → Bool) → List ℕ → List ℕ
select f [] = []
select f (r ∷ rs) = let rest = select f rs in if f r then r ∷ rest else rest

abbrev pub in_queue : (ℕ → Order) → Side → Price → ℕ → Bool
in_queue orders s p r = is_at (orders r).side (orders r).price s p

-- The queue of a price, front first.
unfoldable pub queue : (ℕ → Order) → Side → Price → List ℕ → List ℕ
queue orders s p = select (in_queue orders s p)

unfoldable pub total : (ℕ → Order) → List ℕ → Qty
total orders [] = pos 0
total orders (r ∷ rs) = (orders r).qty +ℤ total orders rs

unfoldable pub summary : (ℕ → Order) → List ℕ → L3Level
summary orders rs = record {
  qty = to_int64 (total orders rs);
  orders = length rs;
  head = first rs no_order;
  tail = last no_order rs;
}

-- The level that belongs to a queue: none where it is empty.
unfoldable pub expected : (ℕ → Order) → List ℕ → Option L3Level
expected orders [] = none
expected orders (r ∷ rs) = some (summary orders (r ∷ rs))

pub record IsQueued (b : L3Book) (rs : List ℕ) : Type 0 where
  pub links :
      (s : Side) (p : Price)
      → Linked
          (λ r. (b.orders r).prev)
          (λ r. (b.orders r).next)
          no_order
          (queue b.orders s p rs)
          no_order
  pub levels : (s : Side) (p : Price) → find_level b s p ≡ expected b.orders (queue b.orders s p rs)
  pub distinct : IsDistinct rs
  pub nulls : IsFresh no_order rs

module _ (f : ℕ → Bool) where
  pub select-append : (xs ys : List ℕ) → select f (xs ++ ys) ≡ select f xs ++ select f ys
  select-append [] ys = refl
  select-append (x ∷ xs) ys = elim (Bool-cases (f x)) [
    | inl e ↦ rw e (ap (◌∷◌ x) (select-append xs ys))
    | inr e ↦ rw e (select-append xs ys)
  ]

  pub select-same :
      (g : ℕ → Bool) (rs : List ℕ) → All (λ r. g r ≡ f r) rs → select g rs ≡ select f rs
  select-same g [] h = refl
  select-same g (r ∷ rs) (e, h) = rw (e, select-same g rs h)

  pub All-select : (P : ℕ → Type 0) (rs : List ℕ) → All P rs → All P (select f rs)
  All-select P [] h = tt
  All-select P (r ∷ rs) (p, h) = elim (Bool-cases (f r)) [
    | inl e ↦ rw e (p, All-select P rs h)
    | inr e ↦ rw e (All-select P rs h)
  ]

  pub select-All : (rs : List ℕ) → All (λ r. f r ≡ true) (select f rs)
  select-All [] = tt
  select-All (r ∷ rs) = elim (Bool-cases (f r)) [
    | inl e ↦ rw e (e, select-All rs)
    | inr e ↦ rw e (select-All rs)
  ]

  pub IsDistinct-select : (rs : List ℕ) → IsDistinct rs → IsDistinct (select f rs)
  IsDistinct-select [] h = tt
  IsDistinct-select (r ∷ rs) (e, h) = elim (Bool-cases (f r)) [
    | inl t ↦ rw t (All-select (λ x. (r == x) ≡ false) rs e, IsDistinct-select rs h)
    | inr t ↦ rw t (IsDistinct-select rs h)
  ]

pub is_at_refl : (s : Side) (p : Price) → is_at s p s p ≡ true
unfolding same_side
is_at_refl bid p = eq_ℤ-refl p
is_at_refl ask p = eq_ℤ-refl p

pub is_at-eq :
    (s : Side) (p : Price) (s' : Side) (p' : Price) → is_at s p s' p' ≡ true → (s ≡ s') × (p ≡ p')
unfolding same_side
is_at-eq bid p bid p' h = (refl, eq_of_eq_ℤ p p' h)
is_at-eq ask p ask p' h = (refl, eq_of_eq_ℤ p p' h)
is_at-eq bid p ask p' h = cc h
is_at-eq ask p bid p' h = cc h

pub +ℤ_assoc : (a b c : Qty) → (a +ℤ b) +ℤ c ≡ a +ℤ (b +ℤ c)
+ℤ_assoc a b c = eq_of_parts ((a +ℤ b) +ℤ c) (a +ℤ (b +ℤ c)) (omega (arith, +ℤ_parts))

pub +ℤ_zero : (a : Qty) → a +ℤ pos 0 ≡ a
+ℤ_zero a = eq_of_parts (a +ℤ pos 0) a (omega (arith, +ℤ_parts))

pub zero-+ℤ : (a : Qty) → pos 0 +ℤ a ≡ a
zero-+ℤ a = eq_of_parts (pos 0 +ℤ a) a (omega (arith, +ℤ_parts))

module _ (orders : ℕ → Order) where
  pub total-append : (xs ys : List ℕ) → total orders (xs ++ ys) ≡ total orders xs +ℤ total orders ys
  unfolding total
  total-append [] ys = sym (zero-+ℤ (total orders ys))
  total-append (x ∷ xs) ys =
      ap (◌+ℤ◌ (orders x).qty) (total-append xs ys)
      ∙ sym (+ℤ_assoc (orders x).qty (total orders xs) (total orders ys))

  pub total-same :
      (orders' : ℕ → Order) (rs : List ℕ)
      → All (λ r. (orders' r).qty ≡ (orders r).qty) rs
      → total orders' rs ≡ total orders rs
  unfolding total
  total-same orders' [] h = refl
  total-same orders' (r ∷ rs) (e, h) = ap₂ ◌+ℤ◌ e (total-same orders' rs h)

  pub expected-same :
      (orders' : ℕ → Order) (rs : List ℕ)
      → All (λ r. (orders' r).qty ≡ (orders r).qty) rs
      → expected orders' rs ≡ expected orders rs
  unfolding expected summary
  expected-same orders' [] h = refl
  expected-same orders' (r ∷ rs) h =
      ap
        (λ q.
          some (record { qty = to_int64 q; orders = length (r ∷ rs); head = r; tail = last r rs }))
        (total-same orders' (r ∷ rs) h)

  pub or_blank-expected : (rs : List ℕ) → or_blank (expected orders rs) ≡ summary orders rs
  unfolding expected summary total to_int64
  or_blank-expected [] = refl
  or_blank-expected (r ∷ rs) = refl

  -- A null link stands exactly at the ends of a queue.
  pub last-null :
      (rs : List ℕ) → IsFresh no_order rs → (last no_order rs == no_order) ≡ true → rs ≡ []
  last-null [] h e = refl
  last-null (r ∷ rs) h e = cc (null_free r rs h, e)
    where
      null_free :
          (r : ℕ) (rs : List ℕ) → IsFresh no_order (r ∷ rs) → (last r rs == no_order) ≡ false
      null_free r [] (h, _) = ground arith
      null_free r (x ∷ xs) (_, h) = null_free x xs h
