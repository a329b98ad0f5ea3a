-- ===== src/L3/Resize.antt =====
-- A live order of l3.hpp takes a new quantity in place, and its level with it.
use crossbook.Common.{ℕ, ◌+◌, ◌≤◌, ◌<◌, ◌≡◌, refl, sym, ap, ap₂, ◌∙◌, arith, All, All-append}
use crossbook.Common.{true, false, inl, inr, Bool-cases, if◌then◌else◌, ◌==◌, ==_iff}
use crossbook.Common.{List, ◌∷◌, ◌++◌, some}
use crossbook.Common.Int.{to_int64, to_int64-left, -ℤ_parts, ◌-ℤ◌, ◌+ℤ◌, +ℤ_parts, eq_of_parts}
use crossbook.Types.{Side, Price, Qty}
use crossbook.L3.Table.{no_order}
use crossbook.L3.{
  Order, L3Level, L3Book, is_positive, find_level, level_for, set_level, resize, or_blank,
}
use crossbook.L3.Links.{Linked-frame, IsFresh, All-imp, All-and, All-split, IsDistinct-without}
use crossbook.L3.Entries.{is_at, find_level-set_level}
use crossbook.L3.Queues.{
  queue, in_queue, IsQueued, expected, summary, select-All, All-select, total, total-append,
  total-same, is_at_refl, is_at-eq, expected-same,
}
use crossbook.L3.LinkBack.{SameButQueues, everywhere, apart, queue-same}
use crossbook.L3.Leave.{whole_own}
use crossbook.L3.Summary.{expected_middle}
use crossbook.L3.Valid.{IsBook, resting}
use crossbook.L3.Requeue.{IsFiled-frame}

abbrev SameButQty : Order → Order → Type 0
SameButQty a o =
    (a.id ≡ o.id)
    × (a.price ≡ o.price)
    × (a.side ≡ o.side)
    × (a.prev ≡ o.prev)
    × (a.next ≡ o.next)
    × (a.live ≡ o.live)

-- What the level gains, the order gains.
new_total :
    (l lq old q t a c : Qty)
    → lq ≡ to_int64 (l +ℤ (q -ℤ old))
    → l ≡ to_int64 t
    → t ≡ a +ℤ (old +ℤ c)
    → lq ≡ to_int64 (a +ℤ (q +ℤ c))
new_total l lq old q t a c e h split =
    e
    ∙ ap (λ z. to_int64 (z +ℤ (q -ℤ old))) h
    ∙ to_int64-left t (q -ℤ old)
    ∙ ap to_int64 (
        ap (λ z. z +ℤ (q -ℤ old)) split
        ∙ eq_of_parts (a +ℤ (old +ℤ c) +ℤ (q -ℤ old)) (a +ℤ (q +ℤ c))
            (omega (arith, +ℤ_parts, -ℤ_parts)))

module _ {b : L3Book} (xs : List ℕ) (r : ℕ) (ys : List ℕ) (k : IsBook b (xs ++ r ∷ ys)) (lq q : Qty)
    (some_qty : is_positive q ≡ true)
    (balance : lq
      ≡ to_int64
          ((level_for b (b.orders r).side (b.orders r).price).qty +ℤ (q -ℤ (b.orders r).qty))) where
  abbrev rs : List ℕ
  rs = xs ++ r ∷ ys

  abbrev o : Order
  o = b.orders r

  abbrev c : L3Book
  c = resize b r lq q

  abbrev front : List ℕ
  front = queue b.orders o.side o.price xs

  abbrev back : List ℕ
  back = queue b.orders o.side o.price ys

  same : (j : ℕ) → SameButQty (c.orders j) (b.orders j)
  unfolding resize
  same j = ground arith

  at_r : (c.orders r).qty ≡ q
  unfolding resize
  at_r = rw ((==_iff r r).1 refl)

  qty_same : (j : ℕ) → (r == j) ≡ false → (c.orders j).qty ≡ (b.orders j).qty
  unfolding resize
  qty_same j h = rw h

  queue_same : (s : Side) (p : Price) → queue c.orders s p rs ≡ queue b.orders s p rs
  queue_same s p =
      queue-same b.orders c.orders s p rs (everywhere _ rs (λ j. ((same j).2, (same j).1)))

  level_own : level_for b o.side o.price ≡ summary b.orders (front ++ r ∷ back)
  unfolding level_for
  level_own = ap or_blank (
      k.queued.levels o.side o.price
      ∙ ap (expected b.orders) (whole_own r xs ys k.queued)
      ∙ expected_middle b.orders front r back)

  -- The order stands once in its queue.
  around : IsFresh r (front ++ back)
  unfolding queue
  around =
      let (fx, fy) = All-split _ xs ys (IsDistinct-without xs r ys k.queued.distinct).1 in
      All-append _ front back (All-select (in_queue b.orders o.side o.price) _ xs fx)
        (All-select (in_queue b.orders o.side o.price) _ ys fy)

  total_same : (zs : List ℕ) → IsFresh r zs → total c.orders zs ≡ total b.orders zs
  total_same zs f =
      total-same b.orders c.orders zs (All-imp (λ j. (r == j) ≡ false) _ zs qty_same f)

  total_new : lq ≡ to_int64 (total c.orders (front ++ r ∷ back))
  unfolding total summary
  total_new =
      let (ff, fb) = All-split _ front back around in
      new_total (level_for b o.side o.price).qty lq o.qty q (total b.orders (front ++ r ∷ back))
        (total b.orders front) (total b.orders back) balance (ap (λ (l : L3Level). l.qty) level_own)
        (total-append b.orders front (r ∷ back))
      ∙ ap to_int64 (
          sym (
            total-append c.orders front (r ∷ back)
            ∙ ap₂ ◌+ℤ◌ (total_same front ff) (ap₂ ◌+ℤ◌ at_r (total_same back fb))))

  level_new :
      record (level_for b o.side o.price) { qty = lq } ≡ summary c.orders (front ++ r ∷ back)
  unfolding summary
  level_new = ap (λ (l : L3Level). record l { qty = lq }) level_own ∙ λ i.
      record (summary b.orders (front ++ r ∷ back)) { qty = total_new i }

  c_level :
      (s : Side) (p : Price)
      → find_level c s p ≡ (
          if is_at o.side o.price s p
          then some (record (level_for b o.side o.price) { qty = lq })
          else find_level b s p)
  unfolding resize find_level
  c_level s p =
      find_level-set_level b o.side o.price (record (level_for b o.side o.price) { qty = lq }) s p

  strangers :
      (s : Side) (p : Price) → is_at o.side o.price s p ≡ false → IsFresh r (queue b.orders s p rs)
  unfolding queue
  strangers s p other =
      All-imp (λ x. in_queue b.orders s p x ≡ true) _ (queue b.orders s p rs)
        (λ x e. apart b.orders o.side o.price s p r x other (is_at_refl o.side o.price) e)
        (select-All (in_queue b.orders s p) rs)

  c_levels : (s : Side) (p : Price) → find_level c s p ≡ expected c.orders (queue c.orders s p rs)
  c_levels s p = elim (Bool-cases (is_at o.side o.price s p)) [
    | inr other ↦
        c_level s p
        ∙ rw (other, queue_same s p)
            (k.queued.levels s p
              ∙ sym (
                  expected-same b.orders c.orders (queue b.orders s p rs) (
                    All-imp (λ j. (r == j) ≡ false) _ (queue b.orders s p rs) qty_same
                      (strangers s p other))))
    | inl here ↦
        let (es, ep) = is_at-eq o.side o.price s p here in
        c_level s p
        ∙ rw
            (
              here,
              queue_same s p,
              sym es,
              sym ep,
              whole_own r xs ys k.queued,
              expected_middle c.orders front r back,
            )
            (ap some level_new)
  ]

  c-IsQueued : IsQueued c rs
  c-IsQueued = record {
    links = λ s p. rw (queue_same s p) (
        Linked-frame (λ j. (b.orders j).prev) (λ j. (b.orders j).next) (λ j. (c.orders j).prev)
          (λ j. (c.orders j).next) no_order (queue b.orders s p rs) no_order
          (everywhere _ (queue b.orders s p rs) (λ j. ((same j).3, (same j).4)))
          (k.queued.links s p));
    levels = c_levels;
    distinct = k.queued.distinct;
    nulls = k.queued.nulls;
  }

  kept : SameButQueues c b
  unfolding resize set_level
  kept = (refl, refl, refl, refl)

  positive : All (λ j. is_positive (c.orders j).qty ≡ true) rs
  positive =
      let (px, py) = All-split _ xs (r ∷ ys) k.on_file.alive in
      let (fx, fy) = All-split _ xs ys (IsDistinct-without xs r ys k.queued.distinct).1 in
      All-append _ xs (r ∷ ys) (those xs px fx) (ap is_positive at_r ∙ some_qty, those ys py.1 fy)
    where
      those :
          (zs : List ℕ)
          → All
              (λ x.
                ((b.orders x).live ≡ true)
                × (is_positive (b.orders x).qty ≡ true)
                × (x < b.arena_size))
              zs
          → IsFresh r zs
          → All (λ j. is_positive (c.orders j).qty ≡ true) zs
      those zs p f =
          All-imp
            (λ x.
              (((b.orders x).live ≡ true)
                × (is_positive (b.orders x).qty ≡ true)
                × (x < b.arena_size))
              × ((r == x) ≡ false))
            _ zs (λ x h. ap is_positive (qty_same x h.1) ∙ h.0.1)
            (All-and _ (λ x. (r == x) ≡ false) zs p f)

  pub resize-IsBook : IsBook (resize b r lq q) (xs ++ r ∷ ys)
  resize-IsBook = record {
    queued = c-IsQueued;
    on_file =
        IsFiled-frame k.on_file kept
          (All-and _ _ rs (everywhere _ rs (λ j. ((same j).0, (same j).5))) positive);
  }

  pub resize_at_r : resting c.orders r ≡ record (resting b.orders r) { qty = q }
  resize_at_r =
      λ i. record { id = (same r).0 i; side = (same r).2 i; price = (same r).1 i; qty = at_r i }

  resting_same :
      (zs : List ℕ) → IsFresh r zs → All (λ j. resting c.orders j ≡ resting b.orders j) zs
  resting_same zs f =
      All-imp (λ j. (r == j) ≡ false) _ zs
        (λ j h i. record {
          id = (same j).0 i;
          side = (same j).2 i;
          price = (same j).1 i;
          qty = qty_same j h i;
        })
        f

  pub resize_rest :
      All (λ j. resting c.orders j ≡ resting b.orders j) xs
      × All (λ j. resting c.orders j ≡ resting b.orders j) ys
  resize_rest =
      let (fx, fy) = All-split _ xs ys (IsDistinct-without xs r ys k.queued.distinct).1 in
      (resting_same xs fx, resting_same ys fy)

  pub resize-arena : c.arena_size ≤ b.arena_size + 1
  resize-arena = omega (arith, kept.1)
