-- ===== src/L3/Leave.antt =====
-- `unlink` of l3.hpp on the whole book: the order leaves its queue and its level, and the level leaves
-- the map with its last order.
use crossbook.Common.{
  ℕ, ◌≡◌, sym, ap, ◌∙◌, arith, All, subst, true, false, inl, inr, Bool-cases, if◌then◌else◌, ◌==◌,
  List, [], ◌∷◌, ◌++◌, none, some, All-append,
}
use crossbook.Types.{Side, Price}
use crossbook.L3.Table.{no_order}
use crossbook.L3.{Order, L3Level, L3Book, find_level, put_level, unlink, detach, removed}
use crossbook.L3.Links.{
  Linked, IsFresh, IsDistinct, All-imp, All-and, All-split, Linked-frame, IsDistinct-without,
}
use crossbook.L3.Entries.{is_at}
use crossbook.L3.Queues.{
  queue, in_queue, IsQueued, expected, summary, select-append, All-select, select-All,
  IsDistinct-select, is_at_refl, is_at-eq, expected-same,
}
use crossbook.L3.LinkBack.{SameButLinks, SameButQueues, everywhere, apart, queue-same}
use crossbook.L3.Unlink.{
  detach_rest, detach_kept, put_level_kept, detach_levels, put_levels, unlink_found,
  put_level-orders, leads-last, leads-first, prev_r, next_r, links_kept, detached,
}
use crossbook.L3.Summary.{expected_middle, removed-summary}

module _ {b : L3Book} (r : ℕ) (xs ys : List ℕ) (v : IsQueued b (xs ++ r ∷ ys)) where
  abbrev o : Order
  o = b.orders r

  abbrev front : List ℕ
  front = queue b.orders o.side o.price xs

  abbrev back : List ℕ
  back = queue b.orders o.side o.price ys

  rest_queue :
      (s : Side) (p : Price)
      → queue b.orders s p (xs ++ ys) ≡ queue b.orders s p xs ++ queue b.orders s p ys
  unfolding queue
  rest_queue s p = select-append (in_queue b.orders s p) xs ys

  pub whole_own : queue b.orders o.side o.price (xs ++ r ∷ ys) ≡ front ++ r ∷ back
  unfolding queue
  whole_own =
      select-append (in_queue b.orders o.side o.price) xs (r ∷ ys) ∙ rw (is_at_refl o.side o.price)

  whole_other :
      (s : Side) (p : Price)
      → is_at o.side o.price s p ≡ false
      → queue b.orders s p (xs ++ r ∷ ys) ≡ queue b.orders s p (xs ++ ys)
  unfolding queue
  whole_other s p other =
      select-append (in_queue b.orders s p) xs (r ∷ ys)
      ∙ rw other (sym (select-append (in_queue b.orders s p) xs ys))

  own_distinct : IsDistinct (front ++ r ∷ back)
  unfolding queue
  own_distinct =
      subst IsDistinct whole_own
        (IsDistinct-select (in_queue b.orders o.side o.price) (xs ++ r ∷ ys) v.distinct)

  own_nulls : IsFresh no_order (front ++ r ∷ back)
  unfolding queue
  own_nulls =
      subst (IsFresh no_order) whole_own
        (All-select (in_queue b.orders o.side o.price) _ (xs ++ r ∷ ys) v.nulls)

  own-Linked :
      Linked (λ j. (b.orders j).prev) (λ j. (b.orders j).next) no_order (front ++ r ∷ back) no_order
  own-Linked =
      subst (λ q. Linked (λ j. (b.orders j).prev) (λ j. (b.orders j).next) no_order q no_order)
        whole_own (v.links o.side o.price)

  abbrev left : L3Level
  left = removed (summary b.orders (front ++ r ∷ back)) o

  unlink_eq : unlink b r ≡ put_level (detach b r) o.side o.price left
  unlink_eq = unlink_found b r (summary b.orders (front ++ r ∷ back)) (
      v.levels o.side o.price
      ∙ ap (expected b.orders) whole_own
      ∙ expected_middle b.orders front r back)

  abbrev d : L3Book
  d = detach b r

  queue_d : (s : Side) (p : Price) (rs : List ℕ) → queue d.orders s p rs ≡ queue b.orders s p rs
  queue_d s p rs =
      queue-same b.orders d.orders s p rs
        (All-imp _ _ rs (λ j h. (h.3, h.1)) (everywhere _ rs (detach_rest b r)))

  without : IsDistinct (xs ++ ys) × IsFresh r (xs ++ ys)
  without = IsDistinct-without xs r ys v.distinct

  other_law :
      (s : Side) (p : Price)
      → is_at o.side o.price s p ≡ false
      → (x : ℕ) → ((r == x) ≡ false) × (in_queue b.orders s p x ≡ true)
      → ((d.orders x).prev ≡ (b.orders x).prev) × ((d.orders x).next ≡ (b.orders x).next)
  unfolding queue
  other_law s p other x (f, at_p) =
      links_kept b r front back own-Linked own_distinct own_nulls x f
        (leads-last front x (strangers xs)) (leads-first back x (strangers ys))
    where
      strangers : (zs : List ℕ) → All (λ y. (y == x) ≡ false) (queue b.orders o.side o.price zs)
      strangers zs =
          All-imp (λ y. in_queue b.orders o.side o.price y ≡ true) _
            (queue b.orders o.side o.price zs)
            (λ y e. apart b.orders o.side o.price s p y x other e at_p)
            (select-All (in_queue b.orders o.side o.price) zs)

  other-All :
      (s : Side) (p : Price)
      → All
          (λ x. ((r == x) ≡ false) × (in_queue b.orders s p x ≡ true))
          (queue b.orders s p (xs ++ ys))
  unfolding queue
  other-All s p =
      let f = in_queue b.orders s p in
      All-and (λ x. (r == x) ≡ false) (λ x. f x ≡ true) (queue b.orders s p (xs ++ ys))
        (All-select f _ (xs ++ ys) without.1) (select-All f (xs ++ ys))

  detach-links :
      (s : Side) (p : Price)
      → Linked
          (λ j. (d.orders j).prev)
          (λ j. (d.orders j).next)
          no_order
          (queue d.orders s p (xs ++ ys))
          no_order
  detach-links s p = elim (Bool-cases (is_at o.side o.price s p)) [
    | inr other ↦ rw (queue_d s p (xs ++ ys)) (
        Linked-frame (λ j. (b.orders j).prev) (λ j. (b.orders j).next) (λ j. (d.orders j).prev)
          (λ j. (d.orders j).next) no_order (queue b.orders s p (xs ++ ys)) no_order
          (All-imp (λ x. ((r == x) ≡ false) × (in_queue b.orders s p x ≡ true)) _
            (queue b.orders s p (xs ++ ys)) (other_law s p other) (other-All s p))
          (subst (λ q. Linked (λ j. (b.orders j).prev) (λ j. (b.orders j).next) no_order q no_order)
            (whole_other s p other) (v.links s p)))
    | inl here ↦
        let (es, ep) = is_at-eq o.side o.price s p here in
        rw (queue_d s p (xs ++ ys), rest_queue s p, sym es, sym ep)
          (detached b r front back own-Linked own_distinct own_nulls)
  ]

  level_of :
      (q : List ℕ) (l : L3Level)
      → l ≡ summary d.orders q
      → (if l.orders == 0 then none else some l) ≡ expected d.orders q
  unfolding expected summary
  level_of [] l e = rw e
  level_of (x ∷ q) l e = rw e (ground arith)

  left_eq : left ≡ summary d.orders (front ++ back)
  left_eq =
      removed-summary b.orders d.orders front r back
        (prev_r b r front back own-Linked own_distinct own_nulls)
        (next_r b r front back own-Linked own_distinct own_nulls) own_nulls
        (λ x. (detach_rest b r x).2)

  unlink-levels :
      (s : Side) (p : Price)
      → find_level (put_level d o.side o.price left) s p
        ≡ expected d.orders (queue d.orders s p (xs ++ ys))
  unlink-levels s p = elim (Bool-cases (is_at o.side o.price s p)) [
    | inr other ↦
        rw
          (
            put_levels b r d left o.side o.price s p,
            other,
            queue_d s p (xs ++ ys),
            detach_levels b r s p,
          )
          (v.levels s p
            ∙ ap (expected b.orders) (whole_other s p other)
            ∙ sym (
                expected-same b.orders d.orders (queue b.orders s p (xs ++ ys))
                  (everywhere _ _ (λ x. (detach_rest b r x).2))))
    | inl here ↦
        let (es, ep) = is_at-eq o.side o.price s p here in
        rw
          (
            put_levels b r d left o.side o.price s p,
            here,
            queue_d s p (xs ++ ys),
            rest_queue s p,
            sym es,
            sym ep,
          )
          (level_of (front ++ back) left left_eq)
  ]

  pub unlink-IsQueued : IsQueued (unlink b r) (xs ++ ys)
  unlink-IsQueued =
      subst (λ c. IsQueued c (xs ++ ys)) (sym unlink_eq)
        (record {
          links = λ s p. rw (put_level-orders b r d o.side o.price left) (detach-links s p);
          levels = λ s p.
              unlink-levels s p
              ∙ sym (
                  ap (λ o'. expected o' (queue o' s p (xs ++ ys)))
                    (put_level-orders b r d o.side o.price left));
          distinct = without.0;
          nulls =
              let (nx, ny) = All-split (λ x. (no_order == x) ≡ false) xs (r ∷ ys) v.nulls in
              All-append (λ x. (no_order == x) ≡ false) xs ys nx ny.1;
        })

  pub unlink_rest : (j : ℕ) → SameButLinks ((unlink b r).orders j) (b.orders j)
  unlink_rest j = rw (unlink_eq, put_level-orders b r d o.side o.price left) (detach_rest b r j)

  pub unlink_kept : SameButQueues (unlink b r) b
  unlink_kept =
      subst (λ c. SameButQueues c b) (sym unlink_eq)
        (let (t, a, f, l) = put_level_kept b r d o.side o.price left in
          let (t', a', f', l') = detach_kept b r in (t ∙ t', a ∙ a', f ∙ f', l ∙ l'))
