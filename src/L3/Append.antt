-- ===== src/L3/Append.antt =====
-- `link_back` of l3.hpp on the whole book: it appends an order to the queue of its price.
use crossbook.Common.{
  ℕ, ◌≡◌, refl, sym, ap, ◌∙◌, arith, All, true, false, not, ◌&&◌, inl, inr, Bool-cases,
  if◌then◌else◌, ◌==◌, ==_iff, List, [], ◌∷◌, ◌++◌, append-nil, All-append,
}
use crossbook.Types.{Side, Price}
use crossbook.L3.Table.{no_order}
use crossbook.L3.{Order, L3Level, L3Book, find_level, level_for, link_back, or_blank}
use crossbook.L3.Links.{
  last, Linked, IsFresh, IsDistinct, All-imp, Linked-join, Linked-frame, Linked-retarget,
  IsDistinct-snoc, All-and,
}
use crossbook.L3.Entries.{is_at}
use crossbook.L3.Queues.{
  queue, in_queue, IsQueued, expected, summary, select-append, All-select, select-All,
  IsDistinct-select, is_at-eq, or_blank-expected, expected-same,
}
use crossbook.L3.LinkBack.{
  SameButLinks, link_back_rest, link_back_prev, link_back_next, link_back_level, everywhere,
  last_cases, apart, queue-same,
}
use crossbook.L3.Summary.{expected-snoc, appended-summary}

module _ {b : L3Book} {rs : List ℕ} (v : IsQueued b rs) (r : ℕ) (fresh : IsFresh r rs)
    (real : (no_order == r) ≡ false) where
  abbrev o : Order
  o = b.orders r

  abbrev b' : L3Book
  b' = link_back b r

  abbrev own : List ℕ
  own = queue b.orders o.side o.price rs

  own-All : (P : ℕ → Type 0) → All P rs → All P own
  unfolding queue
  own-All P h = All-select (in_queue b.orders o.side o.price) P rs h

  level_own : level_for b o.side o.price ≡ summary b.orders own
  unfolding level_for
  level_own = ap or_blank (v.levels o.side o.price) ∙ or_blank-expected b.orders own

  tail_own : (level_for b o.side o.price).tail ≡ last no_order own
  unfolding summary
  tail_own = ap (λ (l : L3Level). l.tail) level_own

  same_everywhere : (xs : List ℕ) → All (λ j. SameButLinks (b'.orders j) (b.orders j)) xs
  same_everywhere xs = everywhere _ xs (link_back_rest b r)

  queue_linked :
      (s : Side) (p : Price)
      → queue b'.orders s p (rs ++ r ∷ [])
        ≡ queue b.orders s p rs ++ (if in_queue b.orders s p r then r ∷ [] else [])
  unfolding queue
  queue_linked s p =
      queue-same b.orders b'.orders s p (rs ++ r ∷ [])
        (All-imp _ _ (rs ++ r ∷ []) (λ j h. (h.3, h.1)) (same_everywhere (rs ++ r ∷ [])))
      ∙ select-append (in_queue b.orders s p) rs (r ∷ [])

  -- The tail that is linked on is not the new order.
  tail_fresh : (not (last no_order own == no_order) && last no_order own == r) ≡ false
  tail_fresh = elim (last_cases (λ x. (r == x) ≡ false) no_order own (own-All _ fresh)) [
    | inl none_there ↦ rw none_there
    | inr other ↦ ground (arith, other)
  ]

  own_law :
      (x : ℕ)
      → ((r == x) ≡ false) × ((no_order == x) ≡ false)
      → ((b'.orders x).prev ≡ (b.orders x).prev)
        × ((b'.orders x).next ≡ (if last no_order own == x then r else (b.orders x).next))
  own_law x (f, n) = (
    rw f at (link_back_prev b r x),
    rw (f, tail_own) at (link_back_next b r x)
        ∙ ap (λ c. if c then r else (b.orders x).next) (tested (last no_order own)),
  )
    where
      tested : (t : ℕ) → (not (t == no_order) && t == x) ≡ (t == x)
      tested t = ground (arith, n)

  own_distinct : IsDistinct own
  unfolding queue
  own_distinct = IsDistinct-select (in_queue b.orders o.side o.price) rs v.distinct

  links_own :
      Linked (λ j. (b'.orders j).prev) (λ j. (b'.orders j).next) no_order (own ++ r ∷ []) no_order
  links_own =
      Linked-join (λ j. (b'.orders j).prev) (λ j. (b'.orders j).next) no_order own (r ∷ []) no_order
        (Linked-retarget (λ j. (b.orders j).prev) (λ j. (b.orders j).next) (λ j. (b'.orders j).prev)
          (λ j. (b'.orders j).next) no_order own no_order r own_distinct
          (All-imp (λ x. ((r == x) ≡ false) × ((no_order == x) ≡ false)) _ own own_law
            (All-and (λ x. (r == x) ≡ false) (λ x. (no_order == x) ≡ false) own (own-All _ fresh)
              (own-All _ v.nulls)))
          (v.links o.side o.price))
        (
          rw ((==_iff r r).1 refl) at (link_back_prev b r r) ∙ tail_own,
          rw (tail_own, tail_fresh, (==_iff r r).1 refl) at (link_back_next b r r),
          tt,
        )

  module _ (s : Side) (p : Price) (other : is_at o.side o.price s p ≡ false) where
    abbrev theirs : List ℕ
    theirs = queue b.orders s p rs

    their_law :
        (x : ℕ)
        → ((r == x) ≡ false) × ((no_order == x) ≡ false) × (in_queue b.orders s p x ≡ true)
        → ((b'.orders x).prev ≡ (b.orders x).prev) × ((b'.orders x).next ≡ (b.orders x).next)
    unfolding queue
    their_law x (f, n, at_p) =
        (rw f at (link_back_prev b r x), rw (f, tail_own, not_tail) at (link_back_next b r x))
      where
        not_tail : (not (last no_order own == no_order) && last no_order own == x) ≡ false
        not_tail =
            elim (last_cases (λ y. in_queue b.orders o.side o.price y ≡ true) no_order own
              (select-All (in_queue b.orders o.side o.price) rs)) [
                | inl none_there ↦ rw none_there
                | inr y ↦
                    ground
                      (arith, apart b.orders o.side o.price s p (last no_order own) x other y at_p)
              ]

    theirs-All :
        All
          (λ x. ((r == x) ≡ false) × ((no_order == x) ≡ false) × (in_queue b.orders s p x ≡ true))
          theirs
    unfolding queue
    theirs-All =
        let f = in_queue b.orders s p in
        All-imp (λ x. ((r == x) ≡ false) × (((no_order == x) ≡ false) × (f x ≡ true))) _ theirs
          (λ x h. (h.0, h.1.0, h.1.1))
          (All-and (λ x. (r == x) ≡ false) (λ x. ((no_order == x) ≡ false) × (f x ≡ true)) theirs
            (All-select f _ rs fresh)
            (All-and (λ x. (no_order == x) ≡ false) (λ x. f x ≡ true) theirs
              (All-select f _ rs v.nulls) (select-All f rs)))

    links_theirs :
        Linked (λ j. (b'.orders j).prev) (λ j. (b'.orders j).next) no_order theirs no_order
    links_theirs =
        Linked-frame (λ j. (b.orders j).prev) (λ j. (b.orders j).next) (λ j. (b'.orders j).prev)
          (λ j. (b'.orders j).next) no_order theirs no_order
          (All-imp
            (λ x. ((r == x) ≡ false) × ((no_order == x) ≡ false) × (in_queue b.orders s p x ≡ true))
            _ theirs their_law theirs-All)
          (v.links s p)

  own_level : (xs : List ℕ) → All (λ j. (b'.orders j).qty ≡ (b.orders j).qty) xs
  own_level xs = All-imp _ _ xs (λ j h. h.2) (same_everywhere xs)

  link_back-links :
      (s : Side) (p : Price)
      → Linked
          (λ j. (b'.orders j).prev)
          (λ j. (b'.orders j).next)
          no_order
          (queue b'.orders s p (rs ++ r ∷ []))
          no_order
  link_back-links s p = elim (Bool-cases (is_at o.side o.price s p)) [
    | inr other ↦ rw (queue_linked s p, other, append-nil) (links_theirs s p other)
    | inl here ↦
        let (es, ep) = is_at-eq o.side o.price s p here in
        rw (queue_linked s p, here, sym es, sym ep) links_own
  ]

  link_back-levels :
      (s : Side) (p : Price)
      → find_level b' s p ≡ expected b'.orders (queue b'.orders s p (rs ++ r ∷ []))
  link_back-levels s p = elim (Bool-cases (is_at o.side o.price s p)) [
    | inr other ↦
        rw (queue_linked s p, other, append-nil, link_back_level b r s p, other)
          (v.levels s p
            ∙ sym (
                expected-same b.orders b'.orders (queue b.orders s p rs)
                  (own_level (queue b.orders s p rs))))
    | inl here ↦
        let (es, ep) = is_at-eq o.side o.price s p here in
        rw (
          queue_linked s p,
          link_back_level b r s p,
          here,
          sym es,
          sym ep,
          expected-snoc b'.orders own r,
          level_own,
          appended-summary b.orders b'.orders own r (own_level (own ++ r ∷ [])) (own-All _ v.nulls),
        )
  ]

  pub link_back-IsQueued : IsQueued (link_back b r) (rs ++ r ∷ [])
  link_back-IsQueued = record {
    links = link_back-links;
    levels = link_back-levels;
    distinct = IsDistinct-snoc rs r v.distinct fresh;
    nulls = All-append (λ x. (no_order == x) ≡ false) rs (r ∷ []) v.nulls (real, tt);
  }
