-- ===== src/L3/Enter.antt =====
-- `add` of l3.hpp for an order that is accepted: it is the last in time priority.
use crossbook.Common.{
  ℕ, ◌+◌, ◌≤◌, ◌<◌, ◌≡◌, ◌≢◌, refl, sym, ap, ap₂, ◌∙◌, arith, All, All-append, length-append, subst,
}
use crossbook.Common.{true, false, inl, inr, Bool-cases, if◌then◌else◌, ◌==◌, ==_iff}
use crossbook.Common.{List, [], ◌∷◌, ◌++◌, map}
use crossbook.Types.{Side, Price}
use crossbook.L3.Table.{no_order, find_ref, insert_ref}
use crossbook.L3.Table.Valid.{IsTable}
use crossbook.L3.Table.Laws.{insert_ref-IsTable, find_ref-insert_ref}
use crossbook.L3.{Order, L3Book, is_positive, write_order, allocate, link_back, find_level, enter}
use crossbook.L3.Links.{IsFresh, IsDistinct, All-imp, All-and, eq_sym}
use crossbook.L3.Queues.{IsQueued}
use crossbook.L3.LinkBack.{SameButLinks, link_back_kept, link_back_rest, everywhere}
use crossbook.L3.Append.{link_back-IsQueued}
use crossbook.L3.Valid.{
  IsBook, resting, Listed, Listed-All, Listed-left, Listed-right, IsQueued-write,
}
use crossbook.L3.Lookup.{missing_id, map-same}
use crossbook.L3.Allocate.{IsAllocated, allocate-IsAllocated}

-- Orders that differ in their links only are one order of the abstract book.
pub resting_eq : (o o' : ℕ → Order) (j : ℕ) → SameButLinks (o' j) (o j) → resting o' j ≡ resting o j
resting_eq o o' j (i, p, q, s, l) = λ k. record { id = i k; side = s k; price = p k; qty = q k }

pub map-append :
    (o : ℕ → Order) (xs ys : List ℕ)
    → map (resting o) (xs ++ ys) ≡ map (resting o) xs ++ map (resting o) ys
map-append o [] ys = refl
map-append o (x ∷ xs) ys = ap (◌∷◌ (resting o x)) (map-append o xs ys)

module _ {b : L3Book} {rs : List ℕ} (k : IsBook b rs) (room : b.arena_size < no_order) (o : Order)
    (new : find_ref b.table o.id ≡ no_order) (live : o.live ≡ true)
    (some_qty : is_positive o.qty ≡ true) where
  abbrev r : ℕ
  r = (allocate b).0

  abbrev b' : L3Book
  b' = (allocate b).1

  abbrev w : L3Book
  w = write_order b' r o

  abbrev e : L3Book
  e = enter b o.id o

  got : IsAllocated b rs r b'
  got = allocate-IsAllocated k.on_file room

  written : All (λ j. w.orders j ≡ b.orders j) rs
  unfolding write_order
  written =
      All-imp (λ j. ((r == j) ≡ false) × (b'.orders j ≡ b.orders j)) _ rs (λ j h. rw h.0 h.1)
        (All-and (λ j. (r == j) ≡ false) _ rs got.fresh got.same)

  w_levels : (s : Side) (p : Price) → find_level w s p ≡ find_level b s p
  unfolding write_order find_level
  w_levels s p = got.levels s p

  w_at_r : w.orders r ≡ o
  unfolding write_order
  w_at_r = rw ((==_iff r r).1 refl)

  real : (no_order == r) ≡ false
  real = ground (arith, got.below, got.bounded)

  e-IsQueued : IsQueued e (rs ++ r ∷ [])
  unfolding enter find_level
  e-IsQueued =
      IsQueued-write (link_back w r) e (rs ++ r ∷ []) (everywhere _ (rs ++ r ∷ []) (λ j. refl))
        (λ s p. refl)
        (link_back-IsQueued (IsQueued-write b w rs written w_levels k.queued) r got.fresh real)

  e_orders : (j : ℕ) → SameButLinks (e.orders j) (w.orders j)
  unfolding enter
  e_orders j = link_back_rest w r j

  e_rest : All (λ j. SameButLinks (e.orders j) (b.orders j)) rs
  e_rest =
      All-imp (λ j. w.orders j ≡ b.orders j) _ rs
        (λ j h. subst (SameButLinks (e.orders j)) h (e_orders j)) written

  e_at_r : SameButLinks (e.orders r) o
  e_at_r = subst (SameButLinks (e.orders r)) w_at_r (e_orders r)

  e_table : e.table ≡ insert_ref b.table o.id r
  unfolding enter write_order
  e_table = ap (λ t. insert_ref t o.id r) ((link_back_kept w r).0 ∙ got.table)

  e_arena : e.arena_size ≡ b'.arena_size
  unfolding enter write_order
  e_arena = (link_back_kept w r).1

  e_free : e.free_list ≡ b'.free_list
  unfolding enter write_order
  e_free = (link_back_kept w r).2

  e_live : e.live_orders ≡ b.live_orders + 1
  unfolding enter write_order
  e_live = ap (λ n. n + 1) ((link_back_kept w r).3 ∙ got.live_orders)

  named : r ≢ no_order
  named h = cc (real, (==_iff no_order r).1 (sym h))

  lookup_e : (x : ℕ) → find_ref e.table x ≡ (if o.id == x then r else find_ref b.table x)
  lookup_e x =
      ap (λ t. find_ref t x) e_table ∙ find_ref-insert_ref k.on_file.table o.id r named new x

  e_indexed :
      (x : ℕ)
      → find_ref e.table x ≢ no_order
      → Listed (find_ref e.table x) (rs ++ r ∷ []) × ((e.orders (find_ref e.table x)).id ≡ x)
  e_indexed x ne = elim (Bool-cases (o.id == x)) [
    | inl same ↦
        let at_r : find_ref e.table x ≡ r = lookup_e x ∙ rw same in
        rw at_r (Listed-right r rs (r ∷ []) (inl refl), e_at_r.0 ∙ (==_iff o.id x).0 same)
    | inr other ↦
        let as_before : find_ref e.table x ≡ find_ref b.table x = lookup_e x ∙ rw other in
        let (listed, own) = k.on_file.indexed x (λ h. ne (as_before ∙ h)) in
        rw as_before (
          Listed-left (find_ref b.table x) rs (r ∷ []) listed,
          (Listed-All _ (find_ref b.table x) rs listed e_rest).0 ∙ own,
        )
  ]

  e_filed : All (λ x. find_ref e.table (e.orders x).id ≡ x) (rs ++ r ∷ [])
  e_filed =
      All-append _ rs (r ∷ [])
        (All-imp
          (λ x.
            SameButLinks (e.orders x) (b.orders x)
            × ((find_ref b.table (b.orders x).id ≡ x) × (((b.orders x).id == o.id) ≡ false)))
          _ rs
          (λ x h.
            ap (find_ref e.table) h.0.0
            ∙ lookup_e (b.orders x).id
            ∙ rw (eq_sym (b.orders x).id o.id h.1.1) h.1.0)
          (All-and _ _ rs e_rest (
            All-and _ (λ x. ((b.orders x).id == o.id) ≡ false) rs k.on_file.filed
              (missing_id k o.id new))))
        (ap (find_ref e.table) e_at_r.0 ∙ lookup_e o.id ∙ rw ((==_iff o.id o.id).1 refl), tt)

  e_alive :
      All
        (λ x.
          ((e.orders x).live ≡ true) × (is_positive (e.orders x).qty ≡ true) × (x < e.arena_size))
        (rs ++ r ∷ [])
  e_alive =
      All-append _ rs (r ∷ [])
        (All-imp
          (λ x.
            SameButLinks (e.orders x) (b.orders x)
            × (((b.orders x).live ≡ true)
                × (is_positive (b.orders x).qty ≡ true)
                × (x < b.arena_size)))
          _ rs
          (λ x h.
            (h.0.4 ∙ h.1.0, ap is_positive h.0.2 ∙ h.1.1, omega (arith, e_arena, got.grown, h.1.2)))
          (All-and _ _ rs e_rest k.on_file.alive))
        (
          (e_at_r.4 ∙ live, ap is_positive e_at_r.2 ∙ some_qty, omega (arith, e_arena, got.below)),
          tt,
        )

  e_free_fresh : All (λ x. (x < e.arena_size) × IsFresh x (rs ++ r ∷ [])) e.free_list
  e_free_fresh =
      rw (e_free, e_arena)
        (All-imp (λ x. (x < b'.arena_size) × IsFresh x rs × ((r == x) ≡ false)) _ b'.free_list
          (λ x h. (h.0, All-append (λ y. (x == y) ≡ false) rs (r ∷ []) h.1 (eq_sym r x h.2, tt)))
          got.free)

  pub enter-IsBook : IsBook (enter b o.id o) (rs ++ r ∷ [])
  enter-IsBook = record {
    queued = e-IsQueued;
    on_file = record {
      table = subst IsTable (sym e_table) (insert_ref-IsTable k.on_file.table o.id r named new);
      indexed = e_indexed;
      filed = e_filed;
      alive = e_alive;
      free = e_free_fresh;
      free_distinct = subst IsDistinct (sym e_free) got.free_distinct;
      bounded = rw e_arena got.bounded;
      counted = omega (arith, e_live, k.on_file.counted, length-append rs (r ∷ []));
    };
  }

  pub enter_view :
      map (resting e.orders) (rs ++ r ∷ [])
      ≡ map (resting b.orders) rs
        ++ record { id = o.id; side = o.side; price = o.price; qty = o.qty } ∷ []
  enter_view =
      map-append e.orders rs (r ∷ [])
      ∙ ap₂ (λ xs y. xs ++ y ∷ [])
          (map-same b.orders e.orders rs
            (All-imp _ _ rs (λ x h. resting_eq b.orders e.orders x h) e_rest))
          (λ i. record { id = e_at_r.0 i; side = e_at_r.3 i; price = e_at_r.1 i; qty = e_at_r.2 i })

  pub enter-arena : e.arena_size ≤ b.arena_size + 1
  enter-arena = omega (arith, e_arena, got.one_more)
