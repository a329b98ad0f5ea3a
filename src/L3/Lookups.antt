-- ===== src/L3/Lookups.antt =====
-- What the lookups of l3.hpp say of the abstract orders.
use crossbook.Common.{
  ℕ, zero, suc, ◌≤◌, ◌≡◌, refl, sym, ap, ◌∙◌, arith, length, All, length-append, subst,
}
use crossbook.Common.{Bool, true, false, inl, inr, Bool-cases, ◌==◌, ==_iff}
use crossbook.Common.{List, [], ◌∷◌, ◌++◌, some, map}
use mathlib.Core.Option
use mathlib.Core.Path.{fun_ext}
use crossbook.Common.Int.{IsInt64, to_int64, to_int64_id, to_int64-left, pos, ◌+ℤ◌}
use crossbook.Types.{Side, Price, Qty}
use crossbook.L3.Table.{no_order, find_ref}
use crossbook.L3.{add_qty, is_positive, Order, L3Book, find_level}
use crossbook.L3.Query.{order_count, find, for_each_order, walk_orders, queue_ahead, ahead_from}
use crossbook.L3.Links.{All-imp, first, Linked, IsFresh, All-split, IsDistinct-without, eq_sym}
use crossbook.L3.Queues.{
  queue, in_queue, total, expected, summary, All-select, +ℤ_assoc, +ℤ_zero, zero-+ℤ,
}
use crossbook.L3.Spec.{Resting, lookup, ahead, at_price, sum_qty, aggregate, Fits}
use crossbook.L3.Valid.{IsBook, Represents, resting}
use crossbook.L3.Lookup.{Lacks, lookup-Lacks, lookup-middle, missing_id, hit_id}
use crossbook.L3.Release.{All-middle}
use crossbook.L3.Leave.{whole_own}
use crossbook.L3.Summary.{expected_middle}
use crossbook.L3.Aggregates.{
  visit_resting, map-queue, length-map, level_facts, aggregate-map, ahead_le, Fits-at,
}

abbrev pub as_resting : Order → Resting
as_resting o = record { id = o.id; side = o.side; price = o.price; qty = o.qty }

-- The walk along a queue visits its orders, front first, and ends.
walk_queue :
    (A : Type 0) (g : A → Resting → A × Bool) (o : ℕ → Order) (p : ℕ) (rs : List ℕ) (a : A)
    → Linked (λ j. (o j).prev) (λ j. (o j).next) p rs no_order
    → IsFresh no_order rs
    → walk_orders (suc (length rs)) A (λ x y. g x (as_resting y)) o (first rs no_order) a
      ≡ some (visit_resting A g (map (resting o) rs) a)
unfolding walk_orders visit_resting
walk_queue A g o p [] a l f = refl
walk_queue A g o p (r ∷ rs) a (lp, ln, l) (n, f) =
    let n' : (r == no_order) ≡ false = ground (arith, n) in
    rw (n', ln, walk_queue A g o r rs (g a (resting o r)).0 l f)
      (elim (Bool-cases (g a (resting o r)).1) [ inl m ↦ rw m | inr m ↦ rw m ])

-- The walk of `queue_ahead` adds up what stands before the order, as far as an int64_t holds it.
ahead_queue :
    (o : ℕ → Order) (p : ℕ) (front : List ℕ) (r : ℕ) (back : List ℕ) (n : ℕ) (sum : Qty)
    → Linked (λ j. (o j).prev) (λ j. (o j).next) p (front ++ r ∷ back) no_order
    → IsFresh no_order (front ++ r ∷ back)
    → IsFresh r front
    → length front ≤ n
    → ahead_from (suc n) o r (first (front ++ r ∷ back) no_order) (to_int64 sum)
      ≡ some (to_int64 (sum +ℤ total o front))
unfolding ahead_from total add_qty
ahead_queue o p [] r back n sum l f d h =
    rw ((==_iff r r).1 refl) (elim (Bool-cases (r == no_order)) [
      | inl e ↦ rw e (ap (λ z. some (to_int64 z)) (sym (+ℤ_zero sum)))
      | inr e ↦ rw e (ap (λ z. some (to_int64 z)) (sym (+ℤ_zero sum)))
    ])
ahead_queue o p (x ∷ front) r back zero sum l f d h = absurd (omega arith)
ahead_queue o p (x ∷ front) r back (suc n) sum (lp, ln, l) (z, f) (e, d) h =
    let z' : (x == no_order) ≡ false = ground (arith, z) in
    rw
      (
        z',
        eq_sym r x e,
        ln,
        to_int64-left sum (o x).qty,
        ahead_queue o x front r back n (sum +ℤ (o x).qty) l f d (omega arith),
      )
      (ap (λ z. some (to_int64 z)) (+ℤ_assoc sum (o x).qty (total o front)))

module _ {b : L3Book} {rs : List ℕ} (k : IsBook b rs) where
  abbrev os : List Resting
  os = map (resting b.orders) rs

  level_shown :
      (s : Side) (p : Price)
      → IsInt64 (sum_qty (at_price s p os))
      → Option.map level_facts (find_level b s p) ≡ aggregate (at_price s p os)
  level_shown s p h =
      ap (Option.map level_facts) (k.queued.levels s p)
      ∙ aggregate-map b.orders (queue b.orders s p rs)
          (subst (λ zs. IsInt64 (sum_qty zs)) (sym (map-queue b.orders s p rs)) h)
      ∙ ap aggregate (map-queue b.orders s p rs)

  queue_nulls : (s : Side) (p : Price) → IsFresh no_order (queue b.orders s p rs)
  unfolding queue
  queue_nulls s p = All-select (in_queue b.orders s p) _ rs k.queued.nulls

  orders_at :
      (A : Type 0) (g : A → Resting → A × Bool) (s : Side) (p : Price) (a : A)
      → for_each_order A (λ x o. g x (as_resting o)) b s p a
        ≡ some (visit_resting A g (at_price s p os) a)
  unfolding for_each_order expected visit_resting summary
  orders_at A g s p a =
      visited (queue b.orders s p rs) (k.queued.levels s p) (k.queued.links s p) (queue_nulls s p)
      ∙ ap (λ zs. some (visit_resting A g zs a)) (map-queue b.orders s p rs)
    where
      visited :
          (qs : List ℕ)
          → find_level b s p ≡ expected b.orders qs
          → Linked (λ j. (b.orders j).prev) (λ j. (b.orders j).next) no_order qs no_order
          → IsFresh no_order qs
          → for_each_order A (λ x o. g x (as_resting o)) b s p a
            ≡ some (visit_resting A g (map (resting b.orders) qs) a)
      visited [] e l f = rw e
      visited (r ∷ qs) e l f = rw e (walk_queue A g b.orders no_order (r ∷ qs) a l f)

  ahead-Lacks :
      (id : ℕ) (s : Side) (p : Price) (r : ℕ) (xs ys : List ℕ)
      → ((b.orders r).id == id) ≡ true
      → Lacks b.orders id xs
      → ahead id s p (map (resting b.orders) (xs ++ r ∷ ys))
        ≡ total b.orders (queue b.orders s p xs)
  unfolding ahead total queue
  ahead-Lacks id s p r [] ys own h = rw own
  ahead-Lacks id s p r (x ∷ xs) ys own (e, h) = elim (Bool-cases (in_queue b.orders s p x)) [
    | inl i ↦ rw (e, i) (ap (◌+ℤ◌ (b.orders x).qty) (ahead-Lacks id s p r xs ys own h))
    | inr i ↦ rw (e, i) (ahead-Lacks id s p r xs ys own h)
  ]

module _ {b : L3Book} (xs : List ℕ) (r : ℕ) (ys : List ℕ) (k : IsBook b (xs ++ r ∷ ys)) (id : ℕ)
    (at : find_ref b.table id ≡ r) (own : ((b.orders r).id == id) ≡ true)
    (lx : Lacks b.orders id xs) where
  abbrev o : Order
  o = b.orders r

  abbrev front : List ℕ
  front = queue b.orders o.side o.price xs

  abbrev back : List ℕ
  back = queue b.orders o.side o.price ys

  front_fresh : IsFresh r front
  unfolding queue
  front_fresh =
      All-select (in_queue b.orders o.side o.price) _ xs
        (All-split _ xs ys (IsDistinct-without xs r ys k.queued.distinct).1).0

  long_enough : length front ≤ length (front ++ r ∷ back)
  long_enough = omega (arith, length-append front (r ∷ back))

  ahead_hit :
      queue_ahead b id
      ≡ some (some (to_int64 (ahead id o.side o.price (map (resting b.orders) (xs ++ r ∷ ys)))))
  unfolding queue_ahead summary ahead_from to_int64
  ahead_hit = rw (
    at,
    (let real : (r == no_order) ≡ false = ground (arith, (All-middle _ xs r ys k.queued.nulls).1) in
        real),
    k.queued.levels o.side o.price,
    whole_own r xs ys k.queued,
    expected_middle b.orders front r back,
    ahead_queue b.orders no_order front r back (length (front ++ r ∷ back)) (pos 0)
        (subst (λ q. Linked (λ j. (b.orders j).prev) (λ j. (b.orders j).next) no_order q no_order)
          (whole_own r xs ys k.queued) (k.queued.links o.side o.price))
        (subst (IsFresh no_order) (whole_own r xs ys k.queued) (queue_nulls k o.side o.price))
        front_fresh long_enough,
    zero-+ℤ (total b.orders front),
    ahead-Lacks k id o.side o.price r xs ys own lx,
  )

IsBook-positive :
    {b : L3Book} {rs : List ℕ} (k : IsBook b rs)
    → All (λ (o : Resting). is_positive o.qty ≡ true) (map (resting b.orders) rs)
IsBook-positive {b} {rs} k = those rs (All-imp _ _ rs (λ x h. h.1) k.on_file.alive)
  where
    those :
        (zs : List ℕ)
        → All (λ x. is_positive (b.orders x).qty ≡ true) zs
        → All (λ (o : Resting). is_positive o.qty ≡ true) (map (resting b.orders) zs)
    those [] h = tt
    those (z ∷ zs) (h, hs) = (h, those zs hs)

module _ {b : L3Book} {rs : List ℕ} (k : IsBook b rs) (id : ℕ) where
  at_live :
      (P : List Resting → Type 0)
      → (find_ref b.table id == no_order) ≡ false
      → ((xs ys : List ℕ)
          → IsBook b (xs ++ find_ref b.table id ∷ ys)
          → ((b.orders (find_ref b.table id)).id == id) ≡ true
          → Lacks b.orders id xs
          → P (map (resting b.orders) (xs ++ find_ref b.table id ∷ ys)))
      → P (map (resting b.orders) rs)
  at_live P there h =
      let (xs, ys, e, own, lx, ly) =
        hit_id k id (λ z. cc (there, (==_iff (find_ref b.table id) no_order).1 z)) in
      subst (λ zs. P (map (resting b.orders) zs)) (sym e) (h xs ys (subst (IsBook b) e k) own lx)

  ahead_at :
      queue_ahead b id
      ≡ some (
          Option.map
            (λ (o : Resting). to_int64 (ahead id o.side o.price (map (resting b.orders) rs)))
            (lookup id (map (resting b.orders) rs)))
  unfolding queue_ahead
  ahead_at = elim (Bool-cases (find_ref b.table id == no_order)) [
    | inl gone ↦ rw (
      gone,
      lookup-Lacks b.orders id rs
          (missing_id k id ((==_iff (find_ref b.table id) no_order).0 gone)),
    )
    | inr there ↦
        at_live
          (λ os.
            queue_ahead b id
            ≡ some (
                Option.map (λ (o : Resting). to_int64 (ahead id o.side o.price os)) (lookup id os)))
          there
          (λ xs ys k' own lx.
            ahead_hit xs (find_ref b.table id) ys k' id refl own lx
            ∙ sym (
                ap
                  (λ f. some (
                    Option.map
                      (λ (o : Resting). to_int64 (
                        ahead id o.side o.price
                          (map (resting b.orders) (xs ++ find_ref b.table id ∷ ys))))
                      f))
                  (lookup-middle b.orders id (find_ref b.table id) own xs ys lx)))
  ]

  find_at : Option.map as_resting (find b id) ≡ lookup id (map (resting b.orders) rs)
  unfolding find
  find_at = elim (Bool-cases (find_ref b.table id == no_order)) [
    | inl gone ↦ rw (
      gone,
      lookup-Lacks b.orders id rs
          (missing_id k id ((==_iff (find_ref b.table id) no_order).0 gone)),
    )
    | inr there ↦ rw there (
        at_live (λ os. some (as_resting (b.orders (find_ref b.table id))) ≡ lookup id os) there
          (λ xs ys k' own lx. sym (lookup-middle b.orders id (find_ref b.table id) own xs ys lx)))
  ]

-- On a book that represents the orders, where at each price their quantities have a sum that an
-- int64_t holds, the walk of queue_ahead ends, with the sum of the quantities that rest before the
-- order of the id at its side and price; it answers false for an id that no order has.
pub queue_ahead-Represents :
    (b : L3Book) (rests : List Resting) (id : ℕ)
    → Represents b rests
    → Fits rests
    → queue_ahead b id
      ≡ some (Option.map (λ (o : Resting). ahead id o.side o.price rests) (lookup id rests))
queue_ahead-Represents b rests id (rs, k, e) fits =
    subst
      (λ zs.
        queue_ahead b id
        ≡ some (Option.map (λ (o : Resting). to_int64 (ahead id o.side o.price zs)) (lookup id zs)))
      (sym e) (ahead_at k id)
    ∙ ap (λ f. some (Option.map f (lookup id rests))) (fun_ext exact)
  where
    positive : All (λ (o : Resting). is_positive o.qty ≡ true) rests
    positive = subst (All (λ (o : Resting). is_positive o.qty ≡ true)) (sym e) (IsBook-positive k)

    exact : (o : Resting) → to_int64 (ahead id o.side o.price rests) ≡ ahead id o.side o.price rests
    exact h =
        let (na, ns, le) = ahead_le id h.side h.price rests positive in
        let (low, high) = Fits-at rests h.side h.price fits in
        to_int64_id (ahead id h.side h.price rests) (omega arith, omega arith)

-- What the other lookups answer, in terms of the abstract orders.
abbrev pub Shows : L3Book → List Resting → Type 1
Shows b rests =
    ((id : ℕ) → Option.map as_resting (find b id) ≡ lookup id rests)
    × ((s : Side) (p : Price)
        → Option.map level_facts (find_level b s p) ≡ aggregate (at_price s p rests))
    × ((A : Type 0) (g : A → Resting → A × Bool) (s : Side) (p : Price) (a : A)
        → for_each_order A (λ x o. g x (as_resting o)) b s p a
          ≡ some (visit_resting A g (at_price s p rests) a))
    × (order_count b ≡ length rests)

pub find_level-Represents :
    (b : L3Book) (rests : List Resting) (s : Side) (p : Price)
    → Represents b rests
    → Fits rests
    → Option.map level_facts (find_level b s p) ≡ aggregate (at_price s p rests)
find_level-Represents b rests s p (rs, k, e) fits =
    subst (λ zs. Option.map level_facts (find_level b s p) ≡ aggregate (at_price s p zs)) (sym e)
      (level_shown k s p
        (subst (λ zs. IsInt64 (sum_qty (at_price s p zs))) e (Fits-at rests s p fits)))

-- On a book that represents the orders, where at each price their quantities have a sum that an
-- int64_t holds: find gives the order of an id and nothing for an id that no order has; find_level
-- gives the sum and the number of the orders at a price, and nothing where there are none;
-- for_each_order ends and visits the orders at a price in time priority, until the visitor stops;
-- and order_count is the number of the orders.
pub Represents-Shows :
    (b : L3Book) (rests : List Resting) → Represents b rests → Fits rests → Shows b rests
unfolding order_count
Represents-Shows b rests (rs, k, e) fits = (
  subst (λ zs. (id : ℕ) → Option.map as_resting (find b id) ≡ lookup id zs) (sym e) (find_at k),
  λ s p. find_level-Represents b rests s p (rs, k, e) fits,
  subst
      (λ zs.
        (A : Type 0) (g : A → Resting → A × Bool) (s : Side) (p : Price) (a : A)
        → for_each_order A (λ x o. g x (as_resting o)) b s p a
          ≡ some (visit_resting A g (at_price s p zs) a))
      (sym e) (orders_at k),
  k.on_file.counted ∙ sym (length-map b.orders rs) ∙ ap length (sym e),
)
