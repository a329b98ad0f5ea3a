-- ===== src/L3/Refines.antt =====
-- Each call of l3.hpp does to the book what it does to the abstract orders.
use crossbook.Common.{ℕ, ◌≡◌, refl, sym, ap, ap₂, ◌∙◌, arith, All-append}
use crossbook.Common.{true, false, inl, inr, Bool-cases, ◌==◌, ==_iff}
use crossbook.Common.{List, [], ◌∷◌, ◌++◌, some, map}
use crossbook.Common.Int.{
  to_int64, to_int64-right, ◌+ℤ◌, ◌-ℤ◌, +ℤ_parts, -ℤ_parts, eq_of_parts, ltb_ℤ,
}
use crossbook.Types.{Qty}
use crossbook.L3.Table.{no_order, find_ref}
use crossbook.L3.{
  add_qty, sub_qty, Order, L3Book, is_positive, remove, release, modify, execute, resize, link_back,
  unlink, level_for,
}
use crossbook.L3.Spec.{Resting, Command, spec, lookup, without, with_qty}
use crossbook.L3.Valid.{IsBook, resting}
use crossbook.L3.Lookup.{Lacks, lookup-middle, without-middle, with_qty-middle, map-same}
use crossbook.L3.Enter.{map-append}
use crossbook.L3.Release.{All-middle, release-IsBook, release_view, release-arena}
use crossbook.L3.Resize.{resize-IsBook, resize_at_r, resize_rest, resize-arena}
use crossbook.L3.Requeue.{requeue-IsBook, requeue_view, requeue-arena}
use crossbook.L3.Commands.{Answers}

balance_modify : (l q old : Qty) → add_qty l (sub_qty q old) ≡ to_int64 (l +ℤ (q -ℤ old))
unfolding add_qty sub_qty
balance_modify l q old = to_int64-right l (q -ℤ old)

balance_execute : (l t old : Qty) → sub_qty l t ≡ to_int64 (l +ℤ ((old -ℤ t) -ℤ old))
unfolding sub_qty
balance_execute l t old =
    ap to_int64
      (eq_of_parts (l -ℤ t) (l +ℤ ((old -ℤ t) -ℤ old)) (omega (arith, +ℤ_parts, -ℤ_parts)))

positive_left : (t old : Qty) → ltb_ℤ t old ≡ true → is_positive (old -ℤ t) ≡ true
positive_left t old h = ground (arith, -ℤ_parts old t)

-- The calls for an id that is live, at the order `r`.
module _ {b : L3Book} (xs : List ℕ) (r : ℕ) (ys : List ℕ) (k : IsBook b (xs ++ r ∷ ys)) (id : ℕ)
    (at : find_ref b.table id ≡ r) (own : ((b.orders r).id == id) ≡ true)
    (lx : Lacks b.orders id xs) (ly : Lacks b.orders id ys) where
  abbrev os : List Resting
  os = map (resting b.orders) (xs ++ r ∷ ys)

  abbrev o : Order
  o = b.orders r

  real : (r == no_order) ≡ false
  real = let h = (All-middle _ xs r ys k.queued.nulls).1 in ground (arith, h)

  found_it : lookup id os ≡ some (resting b.orders r)
  found_it = lookup-middle b.orders id r own xs ys lx

  without_it : without id os ≡ map (resting b.orders) (xs ++ ys)
  without_it = without-middle b.orders id r own xs ys lx ly

  remove_eq : remove b id ≡ (release b id r, true)
  unfolding remove
  remove_eq = rw (at, real)

  released : Answers b (release b id r, true) (without id os, true)
  released =
      let own_id = (==_iff o.id id).0 own in
      let lacks = All-append _ xs ys lx ly in
      (
        (
          xs ++ ys,
          release-IsBook xs r ys k id own_id lacks,
          without_it ∙ sym (release_view xs r ys k id own_id lacks),
        ),
        refl,
        release-arena xs r ys k id own_id lacks,
      )

  pub remove_hit : Answers b (remove b id) (spec os (Command.remove id))
  remove_hit = rw (remove_eq, found_it) released

  module _ (lq q : Qty) (some_qty : is_positive q ≡ true)
      (balance : lq ≡ to_int64 ((level_for b o.side o.price).qty +ℤ (q -ℤ o.qty))) where
    abbrev c : L3Book
    c = resize b r lq q

    kc : IsBook c (xs ++ r ∷ ys)
    kc = resize-IsBook xs r ys k lq q some_qty balance

    in_place : Answers b (c, true) (with_qty id q os, true)
    in_place =
        let (sx, sy) = resize_rest xs r ys k lq q some_qty balance in
        (
          (
            xs ++ r ∷ ys,
            kc,
            with_qty-middle b.orders id r own c.orders q
                (resize_at_r xs r ys k lq q some_qty balance) xs ys lx ly sx sy,
          ),
          refl,
          resize-arena xs r ys k lq q some_qty balance,
        )

    requeued :
        Answers b
          (link_back (unlink c r) r, true)
          (without id os ++ record (resting b.orders r) { qty = q } ∷ [], true)
    requeued = (
      (((xs ++ ys) ++ r ∷ []), requeue-IsBook xs r ys kc, sym view),
      refl,
      omega (arith, requeue-arena xs r ys kc, resize-arena xs r ys k lq q some_qty balance),
    )
      where
        view :
            map (resting (link_back (unlink c r) r).orders) ((xs ++ ys) ++ r ∷ [])
            ≡ without id os ++ record (resting b.orders r) { qty = q } ∷ []
        view =
            let (sx, sy) = resize_rest xs r ys k lq q some_qty balance in
            map-same c.orders (link_back (unlink c r) r).orders ((xs ++ ys) ++ r ∷ [])
              (requeue_view xs r ys kc ((xs ++ ys) ++ r ∷ []))
            ∙ map-append c.orders (xs ++ ys) (r ∷ [])
            ∙ ap₂ (λ zs z. zs ++ z ∷ [])
                (map-same b.orders c.orders (xs ++ ys) (All-append _ xs ys sx sy) ∙ sym without_it)
                (resize_at_r xs r ys k lq q some_qty balance)

  abbrev level_qty : Qty
  level_qty = (level_for b o.side o.price).qty

  modify_gone : (q : Qty) → is_positive q ≡ false → modify b id q ≡ remove b id
  unfolding modify
  modify_gone q gone = rw (at, real, gone)

  modify_more :
      (q : Qty)
      → is_positive q ≡ true
      → ltb_ℤ o.qty q ≡ true
      → modify b id q
        ≡ (link_back (unlink (resize b r (add_qty level_qty (sub_qty q o.qty)) q) r) r, true)
  unfolding modify
  modify_more q some_qty more = rw (at, real, some_qty, more)

  modify_less :
      (q : Qty)
      → is_positive q ≡ true
      → ltb_ℤ o.qty q ≡ false
      → modify b id q ≡ (resize b r (add_qty level_qty (sub_qty q o.qty)) q, true)
  unfolding modify
  modify_less q some_qty less = rw (at, real, some_qty, less)

  pub modify_hit : (q : Qty) → Answers b (modify b id q) (spec os (Command.modify id q))
  modify_hit q = elim (Bool-cases (is_positive q)) [
    | inr gone ↦ rw (modify_gone q gone, remove_eq, found_it, gone) released
    | inl some_qty ↦ elim (Bool-cases (ltb_ℤ o.qty q)) [
      | inl more ↦
          rw (modify_more q some_qty more, found_it, some_qty, more)
            (requeued (add_qty level_qty (sub_qty q o.qty)) q some_qty
              (balance_modify level_qty q o.qty))
      | inr less ↦
          rw (modify_less q some_qty less, found_it, some_qty, less)
            (in_place (add_qty level_qty (sub_qty q o.qty)) q some_qty
              (balance_modify level_qty q o.qty))
    ]
  ]

  execute_none : (t : Qty) → is_positive t ≡ false → execute b id t ≡ (b, false)
  unfolding execute
  execute_none t none_traded = rw (at, real, none_traded)

  execute_part :
      (t : Qty)
      → is_positive t ≡ true
      → ltb_ℤ t o.qty ≡ true
      → execute b id t ≡ (resize b r (sub_qty level_qty t) (o.qty -ℤ t), true)
  unfolding execute
  execute_part t traded part = rw (at, real, traded, part)

  execute_whole :
      (t : Qty) → is_positive t ≡ true → ltb_ℤ t o.qty ≡ false → execute b id t ≡ remove b id
  unfolding execute
  execute_whole t traded whole = rw (at, real, traded, whole)

  pub execute_hit : (t : Qty) → Answers b (execute b id t) (spec os (Command.execute id t))
  execute_hit t = elim (Bool-cases (is_positive t)) [
    | inr none_traded ↦
        rw (execute_none t none_traded, found_it, none_traded)
          ((xs ++ r ∷ ys, k, refl), refl, omega arith)
    | inl traded ↦ elim (Bool-cases (ltb_ℤ t o.qty)) [
      | inl part ↦
          rw (execute_part t traded part, found_it, traded, part)
            (in_place (sub_qty level_qty t) (o.qty -ℤ t) (positive_left t o.qty part)
              (balance_execute level_qty t o.qty))
      | inr whole ↦ rw (execute_whole t traded whole, remove_eq, found_it, traded, whole) released
    ]
  ]
