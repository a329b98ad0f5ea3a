-- ===== src/L3/Summary.antt =====
-- The level that l3.hpp keeps for a queue, when an order joins the queue or leaves it.
use crossbook.Common.{
  ℕ, ◌+◌, ◌≡◌, refl, sym, ap, ◌∙◌, arith, All, length, length-append, true, false, ◌⊎◌, inl, inr,
  Bool-cases, if◌then◌else◌, ◌==◌, List, [], ◌∷◌, ◌++◌, some, append-nil, ◌-◌,
}
use crossbook.Common.Int.{
  to_int64, to_int64-left, to_int64-sub, ◌+ℤ◌, ◌-ℤ◌, +ℤ_parts, -ℤ_parts, eq_of_parts,
}
use crossbook.L3.Table.{no_order}
use crossbook.L3.{add_qty, sub_qty, Order, appended, removed}
use crossbook.L3.Links.{first, last, IsFresh, last-append, All-split}
use crossbook.L3.Queues.{expected, summary, last-null, total-append, +ℤ_zero, total, total-same}
use crossbook.L3.LinkBack.{everywhere}

pub expected-snoc :
    (orders : ℕ → Order) (xs : List ℕ) (r : ℕ)
    → expected orders (xs ++ r ∷ []) ≡ some (summary orders (xs ++ r ∷ []))
unfolding expected
expected-snoc orders [] r = refl
expected-snoc orders (x ∷ xs) r = refl

pub appended-summary :
    (o o' : ℕ → Order) (xs : List ℕ) (r : ℕ)
    → All (λ j. (o' j).qty ≡ (o j).qty) (xs ++ r ∷ [])
    → IsFresh no_order xs
    → appended (summary o xs) r (o r).qty ≡ summary o' (xs ++ r ∷ [])
unfolding appended add_qty summary total
appended-summary o o' xs r h f = λ i. record {
  qty = (to_int64-left (total o xs) (o r).qty ∙ ap to_int64 sum) i;
  orders =
      let e : length xs + 1 ≡ length (xs ++ r ∷ []) = omega (arith, length-append xs (r ∷ [])) in
      e i;
  head = front (Bool-cases (last no_order xs == no_order)) i;
  tail = sym (last-append no_order xs (r ∷ [])) i;
}
  where
    sum : total o xs +ℤ (o r).qty ≡ total o' (xs ++ r ∷ [])
    sum =
        ap (◌+ℤ◌ (total o xs)) (sym (+ℤ_zero (o r).qty))
        ∙ sym (total-append o xs (r ∷ []))
        ∙ sym (total-same o o' (xs ++ r ∷ []) h)

    front :
        ((last no_order xs == no_order) ≡ true) ⊎ ((last no_order xs == no_order) ≡ false)
        → (if last no_order xs == no_order then r else first xs no_order)
          ≡ first (xs ++ r ∷ []) no_order
    front (inl e) = rw e (sym (ap (λ ys. first (ys ++ r ∷ []) no_order) (last-null o xs f e)))
    front (inr e) = rw e (nonempty xs e)
      where
        nonempty :
            (xs : List ℕ)
            → (last no_order xs == no_order) ≡ false
            → first xs no_order ≡ first (xs ++ r ∷ []) no_order
        nonempty [] e = cc e
        nonempty (x ∷ xs) e = refl

pub expected_middle :
    (o : ℕ → Order) (front : List ℕ) (r : ℕ) (back : List ℕ)
    → expected o (front ++ r ∷ back) ≡ some (summary o (front ++ r ∷ back))
unfolding expected
expected_middle o [] r back = refl
expected_middle o (x ∷ front) r back = refl

total_removed :
    (o : ℕ → Order) (front : List ℕ) (r : ℕ) (back : List ℕ)
    → total o (front ++ r ∷ back) -ℤ (o r).qty ≡ total o (front ++ back)
unfolding total
total_removed o front r back =
    rw (total-append o front (r ∷ back), total-append o front back)
      (eq_of_parts (total o front +ℤ ((o r).qty +ℤ total o back) -ℤ (o r).qty)
        (total o front +ℤ total o back) (omega (arith, +ℤ_parts, -ℤ_parts)))

-- What is left of a level is the level of what is left.
pub removed-summary :
    (o o' : ℕ → Order) (front : List ℕ) (r : ℕ) (back : List ℕ)
    → (o r).prev ≡ last no_order front
    → (o r).next ≡ first back no_order
    → IsFresh no_order (front ++ r ∷ back)
    → ((x : ℕ) → (o' x).qty ≡ (o x).qty)
    → removed (summary o (front ++ r ∷ back)) (o r) ≡ summary o' (front ++ back)
unfolding removed sub_qty summary
removed-summary o o' front r back ep en nulls same = λ i. record {
  qty =
      (to_int64-sub (total o (front ++ r ∷ back)) (o r).qty
          ∙ ap to_int64 (
              total_removed o front r back
              ∙ sym (total-same o o' (front ++ back) (everywhere _ (front ++ back) same))))
        i;
  orders = count i;
  head = front_eq i;
  tail = back_eq i;
}
  where
    count : length (front ++ r ∷ back) - 1 ≡ length (front ++ back)
    count = omega (arith, length-append front (r ∷ back), length-append front back)

    null_front : IsFresh no_order front
    null_front = (All-split (λ x. (no_order == x) ≡ false) front (r ∷ back) nulls).0

    head_of :
        (xs : List ℕ)
        → (last no_order xs == no_order) ≡ false
        → first (xs ++ r ∷ back) no_order ≡ first (xs ++ back) no_order
    head_of [] e = cc e
    head_of (x ∷ xs) e = refl

    front_eq :
        (if (o r).prev == no_order then (o r).next else first (front ++ r ∷ back) no_order)
        ≡ first (front ++ back) no_order
    front_eq =
        rw (ep, en)
          (elim (Bool-cases (last no_order front == no_order)) [
            | inl e ↦
                rw e (ap (λ xs. first (xs ++ back) no_order) (sym (last-null o front null_front e)))
            | inr e ↦ rw e (head_of front e)
          ])

    tail_of :
        (ys : List ℕ)
        → IsFresh no_order ys
        → (if first ys no_order == no_order
            then last no_order front
            else last no_order (front ++ r ∷ ys))
          ≡ last no_order (front ++ ys)
    tail_of [] n = ap (last no_order) (sym (append-nil front))
    tail_of (y ∷ ys) (n, _) =
        let n' : (y == no_order) ≡ false = ground (arith, n) in
        rw n' (last-append no_order front (r ∷ y ∷ ys) ∙ sym (last-append no_order front (y ∷ ys)))

    back_eq :
        (if (o r).next == no_order then (o r).prev else last no_order (front ++ r ∷ back))
        ≡ last no_order (front ++ back)
    back_eq =
        rw (ep, en)
          (tail_of back (All-split (λ x. (no_order == x) ≡ false) front (r ∷ back) nulls).1.1)
