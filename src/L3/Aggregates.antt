-- ===== src/L3/Aggregates.antt =====
-- The sums and the queue of one price: those that a level of l3.hpp keeps, and those of the abstract
-- orders.
use crossbook.Common.{ℕ, suc, ◌≤◌, ◌≡◌, refl, sym, ap, ap₂, ◌∙◌, arith, length, All, subst}
use crossbook.Common.{Bool, true, inl, inr, Bool-cases, if◌then◌else◌, ◌==◌}
use crossbook.Common.{List, [], ◌∷◌, some, map}
use mathlib.Core.Option
use crossbook.Common.Int.{IsInt64, +ℤ_parts, to_int64, to_int64_id, pos_part, neg_part, ◌+ℤ◌}
use crossbook.Types.{Side, Price, Qty}
use crossbook.L3.{is_positive, Order, L3Level}
use crossbook.L3.Entries.{is_at}
use crossbook.L3.Queues.{queue, in_queue, total, expected, summary, is_at-eq}
use crossbook.L3.Spec.{Resting, ahead, at_price, sum_qty, aggregate, Fits}
use crossbook.L3.Valid.{resting}

-- A visitor's run over a list.
unfoldable pub visit_resting : (A : Type 0) → (A → Resting → A × Bool) → List Resting → A → A
visit_resting A g [] a = a
visit_resting A g (o ∷ os) a =
    let (a', more) = g a o in let rest = visit_resting A g os a' in if more then rest else a'

pub map-queue :
    (o : ℕ → Order) (s : Side) (p : Price) (rs : List ℕ)
    → map (resting o) (queue o s p rs) ≡ at_price s p (map (resting o) rs)
unfolding queue at_price
map-queue o s p [] = refl
map-queue o s p (r ∷ rs) = elim (Bool-cases (in_queue o s p r)) [
  | inl e ↦ rw e (ap (◌∷◌ (resting o r)) (map-queue o s p rs))
  | inr e ↦ rw e (map-queue o s p rs)
]

pub length-map : (o : ℕ → Order) (rs : List ℕ) → length (map (resting o) rs) ≡ length rs
length-map o [] = refl
length-map o (r ∷ rs) = ap suc (length-map o rs)

sum_qty-map : (o : ℕ → Order) (rs : List ℕ) → total o rs ≡ sum_qty (map (resting o) rs)
unfolding total sum_qty
sum_qty-map o [] = refl
sum_qty-map o (r ∷ rs) = ap (◌+ℤ◌ (o r).qty) (sum_qty-map o rs)

abbrev pub level_facts : L3Level → Qty × ℕ
level_facts l = (l.qty, l.orders)

pub aggregate-map :
    (o : ℕ → Order) (rs : List ℕ)
    → IsInt64 (sum_qty (map (resting o) rs))
    → Option.map level_facts (expected o rs) ≡ aggregate (map (resting o) rs)
unfolding expected summary aggregate
aggregate-map o [] h = refl
aggregate-map o (r ∷ rs) h = ap some (
    ap₂ (λ q n. (q, n))
      (ap to_int64 (sum_qty-map o (r ∷ rs)) ∙ to_int64_id (sum_qty (map (resting o) (r ∷ rs))) h)
      (sym (length-map o (r ∷ rs))))

-- Where all quantities are positive, what rests ahead is part of what rests at the price.
sum_positive : (a b : Qty) → neg_part a ≡ 0 → neg_part b ≡ 0 → neg_part (a +ℤ b) ≡ 0
unfolding ◌+ℤ◌
sum_positive a b h k = ground arith

pub ahead_le :
    (id : ℕ) (s : Side) (p : Price) (os : List Resting)
    → All (λ (o : Resting). is_positive o.qty ≡ true) os
    → (neg_part (ahead id s p os) ≡ 0)
      × (neg_part (sum_qty (at_price s p os)) ≡ 0)
      × (pos_part (ahead id s p os) ≤ pos_part (sum_qty (at_price s p os)))
unfolding ahead at_price sum_qty
ahead_le id s p [] h = (refl, refl, omega arith)
ahead_le id s p (o ∷ os) (q, h) =
    let (na, ns, le) = ahead_le id s p os h in
    let nq : neg_part o.qty ≡ 0 = ground (arith, q) in
    let more = sum_positive o.qty (ahead id s p os) nq na in
    let all = sum_positive o.qty (sum_qty (at_price s p os)) nq ns in
    elim (Bool-cases (is_at o.side o.price s p)) [
      | inr other ↦ rw other (elim (Bool-cases (o.id == id)) [
        | inl own ↦ rw own (refl, ns, omega arith)
        | inr e ↦ rw e (na, ns, le)
      ])
      | inl here ↦ rw here (elim (Bool-cases (o.id == id)) [
        | inl own ↦ rw own (refl, all, omega arith)
        | inr e ↦ rw e (
          more,
          all,
          omega
              (arith, +ℤ_parts o.qty (ahead id s p os), +ℤ_parts o.qty (sum_qty (at_price s p os))),
        )
      ])
    ]

-- Where the sums fit at the price of every order, they fit at every price.
fits_at :
    (s : Side) (p : Price) (os xs : List Resting)
    → All (λ (o : Resting). IsInt64 (sum_qty (at_price o.side o.price os))) xs
    → at_price s p xs ≡ at_price s p os
    → IsInt64 (sum_qty (at_price s p os))
unfolding at_price
fits_at s p os [] h e =
    subst (λ zs. IsInt64 (sum_qty zs)) e (unfold sum_qty in (omega arith, omega arith))
fits_at s p os (o ∷ xs) (f, h) e = elim (Bool-cases (is_at o.side o.price s p)) [
  | inr other ↦ fits_at s p os xs h (rw other at e)
  | inl here ↦
      let (es, ep) = is_at-eq o.side o.price s p here in
      subst (λ t. IsInt64 (sum_qty (at_price t p os))) es
        (subst (λ t. IsInt64 (sum_qty (at_price o.side t os))) ep f)
]

pub Fits-at :
    (os : List Resting) (s : Side) (p : Price) → Fits os → IsInt64 (sum_qty (at_price s p os))
Fits-at os s p h = fits_at s p os os h refl
