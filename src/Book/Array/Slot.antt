-- ===== src/Book/Array/Slot.antt =====
-- An update of one slot of the window keeps the window valid.
use crossbook.Common.{
  ℕ, ◌-◌, ◌≤◌, ◌<◌, ◌≡◌, ◌≢◌, ◌⊎◌, inl, inr, refl, sym, ap, ◌∙◌, subst, arith, ==_iff,
}
use crossbook.Common.{true, false, Option, none, some, ◌==◌, if_cases}
use crossbook.Common.Int.{pos}
use crossbook.Types.{Qty, is_zero}
use crossbook.Book.Array.{ArraySide, next_index, seek, store, advance_best, index_or_zero}
use crossbook.Book.Array.Order.{Closer, Closer-cases, ahead, ahead-le, Steps, next_index-Steps}
use crossbook.Book.Array.Walk.{From, IsCursor, next-From}
use crossbook.Book.Array.Seek.{Sought, seek-Sought}
use crossbook.Book.Array.Count.{count, count-store, count_none, count_some, occupied}
use crossbook.Book.Array.Valid.{IsWindowed, IsTouch}

-- Only the window, its count, its best index and its watermarks may differ.
abbrev pub SameFrame : ArraySide → ArraySide → Type 0
SameFrame x y =
    (y.side ≡ x.side)
    × (y.slots ≡ x.slots)
    × (y.base ≡ x.base)
    × (y.overflow ≡ x.overflow)
    × (y.anchored ≡ x.anchored)

pub SameFrame-refl : (x : ArraySide) → SameFrame x x
SameFrame-refl x = (refl, refl, refl, refl, refl)

-- The slot holds the new quantity, and the others what they held.
abbrev pub Stored : ArraySide → ℕ → Qty → ArraySide → Type 0
Stored x i q y = IsWindowed y × SameFrame x y × ((k : ℕ) → y.window k ≡ store x.window i q k)

pub store_self : (w : ℕ → Qty) (i : ℕ) (q : Qty) → store w i q i ≡ q
store_self w i q = ground arith

pub store_other : (w : ℕ → Qty) (i k : ℕ) (q : Qty) → k ≢ i → store w i q k ≡ w k
store_other w i k q n = ground arith

-- What holds of the new quantity and of the old ones holds of all.
pub store_cases :
    (P : Qty → Type 0) (w : ℕ → Qty) (i k : ℕ) (q : Qty) → P q → P (w k) → P (store w i q k)
store_cases P w i k q h g = if_cases P (k == i) q (w k) (λ _. h) (λ _. g)

module _ (x : ArraySide) (v : IsWindowed x) (i : ℕ) (h : i < x.slots) where
  pub occupied_count : is_zero (x.window i) ≡ false → 0 < x.window_count
  occupied_count n = subst (λ c. 0 < c) (sym v.counted) (count_some x.slots i x.window h n)

  pub has-IsTouch : is_zero (x.window i) ≡ false → IsTouch x.side x.slots x.window x.best_index
  has-IsTouch n = elim v.touch [ inl z ↦ absurd (omega (arith, occupied_count n)) | inr t ↦ t ]

  abbrev emptied : ℕ → Qty
  emptied = store x.window i (pos 0)

  abbrev cleared : ArraySide
  cleared = record x { window = store x.window i (pos 0); window_count = x.window_count - 1 }

  cleared_count : is_zero (x.window i) ≡ false → x.window_count - 1 ≡ count x.slots emptied
  cleared_count n =
      let stored = count-store x.slots i x.window (pos 0) h in
      let one : occupied (x.window i) ≡ 1 = rw n in omega (arith, stored, one, v.counted)

  cleared_written : (k : ℕ) → (is_zero (emptied k) ≡ true) ⊎ ((x.dirty_lo ≤ k) × (k ≤ x.dirty_hi))
  cleared_written k =
      store_cases (λ q. (is_zero q ≡ true) ⊎ ((x.dirty_lo ≤ k) × (k ≤ x.dirty_hi))) x.window i k
        (pos 0) (inl refl) (v.written k)

  -- What was empty stays empty.
  still_empty : (k : ℕ) → is_zero (x.window k) ≡ true → is_zero (emptied k) ≡ true
  still_empty k z = store_cases (λ q. is_zero q ≡ true) x.window i k (pos 0) refl z

  pub cleared-Stored : is_zero (x.window i) ≡ false → i ≢ x.best_index → Stored x i (pos 0) cleared
  cleared-Stored n d =
      let (l, m, f) = has-IsTouch n in
      (
        record {
          fits = v.fits;
          counted = cleared_count n;
          touch = inr (
            l,
            ap is_zero (store_other x.window i x.best_index (pos 0) (λ e. d (sym e))) ∙ m,
            λ k a c. still_empty k (f k a c),
          );
          written = cleared_written;
        },
        SameFrame-refl x,
        λ k. refl,
      )

  -- The best slot was emptied: the best index walks on.
  pub advanced :
      (n : is_zero (x.window i) ≡ false)
      → i ≡ x.best_index
      → Stored x i (pos 0) (advance_best cleared)
  unfolding advance_best
  advanced n e =
      if_cases (Stored x i (pos 0)) (cleared.window_count == 0) _ _
        (λ z. (
          record {
            fits = v.fits;
            counted = cleared_count n;
            touch = inl ((==_iff cleared.window_count 0).0 z);
            written = cleared_written;
          },
          SameFrame-refl x,
          λ k. refl,
        ))
        (λ z. (
          record {
            fits = v.fits;
            counted = cleared_count n;
            touch = inr (landed (seek x.slots x.side x.slots emptied start) (ground arith) sought);
            written = cleared_written;
          },
          SameFrame-refl x,
          λ k. refl,
        ))
    where
      start : Option ℕ
      start = next_index x.side x.slots x.best_index

      best_in : x.best_index < x.slots
      best_in = (has-IsTouch n).0

      steps : Steps x.side x.slots x.best_index start
      steps = next_index-Steps x.side x.slots x.best_index best_in

      in_range :
          (o : Option ℕ)
          → Steps x.side x.slots x.best_index o
          → IsCursor x.slots o × (ahead x.side x.slots o ≤ x.slots)
      in_range none t = (tt, omega arith)
      in_range (some j) t = (t.1, ahead-le x.side x.slots j t.1)

      sought :
          Sought x.side x.base x.slots emptied start (seek x.slots x.side x.slots emptied start)
      sought =
          seek-Sought x.side x.base x.slots emptied x.slots start (in_range start steps).1
            (in_range start steps).0

      -- No slot before the one that was found is occupied.
      before :
          (P : ℕ → Type 0)
          → ((k : ℕ) → k < x.slots → From x.side start k → P k → is_zero (emptied k) ≡ true)
          → (k : ℕ) → k < x.slots
          → P k
          → is_zero (emptied k) ≡ true
      before P g k l p = elim (Closer-cases x.side k x.best_index) [
        | inl q ↦ ap is_zero (ap emptied (q ∙ sym e) ∙ store_self x.window i (pos 0))
        | inr (inl c) ↦ still_empty k ((has-IsTouch n).2 k l c)
        | inr (inr c) ↦ g k l (next-From x.side x.slots x.best_index start k steps l c) p
      ]

      landed :
          (o : Option ℕ)
          → 0 < cleared.window_count
          → Sought x.side x.base x.slots emptied start o
          → IsTouch x.side x.slots emptied (index_or_zero o)
      landed none z (_, f) = absurd (
          omega (
            arith,
            cleared_count n,
            count_none x.slots emptied (λ k l. before (λ _. Unit {0}) (λ k l g _. f k l g) k l tt),
          ))
      landed (some j) z (l, m, _, _, f) = (l, m, before (λ k. Closer x.side k j) f)
