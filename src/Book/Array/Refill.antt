-- ===== src/Book/Array/Refill.antt =====
-- The refill of a rebuild: every level of a ladder back into the window or behind the spill list.
use crossbook.Common.{
  ℕ, ◌<◌, ◌≡◌, ◌≢◌, ◌⊎◌, inl, inr, refl, sym, ap, ◌∙◌, subst, arith, ==_iff, append_assoc,
  append-nil,
}
use crossbook.Common.{
  true, false, List, [], ◌∷◌, ◌++◌, Option, none, some, if◌then◌else◌, Bool-cases, All, ◌==◌,
}
use crossbook.Common.Int.{ℤ, IsInt64}
use crossbook.Types.{Side, Price, Qty, Level, is_zero, eq_ℤ, Before}
use crossbook.Book.Ladder.{qty_at, IsLadder, eq_ℤ-refl}
use crossbook.Book.Ladder.Laws.{qty_at-after, Before-irrefl, Before-ne}
use crossbook.Book.Array.{ArraySide, price_at, window_index, place_at, place, place_all}
use crossbook.Book.Array.Order.{
  Closer-cases, IsWindow, slot_of, IsSlot, slot_of-IsSlot, window_index-slot_of, price_at-Before,
}
use crossbook.Book.Array.Valid.{IsWindowed, IsOutside, eq_ℤ-sym}
use crossbook.Book.Array.Slot.{Stored, store_self, store_other}
use crossbook.Book.Array.Place.{Leads, place_inside}

abbrev pub keep : Option ℕ → Level → List Level → List Level
keep none l ls = l ∷ ls
keep (some i) l ls = ls

-- The levels that have no slot.
unfoldable pub outside_of : ℤ → ℕ → List Level → List Level
outside_of base slots [] = []
outside_of base slots (l ∷ ls) = keep (slot_of base slots l.price) l (outside_of base slots ls)

-- The quantity of a slot whose price is `t`, after the levels have been placed.
abbrev pub after : Price → List Level → Qty → Qty
after t ls old = if is_zero (qty_at t ls) then old else qty_at t ls

pub record IsRefilled (y : ArraySide) (ls : List Level) (z : ArraySide) : Type 0 where
  pub windowed : IsWindowed z
  pub side : z.side ≡ y.side
  pub slots : z.slots ≡ y.slots
  pub base : z.base ≡ y.base
  pub anchored : z.anchored ≡ y.anchored
  pub overflow : z.overflow ≡ y.overflow ++ outside_of y.base y.slots ls
  pub stored : (k : ℕ) → k < y.slots → z.window k ≡ after (price_at y.base k) ls (y.window k)

-- Two slots have two prices.
pub price_at-ne :
    (s : Side) (base : ℤ) (slots i k : ℕ)
    → IsWindow base slots
    → i < slots
    → k < slots
    → k ≢ i
    → eq_ℤ (price_at base i) (price_at base k) ≡ false
price_at-ne s base slots i k h hi hk n = elim (Closer-cases s k i) [
  | inl e ↦ absurd (n e)
  | inr (inl c) ↦
      Before-ne s (price_at base k) (price_at base i) (price_at-Before s base slots k i h hk hi c)
  | inr (inr c) ↦
      Before-irrefl s (price_at base i) (price_at base k)
        (price_at-Before s base slots i k h hi hk c)
]

-- The level has a slot.
module _ (y w z : ArraySide) (l : Level) (ls : List Level) (i : ℕ) (v : IsWindowed y)
    (nz : is_zero l.qty ≡ false) (b : All (λ (m : Level). Before y.side l.price m.price) ls)
    (h : i < y.slots) (e : price_at y.base i ≡ l.price) (st : Stored y i l.qty w) where
  Leads-inside : Leads y (l ∷ ls) → Leads w ls
  Leads-inside lead k lt =
      let (_, (s, n, base, _, _), written) = st in
      elim (Bool-cases (k == i)) [
        | inl q ↦ let same : k ≡ i = (==_iff k i).0 q in inr (rw (s, base, same, e) b)
        | inr q ↦ elim (lead k (subst (λ n. k < n) n lt)) [
          | inl empty ↦ inl (
              ap is_zero (written k ∙ store_other y.window i k l.qty (λ p. ground (arith, p)))
              ∙ empty)
          | inr (_, r) ↦ inr (rw (s, base) r)
        ]
      ]

  stored_inside :
      (k : ℕ)
      → k < y.slots
      → after (price_at y.base k) ls (w.window k) ≡ after (price_at y.base k) (l ∷ ls) (y.window k)
  unfolding qty_at
  stored_inside k lt = elim (Bool-cases (k == i)) [
    | inl q ↦
        let same : k ≡ i = (==_iff k i).0 q in
        rw (same, e, qty_at-after y.side l.price ls b, eq_ℤ-refl l.price, nz)
          (st.2 i ∙ store_self y.window i l.qty)
    | inr q ↦
        let ne : k ≢ i = (λ p. ground (arith, p)) in
        rw (sym e, price_at-ne y.side y.base y.slots i k v.fits h lt ne)
          (ap (after (price_at y.base k) ls) (st.2 k ∙ store_other y.window i k l.qty ne))
  ]

  IsRefilled-inside :
      slot_of y.base y.slots l.price ≡ some i → IsRefilled w ls z → IsRefilled y (l ∷ ls) z
  unfolding outside_of
  IsRefilled-inside slot r =
      let (_, (s, n, base, ov, an), _) = st in
      record {
        windowed = r.windowed;
        side = r.side ∙ s;
        slots = r.slots ∙ n;
        base = r.base ∙ base;
        anchored = r.anchored ∙ an;
        overflow = rw slot (r.overflow ∙ rw (ov, base, n) refl);
        stored = λ k lt.
            r.stored k (subst (λ n. k < n) (sym n) lt)
            ∙ ap (λ c. after (price_at c k) ls (w.window k)) base
            ∙ stored_inside k lt;
      }

-- The level has no slot.
IsRefilled-outside :
    (y z : ArraySide) (l : Level) (ls : List Level)
    → slot_of y.base y.slots l.price ≡ none
    → IsOutside y.base y.slots l
    → IsRefilled (place_at y l none) ls z
    → IsRefilled y (l ∷ ls) z
unfolding outside_of qty_at
IsRefilled-outside y z l ls slot o r = record {
  windowed = r.windowed;
  side = r.side;
  slots = r.slots;
  base = r.base;
  anchored = r.anchored;
  overflow = rw slot (r.overflow ∙ append_assoc y.overflow (l ∷ []) (outside_of y.base y.slots ls));
  stored = λ k lt. rw (eq_ℤ-sym (price_at y.base k) l.price (o k lt)) (r.stored k lt);
}

pub place_all-IsRefilled :
    (y : ArraySide) (ls : List Level)
    → IsWindowed y
    → IsLadder y.side ls
    → All (λ (l : Level). IsInt64 l.price) ls
    → Leads y ls
    → IsRefilled y ls (place_all y ls)
unfolding place_all outside_of qty_at
place_all-IsRefilled y [] v h r lead = record {
  windowed = v;
  side = refl;
  slots = refl;
  base = refl;
  anchored = refl;
  overflow = sym (append-nil y.overflow);
  stored = λ k lt. refl;
}
place_all-IsRefilled y (l ∷ ls) v (nz, b, h) (r, rs) lead =
    go (slot_of y.base y.slots l.price) refl (slot_of-IsSlot y.base y.slots l.price v.fits)
      (λ w. place_all-IsRefilled w ls)
  where
    found :
        (o : Option ℕ)
        → slot_of y.base y.slots l.price ≡ o
        → window_index y.base y.slots l.price ≡ o
    found o e = window_index-slot_of y.base y.slots l.price v.fits r ∙ e

    leads_on :
        (k : ℕ)
        → (is_zero (y.window k) ≡ true)
          ⊎ All (λ (m : Level). Before y.side (price_at y.base k) m.price) (l ∷ ls)
        → (is_zero (y.window k) ≡ true)
          ⊎ All (λ (m : Level). Before y.side (price_at y.base k) m.price) ls
    leads_on k (inl z) = inl z
    leads_on k (inr (_, m)) = inr m

    go :
        (o : Option ℕ)
        → slot_of y.base y.slots l.price ≡ o
        → IsSlot y.base y.slots l.price o
        → ((w : ArraySide)
            → IsWindowed w
            → IsLadder w.side ls
            → All (λ (l : Level). IsInt64 l.price) ls
            → Leads w ls
            → IsRefilled w ls (place_all w ls))
        → IsRefilled y (l ∷ ls) (place_all (place y l) ls)
    go none e o next =
        subst (λ o. IsRefilled y (l ∷ ls) (place_all (place_at y l o) ls)) (sym (found none e))
          (IsRefilled-outside y _ l ls e o (
            next (place_at y l none)
              (record { fits = v.fits; counted = v.counted; touch = v.touch; written = v.written })
              h rs (λ k m. leads_on k (lead k m))))
    go (some i) e (lt, p) next =
        let st = place_inside y l ls i v nz lead lt p (found (some i) e) in
        IsRefilled-inside y (place y l) _ l ls i v nz b lt p st e (
          next (place y l) st.0 (rw (st.1.0) h) rs
            (Leads-inside y (place y l) (place y l) l ls i v nz b lt p st lead))
