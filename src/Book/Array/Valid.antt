-- ===== src/Book/Array/Valid.antt =====
-- The invariant of the array side, the ladder that it stands for, and its quantities.
use crossbook.Common.{ℕ, ◌+◌, ◌≤◌, ◌<◌, ◌≡◌, ◌⊎◌, inl, inr, refl, sym, ap, ◌∙◌, subst, arith}
use crossbook.Common.{
  Bool, true, false, List, [], Option, none, some, if◌then◌else◌, All, Bool-cases, length, ltb,
  ◌&&◌,
}
use crossbook.Common.Int.{ℤ, IsInt64}
use crossbook.Types.{Side, ask, Price, Qty, Level, eq_ℤ, is_zero}
use crossbook.Book.Ladder.{qty_at, IsLadder}
use crossbook.Book.Ladder.Laws.{is_zero-eq}
use crossbook.Book.Array.{ArraySide, price_at, spill}
use crossbook.Book.Array.Order.{
  Closer, Closer-cases, Closer-trans, IsWindow, IsSlot, slot_of, slot_of-IsSlot, price_at-IsInt64,
}
use crossbook.Book.Array.Walk.{
  IsCursor, rest, rest_none, rest-IsInside, rest-IsLadder, qty_at-rest, qty_at-rest_before,
}
use crossbook.Book.Array.Count.{count, count_some, length-rest}
use crossbook.Book.Array.Merge.{
  merge, All-map, All-merge, qty_at-Misses, Apart, merge-IsLadder, qty_at-merge_left,
  qty_at-merge_right, length-merge,
}
use crossbook.Book.Array.Spill.{All-spill, spill-IsLadder, qty_at-spill, length-spill}

-- The best index is the occupied slot nearest the touch.
abbrev pub IsTouch : Side → ℕ → (ℕ → Qty) → ℕ → Type 0
IsTouch s slots w best =
    (best < slots)
    × (is_zero (w best) ≡ false)
    × ((k : ℕ) → k < slots → Closer s k best → is_zero (w k) ≡ true)

-- The window: it fits int64_t, its slots are counted, the best index is the touch, and the slots
-- that have been written lie between the two watermarks.
pub record IsWindowed (x : ArraySide) : Type 0 where
  pub fits : IsWindow x.base x.slots
  pub counted : x.window_count ≡ count x.slots x.window
  pub touch : (x.window_count ≡ 0) ⊎ IsTouch x.side x.slots x.window x.best_index
  pub written : (k : ℕ) → (is_zero (x.window k) ≡ true) ⊎ ((x.dirty_lo ≤ k) × (k ≤ x.dirty_hi))

-- A level that has no slot in the window.
abbrev pub IsOutside : ℤ → ℕ → Level → Type 0
IsOutside base slots l = (k : ℕ) → k < slots → eq_ℤ (price_at base k) l.price ≡ false

pub record IsValid (x : ArraySide) : Type 0 where
  pub windowed : IsWindowed x
  pub ascending : IsLadder ask x.overflow
  pub outside : All (IsOutside x.base x.slots) x.overflow
  pub int64 : All (λ (l : Level). IsInt64 l.price) x.overflow
  pub unanchored : (x.anchored ≡ true) ⊎ ((x.window_count ≡ 0) × (x.overflow ≡ []))

abbrev pub cursor : ArraySide → Option ℕ
cursor x = if x.anchored && ltb 0 x.window_count then some x.best_index else none

unfoldable pub window_levels : ArraySide → List Level
window_levels x = rest x.side x.base x.slots x.window (cursor x)

-- The ladder that an array side stands for.
unfoldable pub levels : ArraySide → List Level
unfolding window_levels
levels x = merge x.side (window_levels x) (spill x.side x.overflow)

-- The quantity at a price: of its slot, or of the spill list.
abbrev pub lookup : ArraySide → Price → Qty
lookup x t = elim (slot_of x.base x.slots t) [ none ↦ qty_at t x.overflow | some k ↦ x.window k ]

-- The two cases of the cursor.
pub cursor_cases :
    (x : ArraySide)
    → IsValid x
    → ((cursor x ≡ none) × (x.window_count ≡ 0))
      ⊎ ((cursor x ≡ some x.best_index) × IsTouch x.side x.slots x.window x.best_index)
cursor_cases x v = elim v.windowed.touch [ inl z ↦ inl (empty z, z) | inr t ↦ inr (full t, t) ]
  where
    empty : x.window_count ≡ 0 → cursor x ≡ none
    empty z = rw z (both x.anchored)
      where
        both : (b : Bool) → (if b && ltb 0 0 then some x.best_index else none) ≡ none
        both true = refl
        both false = refl

    full : IsTouch x.side x.slots x.window x.best_index → cursor x ≡ some x.best_index
    full (l, n, _) =
        let counted : 0 < x.window_count =
          subst (λ c. 0 < c) (sym v.windowed.counted)
            (count_some x.slots x.best_index x.window l n) in
        elim v.unanchored [ inl a ↦ rw a (ground arith) | inr (z, _) ↦ absurd (omega (arith, z)) ]

pub cursor-IsCursor : (x : ArraySide) → IsValid x → IsCursor x.slots (cursor x)
cursor-IsCursor x v = elim (cursor_cases x v) [ inl (e, _) ↦ rw e tt | inr (e, t) ↦ rw e t.0 ]

pub length-window_levels : (x : ArraySide) → IsValid x → length (window_levels x) ≡ x.window_count
unfolding window_levels
length-window_levels x v = elim (cursor_cases x v) [
  | inl (e, z) ↦
      ap (λ o. length (rest x.side x.base x.slots x.window o)) e
      ∙ ap length (rest_none x.side x.base x.slots x.window)
      ∙ sym z
  | inr (e, (l, n, f)) ↦
      ap (λ o. length (rest x.side x.base x.slots x.window o)) e
      ∙ length-rest x.base x.slots x.window x.side x.best_index l f
      ∙ sym v.windowed.counted
]

pub empty_slot :
    (x : ArraySide) (k : ℕ)
    → IsWindowed x
    → x.window_count ≡ 0
    → k < x.slots
    → is_zero (x.window k) ≡ true
empty_slot x k v z l = elim (Bool-cases (is_zero (x.window k))) [
  | inl e ↦ e
  | inr e ↦ absurd (omega (arith, count_some x.slots k x.window l e, v.counted, z))
]

qty_at-window_levels :
    (x : ArraySide) (k : ℕ)
    → IsValid x
    → k < x.slots
    → qty_at (price_at x.base k) (window_levels x) ≡ x.window k
unfolding window_levels
qty_at-window_levels x k v l = elim (cursor_cases x v) [
  | inl (e, z) ↦
      ap (λ o. qty_at (price_at x.base k) (rest x.side x.base x.slots x.window o)) e
      ∙ ap (qty_at (price_at x.base k)) (rest_none x.side x.base x.slots x.window)
      ∙ qty_at-Misses (price_at x.base k) [] tt
      ∙ sym (is_zero-eq (x.window k) (empty_slot x k v.windowed z l))
  | inr (e, (m, n, f)) ↦
      ap (λ o. qty_at (price_at x.base k) (rest x.side x.base x.slots x.window o)) e
      ∙ (elim (Closer-cases x.side k x.best_index) [
        | inl q ↦
            qty_at-rest x.side x.base x.slots x.window v.windowed.fits (some x.best_index) m k l
              (inl q)
        | inr (inr c) ↦
            qty_at-rest x.side x.base x.slots x.window v.windowed.fits (some x.best_index) m k l
              (inr c)
        | inr (inl c) ↦
            qty_at-rest_before x.side x.base x.slots x.window v.windowed.fits (some x.best_index) k
              m l
              (λ j g. elim g [
                | inl q ↦ subst (Closer x.side k) (sym q) c
                | inr d ↦ Closer-trans x.side k x.best_index j c d
              ])
            ∙ sym (is_zero-eq (x.window k) (f k l c))
      ])
]

pub eq_ℤ-sym : (a b : ℤ) → eq_ℤ a b ≡ false → eq_ℤ b a ≡ false
eq_ℤ-sym a b h = ground arith

-- Every window level stands in a slot.
abbrev pub IsInWindow : ℤ → ℕ → Level → Type 0
IsInWindow base slots m = (k : ℕ) × (k < slots) × (m.price ≡ price_at base k)

window_levels-IsInWindow :
    (x : ArraySide) → IsValid x → All (IsInWindow x.base x.slots) (window_levels x)
unfolding window_levels
window_levels-IsInWindow x v =
    rest-IsInside x.side x.base x.slots x.window v.windowed.fits (cursor x) (cursor-IsCursor x v)

levels-Apart : (x : ArraySide) → IsValid x → Apart (window_levels x) (spill x.side x.overflow)
levels-Apart x v =
    All-map (IsInWindow x.base x.slots)
      (λ (m : Level). All (λ (n : Level). eq_ℤ m.price n.price ≡ false) (spill x.side x.overflow))
      (λ (m : Level) (k, l, e).
        All-map (IsOutside x.base x.slots) (λ (n : Level). eq_ℤ m.price n.price ≡ false)
          (λ (n : Level) o. subst (λ p. eq_ℤ p n.price ≡ false) (sym e) (o k l))
          (spill x.side x.overflow)
          (All-spill (IsOutside x.base x.slots) x.side x.overflow v.outside))
      (window_levels x) (window_levels-IsInWindow x v)

pub levels-IsLadder : (x : ArraySide) → IsValid x → IsLadder x.side (levels x)
unfolding levels window_levels
levels-IsLadder x v =
    merge-IsLadder x.side (window_levels x) (spill x.side x.overflow)
      (rest-IsLadder x.side x.base x.slots x.window v.windowed.fits (cursor x)
        (cursor-IsCursor x v))
      (spill-IsLadder x.side x.overflow v.ascending) (levels-Apart x v)

pub levels-IsInt64 : (x : ArraySide) → IsValid x → All (λ (l : Level). IsInt64 l.price) (levels x)
unfolding levels
levels-IsInt64 x v =
    All-merge (λ l. IsInt64 l.price) x.side (window_levels x) (spill x.side x.overflow)
      (All-map (IsInWindow x.base x.slots) (λ (m : Level). IsInt64 m.price)
        (λ (m : Level) (k, l, e).
          subst IsInt64 (sym e) (price_at-IsInt64 x.base x.slots k v.windowed.fits l))
        (window_levels x) (window_levels-IsInWindow x v))
      (All-spill (λ l. IsInt64 l.price) x.side x.overflow v.int64)

pub length-levels :
    (x : ArraySide) → IsValid x → length (levels x) ≡ x.window_count + length x.overflow
unfolding levels
length-levels x v = omega (
  arith,
  length-merge x.side (window_levels x) (spill x.side x.overflow),
  length-window_levels x v,
  length-spill x.side x.overflow,
)

-- The ladder holds what the window and the spill list hold.
pub qty_at-levels : (x : ArraySide) (t : Price) → IsValid x → qty_at t (levels x) ≡ lookup x t
unfolding levels
qty_at-levels x t v =
    go (slot_of x.base x.slots t) (slot_of-IsSlot x.base x.slots t v.windowed.fits)
  where
    go :
        (o : Option ℕ)
        → IsSlot x.base x.slots t o
        → qty_at t (merge x.side (window_levels x) (spill x.side x.overflow))
          ≡ (elim o [ none ↦ qty_at t x.overflow | some k ↦ x.window k ])
    go none f =
        qty_at-merge_right t x.side (window_levels x) (spill x.side x.overflow) (
          All-map (IsInWindow x.base x.slots) (λ (m : Level). eq_ℤ m.price t ≡ false)
            (λ (m : Level) (k, l, e). subst (λ p. eq_ℤ p t ≡ false) (sym e) (f k l))
            (window_levels x) (window_levels-IsInWindow x v))
        ∙ qty_at-spill x.side t x.overflow v.ascending
    go (some k) (l, e) =
        qty_at-merge_left t x.side (window_levels x) (spill x.side x.overflow) (
          All-map (IsOutside x.base x.slots) (λ (m : Level). eq_ℤ m.price t ≡ false)
            (λ (m : Level) o. eq_ℤ-sym t m.price (subst (λ p. eq_ℤ p m.price ≡ false) e (o k l)))
            (spill x.side x.overflow)
            (All-spill (IsOutside x.base x.slots) x.side x.overflow v.outside))
        ∙ subst (λ p. qty_at p (window_levels x) ≡ x.window k) e (qty_at-window_levels x k v l)
