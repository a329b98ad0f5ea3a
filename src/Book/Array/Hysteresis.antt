-- ===== src/Book/Array/Hysteresis.antt =====
-- The trigger of the rebuild: how far the spill list can grow past the floor that the last rebuild
-- left behind.
use crossbook.Common.{ℕ, ◌+◌, ◌-◌, ◌≤◌, ◌<◌, ◌≡◌, inl, inr, refl, sym, ◌∙◌, subst, arith}
use crossbook.Common.{
  true, false, List, [], ◌∷◌, Option, none, some, ltb, ◌==◌, length, if_cases, if◌then◌else◌,
}
use crossbook.Types.{ask, Price, Qty, Level, is_zero, eq_ℤ, precedes}
use crossbook.Sequence.{inc64}
use crossbook.Book.Ladder.{update}
use crossbook.Book.Array.{
  ArraySide, mark_dirty, settle, place_all, recentred, advance_best, refill, rebuild_around_touch,
  spilled, apply_window, apply_overflow, apply_at, apply_anchored, apply, overflow_erase,
  overflow_rebuild_threshold,
}
use crossbook.Book.Array.Spill.{overflow_set-update, overflow_erase-update, length-spill}
use crossbook.Book.Array.Valid.{IsValid, levels, length-levels}
use crossbook.Book.Array.Rebuild.{for_each-push}
use crossbook.Book.Array.Update.{respilled-IsUpdated, anchored, anchored-IsValid}
use crossbook.Book.Array.Order.{slot_of, IsSlot, slot_of-IsSlot, window_index-slot_of}
use crossbook.Common.Int.{IsInt64}

-- The spill list holds the floor, and at most a threshold more.
abbrev pub IsBounded : ArraySide → Type 0
IsBounded x =
    (x.overflow_floor ≤ length x.overflow)
    × (length x.overflow ≤ x.overflow_floor + overflow_rebuild_threshold)

update-grows :
    (p : Price) (q : Qty) (ls : List Level)
    → is_zero q ≡ false
    → length ls ≤ length (update ask p q ls)
unfolding update
update-grows p q [] z = omega arith
update-grows p q (l ∷ ls) z = rw z (
    if_cases (λ (r : List Level). length (l ∷ ls) ≤ length r) (eq_ℤ l.price p) _ _
      (λ _. omega arith)
      (λ _.
        if_cases (λ (r : List Level). length (l ∷ ls) ≤ length r) (precedes ask p l.price) _ _
          (λ _. omega arith) (λ _. omega (arith, update-grows p q ls z))))

update-shrinks :
    (p : Price) (q : Qty) (ls : List Level)
    → is_zero q ≡ true
    → length (update ask p q ls) ≤ length ls
unfolding update
update-shrinks p q [] z = rw z (omega arith)
update-shrinks p q (l ∷ ls) z = rw z (
    if_cases (λ (r : List Level). length r ≤ length (l ∷ ls)) (eq_ℤ l.price p) _ _
      (λ _. omega arith)
      (λ _.
        if_cases (λ (r : List Level). length r ≤ length (l ∷ ls)) (precedes ask p l.price) _ _
          (λ _. omega arith) (λ _. omega (arith, update-shrinks p q ls z))))

-- Neither the spill list nor the floor moves.
abbrev Kept : ArraySide → ArraySide → Type 0
Kept x y = (y.overflow ≡ x.overflow) × (y.overflow_floor ≡ x.overflow_floor)

Kept-mark_dirty : (x y : ArraySide) (i : ℕ) → Kept x y → Kept x (mark_dirty y i)
Kept-mark_dirty x y i h = if_cases (Kept x) (ltb y.dirty_hi y.dirty_lo) _ _ (λ _. h) (λ _. h)

Kept-apply_window : (x : ArraySide) (i : ℕ) (q : Qty) → Kept x (apply_window x i q)
unfolding advance_best
Kept-apply_window x i q =
    if_cases (Kept x) (is_zero q) _ _
      (λ _.
        if_cases (Kept x) (is_zero (x.window i)) x _ (λ _. (refl, refl))
          (λ _.
            if_cases (Kept x) (i == x.best_index) _ _
              (λ _.
                if_cases (Kept x) (x.window_count - 1 == 0) _ _ (λ _. (refl, refl))
                  (λ _. (refl, refl)))
              (λ _. (refl, refl))))
      (λ _.
        Kept-mark_dirty x _ i
          (if_cases (Kept x) (is_zero (x.window i)) _ x (λ _. (refl, refl)) (λ _. (refl, refl))))

Kept-IsBounded : (x y : ArraySide) → IsBounded x → Kept x y → IsBounded y
Kept-IsBounded x y b (o, f) = rw (o, f) b

settle-IsBounded : (n : ℕ) (z : ArraySide) → IsBounded (settle n z)
settle-IsBounded n z =
    let same = length-spill z.side z.overflow in (omega (arith, same), omega (arith, same))

-- A rebuild makes what has spilled the new floor.
spilled-IsBounded :
    (x : ArraySide) → IsValid x → x.overflow_floor ≤ length x.overflow → IsBounded (spilled x)
unfolding rebuild_around_touch
spilled-IsBounded x v h =
    if_cases IsBounded (ltb (x.overflow_floor + overflow_rebuild_threshold) (length x.overflow)) _ x
      (λ t.
        subst (λ ls. IsBounded (refill (record x { rebuild_count = inc64 x.rebuild_count }) ls))
          (sym (for_each-push x v)) (full (levels x) (ground (arith, length-levels x v))))
      (λ f. (h, ground arith))
  where
    full :
        (ls : List Level)
        → 0 < length ls
        → IsBounded (refill (record x { rebuild_count = inc64 x.rebuild_count }) ls)
    full [] e = absurd (omega arith)
    full (l ∷ ls) e = settle-IsBounded (length x.overflow) (
        place_all (recentred (record x { rebuild_count = inc64 x.rebuild_count }) l.price) (l ∷ ls))

apply_overflow-IsBounded :
    (x : ArraySide) (p : Price) (q : Qty)
    → IsValid x
    → x.anchored ≡ true
    → IsInt64 p
    → IsSlot x.base x.slots p none
    → IsBounded x
    → IsBounded (apply_overflow x p q)
apply_overflow-IsBounded x p q v a r h (lo, hi) =
    if_cases IsBounded (is_zero q) _ _
      (λ z. erased (
        subst (λ ls. length ls ≤ length x.overflow) (sym (overflow_erase-update p q x.overflow z))
          (update-shrinks p q x.overflow z)))
      (λ z.
        subst (λ ls. IsBounded (spilled (record x { overflow = ls })))
          (sym (overflow_set-update p q x.overflow z))
          (spilled-IsBounded _ (respilled-IsUpdated x p q x.overflow_floor x.degraded v a r h).valid
            (omega (arith, update-grows p q x.overflow z))))
  where
    erased :
        length (overflow_erase p x.overflow) ≤ length x.overflow
        → IsBounded (record x {
          overflow = overflow_erase p x.overflow;
          overflow_floor =
              if ltb (length (overflow_erase p x.overflow)) x.overflow_floor
              then length (overflow_erase p x.overflow)
              else x.overflow_floor;
          degraded = if length (overflow_erase p x.overflow) == 0 then false else x.degraded;
        })
    erased k = ground (arith, k)

apply_anchored-IsBounded :
    (x : ArraySide) (p : Price) (q : Qty)
    → IsValid x
    → x.anchored ≡ true
    → IsInt64 p
    → IsBounded x
    → IsBounded (apply_anchored x p q)
apply_anchored-IsBounded x p q v a r b =
    subst (λ o. IsBounded (apply_at x p q o))
      (sym (window_index-slot_of x.base x.slots p v.windowed.fits r))
      (go (slot_of x.base x.slots p) (slot_of-IsSlot x.base x.slots p v.windowed.fits))
  where
    go : (o : Option ℕ) → IsSlot x.base x.slots p o → IsBounded (apply_at x p q o)
    go none h = apply_overflow-IsBounded x p q v a r h b
    go (some i) h = Kept-IsBounded x (apply_window x i q) b (Kept-apply_window x i q)

-- An update of an int64_t price keeps a valid side's spill list between the floor that the last
-- rebuild left behind and that floor and the threshold: past it a rebuild sets the floor anew.
pub apply-IsBounded :
    (x : ArraySide) (p : Price) (q : Qty)
    → IsValid x
    → IsInt64 p
    → IsBounded x
    → IsBounded (apply x p q)
unfolding apply
apply-IsBounded x p q v r b =
    if_cases IsBounded x.anchored _ _ (λ a. apply_anchored-IsBounded x p q v a r b)
      (λ n. elim v.unanchored [
        | inl a ↦ absurd (cc (sym a ∙ n))
        | inr (z, o) ↦
            if_cases IsBounded (is_zero q) x _ (λ _. b)
              (λ _.
                apply_anchored-IsBounded (anchored x p) p q (anchored-IsValid x p v r z o) refl r b)
      ])
