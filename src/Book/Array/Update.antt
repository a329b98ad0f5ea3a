-- ===== src/Book/Array/Update.antt =====
-- `apply` keeps the invariant of the array side, and updates its ladder.
use crossbook.Common.{ℕ, ◌+◌, ◌<◌, ◌≡◌, ◌≢◌, inl, inr, refl, sym, ap, ◌∙◌, subst, arith, ==_iff}
use crossbook.Common.{
  Bool, true, false, List, [], ◌∷◌, Option, none, some, if◌then◌else◌, Bool-cases, All, ltb, ◌==◌,
  if_cases, length,
}
use crossbook.Common.Int.{IsInt64}
use crossbook.Types.{ask, Price, Qty, Level, is_zero, eq_ℤ}
use crossbook.Book.Ladder.{qty_at, update, IsLadder, All-update, eq_ℤ-refl}
use crossbook.Book.Ladder.Laws.{update-IsLadder, qty_at-update, ladder_ext}
use crossbook.Book.Array.{
  ArraySide, price_at, anchor_for, overflow_rebuild_threshold, apply_window, apply_overflow,
  apply_at, apply_anchored, spilled, apply, rebuild_around_touch,
}
use crossbook.Book.Array.Order.{
  slot_of, IsSlot, slot_of-IsSlot, window_index-slot_of, anchor_for-IsWindow,
}
use crossbook.Book.Array.Spill.{overflow_set-update, overflow_erase-update}
use crossbook.Book.Array.Valid.{
  IsValid, levels, lookup, levels-IsLadder, qty_at-levels, length-levels, eq_ℤ-sym,
}
use crossbook.Book.Array.Slot.{Stored, store_self, store_other}
use crossbook.Book.Array.Insert.{apply_window-Stored}
use crossbook.Book.Array.Refill.{price_at-ne}
use crossbook.Book.Array.Rebuild.{IsRebuilt, rebuild_around_touch-IsRebuilt}

-- The side is valid, and stands for the updated ladder.
pub record IsUpdated (x : ArraySide) (p : Price) (q : Qty) (y : ArraySide) : Type 0 where
  pub valid : IsValid y
  pub side : y.side ≡ x.side
  pub same : levels y ≡ update x.side p q (levels x)

-- A side that holds the new quantity at its price, and the old ones elsewhere, is the updated one.
by_lookup :
    (x y : ArraySide) (p : Price) (q : Qty)
    → IsValid x
    → IsValid y
    → y.side ≡ x.side
    → ((t : Price) → lookup y t ≡ (if eq_ℤ p t then q else lookup x t))
    → IsUpdated x p q y
by_lookup x y p q v w s f = record {
  valid = w;
  side = s;
  same =
      ladder_ext x.side (levels y) (update x.side p q (levels x))
        (subst (λ s. IsLadder s (levels y)) s (levels-IsLadder y w))
        (update-IsLadder x.side p q (levels x) (levels-IsLadder x v))
        (λ t.
          qty_at-levels y t w
          ∙ f t
          ∙ sym (
              qty_at-update x.side p q (levels x) t (levels-IsLadder x v)
              ∙ ap (λ r. if eq_ℤ p t then q else r) (qty_at-levels x t v)));
}

-- A new quantity in the slot of the price.
Stored-IsUpdated :
    (x y : ArraySide) (i : ℕ) (q : Qty)
    → IsValid x
    → x.anchored ≡ true
    → i < x.slots
    → Stored x i q y
    → IsUpdated x (price_at x.base i) q y
Stored-IsUpdated x y i q v a h (w, (s, n, b, o, c), stored) =
    by_lookup x y (price_at x.base i) q v
      (record {
        windowed = w;
        ascending = subst (IsLadder ask) (sym o) v.ascending;
        outside = rw (o, b, n) v.outside;
        int64 = subst (All (λ (l : Level). IsInt64 l.price)) (sym o) v.int64;
        unanchored = inl (c ∙ a);
      })
      s
      (λ t.
        ap (λ b. elim (slot_of b y.slots t) [ none ↦ qty_at t y.overflow | some k ↦ y.window k ]) b
        ∙ ap (λ n. elim (slot_of x.base n t) [ none ↦ qty_at t y.overflow | some k ↦ y.window k ]) n
        ∙ ap (λ o. elim (slot_of x.base x.slots t) [ none ↦ qty_at t o | some k ↦ y.window k ]) o
        ∙ at t (slot_of x.base x.slots t) (slot_of-IsSlot x.base x.slots t v.windowed.fits))
  where
    at :
        (t : Price) (o : Option ℕ)
        → IsSlot x.base x.slots t o
        → (elim o [ none ↦ qty_at t x.overflow | some k ↦ y.window k ]) ≡ (
            if eq_ℤ (price_at x.base i) t
            then q
            else elim o [ none ↦ qty_at t x.overflow | some k ↦ x.window k ])
    at t none g = rw (g i h) refl
    at t (some k) (l, e) = elim (Bool-cases (k == i)) [
      | inl r ↦
          let same : k ≡ i = (==_iff k i).0 r in
          rw (sym e, same, eq_ℤ-refl (price_at x.base i)) (stored i ∙ store_self x.window i q)
      | inr r ↦
          let ne : k ≢ i = (λ m. ground (arith, m)) in
          rw (sym e, price_at-ne x.side x.base x.slots i k v.windowed.fits h l ne)
            (stored k ∙ store_other x.window i k q ne)
    ]

-- An update of the spill list, for a price without a slot.
abbrev pub respilled : ArraySide → List Level → ℕ → Bool → ArraySide
respilled x ls floor degraded = record x {
  overflow = ls;
  overflow_floor = floor;
  degraded = degraded;
}

pub respilled-IsUpdated :
    (x : ArraySide) (p : Price) (q : Qty) (floor : ℕ) (degraded : Bool)
    → IsValid x
    → x.anchored ≡ true
    → IsInt64 p
    → IsSlot x.base x.slots p none
    → IsUpdated x p q (respilled x (update ask p q x.overflow) floor degraded)
respilled-IsUpdated x p q floor degraded v a r h =
    by_lookup x (respilled x (update ask p q x.overflow) floor degraded) p q v
      (record {
        windowed = record {
          fits = v.windowed.fits;
          counted = v.windowed.counted;
          touch = v.windowed.touch;
          written = v.windowed.written;
        };
        ascending = update-IsLadder ask p q x.overflow v.ascending;
        outside =
            All-update (λ u. (k : ℕ) → k < x.slots → eq_ℤ (price_at x.base k) u ≡ false) ask p q
              x.overflow h v.outside;
        int64 = All-update IsInt64 ask p q x.overflow r v.int64;
        unanchored = inl a;
      })
      refl (λ t. at t (slot_of x.base x.slots t) (slot_of-IsSlot x.base x.slots t v.windowed.fits))
  where
    at :
        (t : Price) (o : Option ℕ)
        → IsSlot x.base x.slots t o
        → (elim o [ none ↦ qty_at t (update ask p q x.overflow) | some k ↦ x.window k ])
          ≡ (if eq_ℤ p t then q else elim o [ none ↦ qty_at t x.overflow | some k ↦ x.window k ])
    at t none g = qty_at-update ask p q x.overflow t v.ascending
    at t (some k) (l, e) = rw (eq_ℤ-sym t p (subst (λ u. eq_ℤ u p ≡ false) e (h k l))) refl

-- A rebuild after an update.
Rebuilt-IsUpdated :
    (x y z : ArraySide) (p : Price) (q : Qty)
    → IsUpdated x p q y
    → IsRebuilt y z
    → IsUpdated x p q z
Rebuilt-IsUpdated x y z p q u r = record {
  valid = r.valid;
  side = r.side ∙ u.side;
  same = r.same ∙ u.same;
}

spilled-IsUpdated :
    (x y : ArraySide) (p : Price) (q : Qty) → IsUpdated x p q y → IsUpdated x p q (spilled y)
spilled-IsUpdated x y p q u =
    if_cases (IsUpdated x p q)
      (ltb (y.overflow_floor + overflow_rebuild_threshold) (length y.overflow))
      (rebuild_around_touch y) y
      (λ _.
        Rebuilt-IsUpdated x y (rebuild_around_touch y) p q u
          (rebuild_around_touch-IsRebuilt y u.valid))
      (λ _. u)

apply_overflow-IsUpdated :
    (x : ArraySide) (p : Price) (q : Qty)
    → IsValid x
    → x.anchored ≡ true
    → IsInt64 p
    → IsSlot x.base x.slots p none
    → IsUpdated x p q (apply_overflow x p q)
apply_overflow-IsUpdated x p q v a r h =
    if_cases (IsUpdated x p q) (is_zero q) _ _
      (λ z.
        subst
          (λ ls. IsUpdated x p q (
            respilled x ls
              (if ltb (length ls) x.overflow_floor then length ls else x.overflow_floor)
              (if length ls == 0 then false else x.degraded)))
          (sym (overflow_erase-update p q x.overflow z)) (respilled-IsUpdated x p q _ _ v a r h))
      (λ z.
        subst (λ ls. IsUpdated x p q (spilled (record x { overflow = ls })))
          (sym (overflow_set-update p q x.overflow z))
          (spilled-IsUpdated x _ p q
            (respilled-IsUpdated x p q x.overflow_floor x.degraded v a r h)))

apply_anchored-IsUpdated :
    (x : ArraySide) (p : Price) (q : Qty)
    → IsValid x
    → x.anchored ≡ true
    → IsInt64 p
    → IsUpdated x p q (apply_anchored x p q)
apply_anchored-IsUpdated x p q v a r =
    subst (λ o. IsUpdated x p q (apply_at x p q o))
      (sym (window_index-slot_of x.base x.slots p v.windowed.fits r))
      (go (slot_of x.base x.slots p) (slot_of-IsSlot x.base x.slots p v.windowed.fits))
  where
    go : (o : Option ℕ) → IsSlot x.base x.slots p o → IsUpdated x p q (apply_at x p q o)
    go none h = apply_overflow-IsUpdated x p q v a r h
    go (some i) (h, e) =
        subst (λ p. IsUpdated x p q (apply_window x i q)) e
          (Stored-IsUpdated x (apply_window x i q) i q v a h
            (apply_window-Stored x i q v.windowed h))

pub levels_nil : (x : ArraySide) → IsValid x → x.window_count ≡ 0 → x.overflow ≡ [] → levels x ≡ []
levels_nil x v z o = none_of (levels x) (length-levels x v ∙ rw (z, o) refl)
  where
    none_of : (ls : List Level) → length ls ≡ 0 → ls ≡ []
    none_of [] e = refl
    none_of (l ∷ ls) e = absurd (omega (arith, e))

-- The first level of an empty side puts the window around its price.
abbrev pub anchored : ArraySide → Price → ArraySide
anchored x p = record x { base = anchor_for x.slots p; anchored = true }

pub anchored-IsValid :
    (x : ArraySide) (p : Price)
    → IsValid x
    → IsInt64 p
    → x.window_count ≡ 0
    → x.overflow ≡ []
    → IsValid (anchored x p)
anchored-IsValid x p v r z o = record {
  windowed = record {
    fits = anchor_for-IsWindow x.slots p v.windowed.fits.1 r;
    counted = v.windowed.counted;
    touch = inl z;
    written = v.windowed.written;
  };
  ascending = v.ascending;
  outside = rw o tt;
  int64 = v.int64;
  unanchored = inl refl;
}

-- An update keeps the invariant, and updates the ladder.
pub apply-IsUpdated :
    (x : ArraySide) (p : Price) (q : Qty) → IsValid x → IsInt64 p → IsUpdated x p q (apply x p q)
unfolding apply update
apply-IsUpdated x p q v r =
    if_cases (IsUpdated x p q) x.anchored _ _ (λ a. apply_anchored-IsUpdated x p q v a r)
      (λ n. elim v.unanchored [
        | inl a ↦ absurd (cc (sym a ∙ n))
        | inr (z, o) ↦ if_cases (IsUpdated x p q) (is_zero q) x _ (unchanged z o) (λ _. first z o)
      ])
  where
    unchanged : x.window_count ≡ 0 → x.overflow ≡ [] → is_zero q ≡ true → IsUpdated x p q x
    unchanged z o e = record { valid = v; side = refl; same = rw (levels_nil x v z o, e) refl }

    first :
        x.window_count ≡ 0 → x.overflow ≡ [] → IsUpdated x p q (apply_anchored (anchored x p) p q)
    first z o =
        let valid = anchored-IsValid x p v r z o in
        let u = apply_anchored-IsUpdated (anchored x p) p q valid refl r in
        record {
          valid = u.valid;
          side = u.side;
          same =
              u.same
              ∙ ap (update x.side p q)
                  (levels_nil (anchored x p) valid z o ∙ sym (levels_nil x v z o));
        }
