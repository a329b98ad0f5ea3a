-- ===== src/Book/Array/Insert.antt =====
-- A new quantity in a slot of the window, and the update of a slot as a whole.
use crossbook.Common.{
  ℕ, ◌+◌, ◌≤◌, ◌<◌, ◌≡◌, ◌≢◌, ◌⊎◌, inl, inr, refl, sym, ap, ◌∙◌, subst, arith, ==_iff,
}
use crossbook.Common.{Bool, true, false, if◌then◌else◌, Bool-cases, ltb, ◌==◌, ◌||◌, if_cases}
use crossbook.Common.Int.{pos}
use crossbook.Types.{Qty, is_zero}
use crossbook.Book.Ladder.Laws.{is_zero-eq}
use crossbook.Book.Array.{ArraySide, store, mark_dirty, apply_window, better_index}
use crossbook.Book.Array.Order.{
  Closer, Closer-trans, Closer-irrefl, Closer-better, better-Closer, IsWindow,
}
use crossbook.Book.Array.Count.{count, count-store, occupied}
use crossbook.Book.Array.Valid.{IsWindowed, IsTouch, empty_slot}
use crossbook.Book.Array.Slot.{
  SameFrame, SameFrame-refl, Stored, store_self, store_other, store_cases,
}
use crossbook.Book.Array.Slot.{has-IsTouch, cleared-Stored, advanced}

-- The window after a store, before the watermarks are widened.
pub record IsUnmarked (x : ArraySide) (i : ℕ) (q : Qty) (y : ArraySide) : Type 0 where
  pub fits : IsWindow y.base y.slots
  pub counted : y.window_count ≡ count y.slots y.window
  pub touch : (y.window_count ≡ 0) ⊎ IsTouch y.side y.slots y.window y.best_index
  pub same : SameFrame x y
  pub stored : (k : ℕ) → y.window k ≡ store x.window i q k
  pub marks : (y.dirty_lo ≡ x.dirty_lo) × (y.dirty_hi ≡ x.dirty_hi)

-- Widening the watermarks to a slot that was stored makes the window valid.
pub marked :
    (x : ArraySide) (i : ℕ) (q : Qty) (y : ArraySide)
    → ((k : ℕ) → (is_zero (x.window k) ≡ true) ⊎ ((x.dirty_lo ≤ k) × (k ≤ x.dirty_hi)))
    → IsUnmarked x i q y
    → Stored x i q (mark_dirty y i)
marked x i q y v u =
    if_cases (Stored x i q) (ltb y.dirty_hi y.dirty_lo) _ _
      (λ e. (
        valid (record y { dirty_lo = i; dirty_hi = i }) u.counted u.touch u.fits (written e),
        u.same,
        u.stored,
      ))
      (λ e. (valid _ u.counted u.touch u.fits (widened e), u.same, u.stored))
  where
    valid :
        (z : ArraySide)
        → z.window_count ≡ count z.slots z.window
        → (z.window_count ≡ 0) ⊎ IsTouch z.side z.slots z.window z.best_index
        → IsWindow z.base z.slots
        → ((k : ℕ) → (is_zero (z.window k) ≡ true) ⊎ ((z.dirty_lo ≤ k) × (k ≤ z.dirty_hi)))
        → IsWindowed z
    valid z c t f w = record { fits = f; counted = c; touch = t; written = w }

    by_slot :
        (lo hi k : ℕ)
        → (k ≡ i → (lo ≤ k) × (k ≤ hi))
        → ((x.dirty_lo ≤ k) × (k ≤ x.dirty_hi) → (lo ≤ k) × (k ≤ hi))
        → (is_zero (y.window k) ≡ true) ⊎ ((lo ≤ k) × (k ≤ hi))
    by_slot lo hi k f g = elim (Bool-cases (k == i)) [
      | inl e ↦ inr (f ((==_iff k i).0 e))
      | inr e ↦ elim (v k) [
        | inl z ↦
            inl (ap is_zero (u.stored k ∙ store_other x.window i k q (λ p. ground (arith, p))) ∙ z)
        | inr m ↦ inr (g m)
      ]
    ]

    written :
        ltb y.dirty_hi y.dirty_lo ≡ true
        → (k : ℕ) → (is_zero (y.window k) ≡ true) ⊎ ((i ≤ k) × (k ≤ i))
    written e k =
        by_slot i i k (λ q. (omega (arith, q), omega (arith, q)))
          (λ m. ground (arith, u.marks.0, u.marks.1))

    widened :
        ltb y.dirty_hi y.dirty_lo ≡ false
        → (k : ℕ)
        → (is_zero (y.window k) ≡ true)
          ⊎ (((if ltb i y.dirty_lo then i else y.dirty_lo) ≤ k)
              × (k ≤ (if ltb y.dirty_hi i then i else y.dirty_hi)))
    widened e k =
        by_slot (if ltb i y.dirty_lo then i else y.dirty_lo)
          (if ltb y.dirty_hi i then i else y.dirty_hi) k (λ q. ground (arith, q))
          (λ m. ground (arith, u.marks.0, u.marks.1))

module _ (x : ArraySide) (v : IsWindowed x) (i : ℕ) (q : Qty) (h : i < x.slots)
    (nz : is_zero q ≡ false) where
  abbrev filled : ℕ → Qty
  filled = store x.window i q

  -- Another slot that was empty stays empty.
  pub empty_elsewhere : (k : ℕ) → k ≢ i → is_zero (x.window k) ≡ true → is_zero (filled k) ≡ true
  empty_elsewhere k n z = ap is_zero (store_other x.window i k q n) ∙ z

  -- The touch stays where it is, unless the slot comes before it.
  pub IsTouch-stays :
      IsTouch x.side x.slots x.window x.best_index
      → (Closer x.side i x.best_index → ⊥)
      → IsTouch x.side x.slots filled x.best_index
  IsTouch-stays (l, m, f) n = (
    l,
    store_cases (λ p. is_zero p ≡ false) x.window i x.best_index q nz m,
    λ k a c. empty_elsewhere k (λ e. n (subst (λ k. Closer x.side k x.best_index) e c)) (f k a c),
  )

  pub IsTouch-moves :
      ((k : ℕ) → k < x.slots → Closer x.side k i → is_zero (x.window k) ≡ true)
      → IsTouch x.side x.slots filled i
  IsTouch-moves f = (
    h,
    ap is_zero (store_self x.window i q) ∙ nz,
    λ k a c.
        empty_elsewhere k (λ e. Closer-irrefl x.side i (subst (λ k. Closer x.side k i) e c))
          (f k a c),
  )

  replaced :
      is_zero (x.window i) ≡ false → IsUnmarked x i q (record x { window = store x.window i q })
  replaced n =
      let stored = count-store x.slots i x.window q h in
      let before : occupied (x.window i) ≡ 1 = rw n in
      let after : occupied q ≡ 1 = rw nz in
      let t = has-IsTouch x v i h n in
      record {
        fits = v.fits;
        counted = omega (arith, stored, before, after, v.counted);
        touch = inr (IsTouch-stays t (λ c. cc (sym n ∙ t.2 i h c)));
        same = SameFrame-refl x;
        stored = λ k. refl;
        marks = (refl, refl);
      }

  pub inserted :
      is_zero (x.window i) ≡ true
      → IsUnmarked x i q (record x {
        best_index =
            if x.window_count == 0 || better_index x.side i x.best_index then i else x.best_index;
        window_count = x.window_count + 1;
        window = store x.window i q;
      })
  inserted z =
      let stored = count-store x.slots i x.window q h in
      let before : occupied (x.window i) ≡ 0 = rw z in
      let after : occupied q ≡ 1 = rw nz in
      record {
        fits = v.fits;
        counted = omega (arith, stored, before, after, v.counted);
        touch = inr (
            if_cases (IsTouch x.side x.slots filled)
              (x.window_count == 0 || better_index x.side i x.best_index) i x.best_index moved
              stays);
        same = SameFrame-refl x;
        stored = λ k. refl;
        marks = (refl, refl);
      }
    where
      or_cases : (a b : Bool) → (a || b) ≡ true → (a ≡ true) ⊎ (b ≡ true)
      or_cases a b e = ground arith

      nor : (a b : Bool) → (a || b) ≡ false → (a ≡ false) × (b ≡ false)
      nor a b e = ground arith

      moved :
          (x.window_count == 0 || better_index x.side i x.best_index) ≡ true
          → IsTouch x.side x.slots filled i
      moved e = elim (or_cases (x.window_count == 0) (better_index x.side i x.best_index) e) [
        | inl n ↦ IsTouch-moves (λ k a c. empty_slot x k v ((==_iff x.window_count 0).0 n) a)
        | inr b ↦ elim v.touch [
          | inl n ↦ IsTouch-moves (λ k a c. empty_slot x k v n a)
          | inr (l, m, f) ↦ IsTouch-moves (λ k a c.
              f k a
                (Closer-trans x.side k i x.best_index c (Closer-better x.side i x.best_index b)))
        ]
      ]

      stays :
          (x.window_count == 0 || better_index x.side i x.best_index) ≡ false
          → IsTouch x.side x.slots filled x.best_index
      stays e =
          let (n, b) = nor (x.window_count == 0) (better_index x.side i x.best_index) e in
          elim v.touch [
            | inl y ↦ absurd (ground (arith, y))
            | inr t ↦ IsTouch-stays t (better-Closer x.side i x.best_index b)
          ]

-- An update of a slot keeps the window valid, and stores the quantity.
pub apply_window-Stored :
    (x : ArraySide) (i : ℕ) (q : Qty)
    → IsWindowed x
    → i < x.slots
    → Stored x i q (apply_window x i q)
apply_window-Stored x i q v h =
    if_cases (Stored x i q) (is_zero q) _ _
      (λ z.
        if_cases (Stored x i q) (is_zero (x.window i)) x _
          (λ e. (v, SameFrame-refl x, unchanged z e))
          (λ n.
            if_cases (Stored x i q) (i == x.best_index) _ _
              (λ e. zero_for z _ (advanced x v i h n ((==_iff i x.best_index).0 e)))
              (λ e. zero_for z _ (cleared-Stored x v i h n (λ p. ground (arith, p))))))
      (λ nz.
        if_cases (λ a. Stored x i q (mark_dirty (record a { window = store x.window i q }) i))
          (is_zero (x.window i)) _ x (λ z. marked x i q _ v.written (inserted x v i q h nz z))
          (λ z. marked x i q _ v.written (replaced x v i q h nz z)))
  where
    zero_for : (z : is_zero q ≡ true) (y : ArraySide) → Stored x i (pos 0) y → Stored x i q y
    zero_for z y s = subst (λ q. Stored x i q y) (sym (is_zero-eq q z)) s

    unchanged :
        is_zero q ≡ true → is_zero (x.window i) ≡ true → (k : ℕ) → x.window k ≡ store x.window i q k
    unchanged z e k =
        if_cases (λ p. x.window k ≡ p) (k == i) q (x.window k)
          (λ s. ap x.window ((==_iff k i).0 s) ∙ is_zero-eq (x.window i) e ∙ sym (is_zero-eq q z))
          (λ s. refl)
