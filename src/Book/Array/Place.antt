-- ===== src/Book/Array/Place.antt =====
-- The refill of a rebuild, for one level that has a slot in the new window.
use crossbook.Common.{ℕ, ◌+◌, ◌<◌, ◌≡◌, ◌≢◌, ◌⊎◌, inl, inr, refl, sym, ◌∙◌, subst, arith}
use crossbook.Common.{
  Bool, true, false, List, ◌∷◌, some, if◌then◌else◌, Bool-cases, All, ◌==◌, ◌||◌,
}
use crossbook.Common.Int.{ℤ}
use crossbook.Types.{Side, Level, is_zero, Before}
use crossbook.Book.Ladder.{eq_ℤ-refl}
use crossbook.Book.Ladder.Laws.{Before-irrefl}
use crossbook.Book.Array.{ArraySide, price_at, window_index, store, place_at, place, better_index}
use crossbook.Book.Array.Order.{Closer-better, price_at-Before}
use crossbook.Book.Array.Valid.{IsWindowed}
use crossbook.Book.Array.Slot.{Stored}
use crossbook.Book.Array.Insert.{inserted, marked, IsUnmarked}

pub Before-clash : (s : Side) (a : ℤ) → Before s a a → ⊥
Before-clash s a h = cc (sym (eq_ℤ-refl a) ∙ Before-irrefl s a a h)

Before-both : (s : Side) (a b : ℤ) → Before s a b → Before s b a → ⊥
Before-both Side.bid a b h k = omega arith
Before-both Side.ask a b h k = omega arith

-- What is in the window comes before the levels that are still to be placed.
abbrev pub Leads : ArraySide → List Level → Type 0
Leads y ls =
    (k : ℕ)
    → k < y.slots
    → (is_zero (y.window k) ≡ true)
      ⊎ All (λ (m : Level). Before y.side (price_at y.base k) m.price) ls

-- The level goes into an empty slot, which does not come before the best one.
pub place_inside :
    (y : ArraySide) (l : Level) (ls : List Level) (i : ℕ)
    → IsWindowed y
    → is_zero l.qty ≡ false
    → Leads y (l ∷ ls)
    → i < y.slots
    → price_at y.base i ≡ l.price
    → window_index y.base y.slots l.price ≡ some i
    → Stored y i l.qty (place y l)
place_inside y l ls i v nz lead h e w =
    subst (λ o. Stored y i l.qty (place_at y l o)) (sym w)
      (marked y i l.qty _ v.written (
        subst
          (λ b. IsUnmarked y i l.qty (record y {
            best_index = b;
            window = store y.window i l.qty;
            window_count = y.window_count + 1;
          }))
          (same (y.window_count == 0) refl) (inserted y v i l.qty h nz empty)))
  where
    at_slot :
        (k : ℕ)
        → Before y.side (price_at y.base k) l.price
        → Before y.side (price_at y.base k) (price_at y.base i)
    at_slot k b = subst (Before y.side (price_at y.base k)) (sym e) b

    empty : is_zero (y.window i) ≡ true
    empty = elim (lead i h) [
      | inl z ↦ z
      | inr (b, _) ↦ absurd (Before-clash y.side (price_at y.base i) (at_slot i b))
    ]

    not_better : y.window_count ≢ 0 → better_index y.side i y.best_index ≡ false
    not_better n = elim (Bool-cases (better_index y.side i y.best_index)) [
      | inr f ↦ f
      | inl t ↦ elim v.touch [
        | inl z ↦ absurd (n z)
        | inr (m, o, _) ↦ elim (lead y.best_index m) [
          | inl z ↦ absurd (cc (sym z ∙ o))
          | inr (b, _) ↦ absurd (
              Before-both y.side (price_at y.base y.best_index) (price_at y.base i)
                (at_slot y.best_index b)
                (price_at-Before y.side y.base y.slots i y.best_index v.fits h m
                  (Closer-better y.side i y.best_index t)))
        ]
      ]
    ]

    same :
        (c : Bool)
        → (y.window_count == 0) ≡ c
        → (if c || better_index y.side i y.best_index then i else y.best_index)
          ≡ (if c then i else y.best_index)
    same true q = refl
    same false q = rw (not_better (λ z. ground (arith, z)))
