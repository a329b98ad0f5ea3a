-- ===== src/Book/Array/Order.antt =====
-- The slots of the window in the order of the book, and the prices that they stand for.
use crossbook.Common.{
  ℕ, zero, suc, ◌+◌, ◌-◌, ◌^◌, ◌≤◌, ◌<◌, ◌≡◌, ◌⊎◌, inl, inr, refl, arith, ◌∙◌, sym, subst,
}
use crossbook.Common.{Bool, true, false, Option, none, some, if◌then◌else◌, ltb}
use crossbook.Common.Int.{
  ℤ, pos, pos_part, neg_part, ◌+ℤ◌, ◌-ℤ◌, +ℤ_parts, IsInt64, eq_of_parts, ltb_ℤ,
}
use crossbook.Types.{Side, bid, ask, Before, eq_ℤ}
use crossbook.Common.{Bool-cases}
use crossbook.Book.Array.{anchor_for, window_index, price_at, better_index, next_index}

-- Slot `i` comes before slot `j` in the order of the book.
abbrev pub Closer : Side → ℕ → ℕ → Type 0
Closer ask i j = i < j
Closer bid i j = j < i

pub Closer-better : (s : Side) (i j : ℕ) → better_index s i j ≡ true → Closer s i j
Closer-better ask i j h = ground arith
Closer-better bid i j h = ground arith

pub better-Closer : (s : Side) (i j : ℕ) → better_index s i j ≡ false → Closer s i j → ⊥
better-Closer ask i j h k = ground arith
better-Closer bid i j h k = ground arith

pub Closer-cases : (s : Side) (i j : ℕ) → (i ≡ j) ⊎ Closer s i j ⊎ Closer s j i
Closer-cases ask i j = ground arith
Closer-cases bid i j = ground arith

pub Closer-trans : (s : Side) (i j k : ℕ) → Closer s i j → Closer s j k → Closer s i k
Closer-trans ask i j k h g = omega arith
Closer-trans bid i j k h g = omega arith

pub Closer-irrefl : (s : Side) (i : ℕ) → Closer s i i → ⊥
Closer-irrefl ask i h = omega arith
Closer-irrefl bid i h = omega arith

-- How many slots a walk from the cursor may still see.
abbrev pub ahead : Side → ℕ → Option ℕ → ℕ
ahead s slots none = 0
ahead ask slots (some i) = slots - i
ahead bid slots (some i) = suc i

-- The step leads to the next slot in the order, if there is one.
abbrev pub Steps : Side → ℕ → ℕ → Option ℕ → Type 0
Steps s slots i none = (ahead s slots (some i) ≡ 1) × ((k : ℕ) → k < slots → Closer s i k → ⊥)
Steps s slots i (some j) =
    (ahead s slots (some i) ≡ suc (ahead s slots (some j)))
    × (j < slots)
    × Closer s i j
    × ((k : ℕ) → Closer s i k → (k ≡ j) ⊎ Closer s j k)

pub next_index-Steps : (s : Side) (slots i : ℕ) → i < slots → Steps s slots i (next_index s slots i)
next_index-Steps ask slots i h = go (ltb (suc i) slots) refl
  where
    go : (b : Bool) → ltb (suc i) slots ≡ b → Steps ask slots i (if b then some (suc i) else none)
    go true e = (ground arith, ground arith, omega arith, λ k c. omega arith)
    go false e = (ground arith, λ k l c. ground arith)
next_index-Steps bid slots zero h = (refl, λ k l c. omega arith)
next_index-Steps bid slots (suc i) h = (refl, omega arith, omega arith, λ k c. omega arith)

pub ahead-le : (s : Side) (slots i : ℕ) → i < slots → ahead s slots (some i) ≤ slots
ahead-le ask slots i h = omega arith
ahead-le bid slots i h = omega arith

-- The window lies within the range of int64_t.
abbrev pub IsWindow : ℤ → ℕ → Type 0
IsWindow base slots =
    IsInt64 base × (slots < 2 ^ 63) × (pos_part base + slots ≤ 2 ^ 63 + neg_part base)

pub price_at_lem :
    (base : ℤ) (slots i : ℕ) → IsWindow base slots → i < slots → price_at base i ≡ base +ℤ pos i
unfolding price_at ◌+ℤ◌
price_at_lem base slots i h k = ground arith

pub price_at-Before :
    (s : Side) (base : ℤ) (slots i j : ℕ)
    → IsWindow base slots
    → i < slots
    → j < slots
    → Closer s i j
    → Before s (price_at base i) (price_at base j)
price_at-Before ask base slots i j h hi hj c =
    rw (price_at_lem base slots i h hi, price_at_lem base slots j h hj)
      (omega (arith, +ℤ_parts base (pos i), +ℤ_parts base (pos j)))
price_at-Before bid base slots i j h hi hj c =
    rw (price_at_lem base slots i h hi, price_at_lem base slots j h hj)
      (omega (arith, +ℤ_parts base (pos i), +ℤ_parts base (pos j)))

pub price_at-IsInt64 :
    (base : ℤ) (slots i : ℕ) → IsWindow base slots → i < slots → IsInt64 (price_at base i)
price_at-IsInt64 base slots i h k = rw (price_at_lem base slots i h k) (unfold ◌+ℤ◌ in ground arith)

-- The slot of any integer, if the window has one for it.
pub slot_of : ℤ → ℕ → ℤ → Option ℕ
slot_of base slots t =
    if ltb_ℤ t base
    then none
    else if ltb (pos_part (t -ℤ base)) slots
    then some (pos_part (t -ℤ base))
    else none

pub window_index-slot_of :
    (base : ℤ) (slots : ℕ) (t : ℤ)
    → IsWindow base slots
    → IsInt64 t
    → window_index base slots t ≡ slot_of base slots t
unfolding window_index slot_of ◌-ℤ◌
window_index-slot_of base slots t h k = ground arith

distance :
    (base t : ℤ)
    → ltb_ℤ t base ≡ false
    → pos_part base + neg_part t + pos_part (t -ℤ base) ≡ pos_part t + neg_part base
unfolding ◌-ℤ◌
distance base t e = ground arith

-- What the slot of a price says.
abbrev pub IsSlot : ℤ → ℕ → ℤ → Option ℕ → Type 0
IsSlot base slots t none = (i : ℕ) → i < slots → eq_ℤ (price_at base i) t ≡ false
IsSlot base slots t (some i) = (i < slots) × (price_at base i ≡ t)

pub slot_of-IsSlot :
    (base : ℤ) (slots : ℕ) (t : ℤ)
    → IsWindow base slots
    → IsSlot base slots t (slot_of base slots t)
unfolding slot_of
slot_of-IsSlot base slots t h = elim (Bool-cases (ltb_ℤ t base)) [
  | inl e ↦ rw e (λ i k. rw (price_at_lem base slots i h k) (ground (arith, +ℤ_parts base (pos i))))
  | inr e ↦ rw e (go e (ltb (pos_part (t -ℤ base)) slots) refl)
]
  where
    go :
        ltb_ℤ t base ≡ false
        → (b : Bool) → ltb (pos_part (t -ℤ base)) slots ≡ b
        → IsSlot base slots t (if b then some (pos_part (t -ℤ base)) else none)
    go e true q = (
      ground arith,
      price_at_lem base slots (pos_part (t -ℤ base)) h (ground arith)
          ∙ eq_of_parts (base +ℤ pos (pos_part (t -ℤ base))) t
              (ground (arith, distance base t e, +ℤ_parts base (pos (pos_part (t -ℤ base))))),
    )
    go e false q = λ i k.
        rw (price_at_lem base slots i h k)
          (ground (arith, +ℤ_parts base (pos i), distance base t e))

-- For a window within the range of int64_t, `window_index` of an int64_t price is exact: a slot that
-- it gives is in the window and has that price, and where it gives none, no slot has it.
pub window_index-IsSlot :
    (base : ℤ) (slots : ℕ) (t : ℤ)
    → IsWindow base slots
    → IsInt64 t
    → IsSlot base slots t (window_index base slots t)
window_index-IsSlot base slots t h k =
    subst (IsSlot base slots t) (sym (window_index-slot_of base slots t h k))
      (slot_of-IsSlot base slots t h)

-- Whatever int64_t price the touch has, the window of fewer than 2^63 slots that is anchored around
-- it lies within the range of int64_t.
pub anchor_for-IsWindow :
    (slots : ℕ) (touch : ℤ)
    → slots < 2 ^ 63
    → IsInt64 touch
    → IsWindow (anchor_for slots touch) slots
unfolding anchor_for ◌+ℤ◌ ◌-ℤ◌
anchor_for-IsWindow slots touch h k = ground arith
