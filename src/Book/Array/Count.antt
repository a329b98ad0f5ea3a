-- ===== src/Book/Array/Count.antt =====
-- How many slots of a window are occupied.
use crossbook.Common.{
  ℕ, zero, suc, ◌+◌, ◌-◌, ◌≤◌, ◌<◌, ◌≡◌, inl, inr, refl, sym, ap, ◌∙◌, subst, arith,
}
use crossbook.Common.{
  Bool, true, false, List, ◌∷◌, Option, none, some, if◌then◌else◌, Bool-cases, length, ltb, ◌==◌,
}
use crossbook.Common.Int.{ℤ}
use crossbook.Types.{Side, bid, ask, Qty, Level, is_zero}
use crossbook.Book.Array.{next_index, store, price_at}
use crossbook.Book.Array.Order.{Closer}
use crossbook.Book.Array.Walk.{rest, rest_none, rest_step}

abbrev pub occupied : Qty → ℕ
occupied q = if is_zero q then 0 else 1

pub count : ℕ → (ℕ → Qty) → ℕ
count zero w = 0
count (suc n) w = count n w + occupied (w n)

count-store_beyond : (n i : ℕ) (w : ℕ → Qty) (v : Qty) → n ≤ i → count n (store w i v) ≡ count n w
unfolding count
count-store_beyond zero i w v h = refl
count-store_beyond (suc n) i w v h = ground (arith, count-store_beyond n i w v)

pub count-store :
    (n i : ℕ) (w : ℕ → Qty) (v : Qty)
    → i < n
    → count n (store w i v) + occupied (w i) ≡ count n w + occupied v
unfolding count
count-store zero i w v h = absurd (omega arith)
count-store (suc n) i w v h = elim (Bool-cases (n == i)) [
  | inl e ↦
      let same : i ≡ n = ground arith in
      rw (e, ap (λ j. occupied (w j)) same)
        (omega (arith, count-store_beyond n i w v (omega arith)))
  | inr e ↦ rw e (omega (arith, count-store n i w v (ground arith)))
]

pub count_none : (n : ℕ) (w : ℕ → Qty) → ((k : ℕ) → k < n → is_zero (w k) ≡ true) → count n w ≡ 0
unfolding count
count_none zero w h = refl
count_none (suc n) w h =
    rw (h n (omega arith)) (omega (arith, count_none n w (λ k l. h k (omega arith))))

pub count_some : (n i : ℕ) (w : ℕ → Qty) → i < n → is_zero (w i) ≡ false → 0 < count n w
unfolding count
count_some zero i w l h = absurd (omega arith)
count_some (suc n) i w l h = elim (Bool-cases (n == i)) [
  | inl e ↦
      let same : i ≡ n = ground arith in
      subst (λ j. 0 < count n w + occupied (w j)) same (rw h (omega arith))
  | inr e ↦ omega (arith, count_some n i w (ground arith) h)
]

module _ (base : ℤ) (slots : ℕ) (w : ℕ → Qty) where
  abbrev R : Side → Option ℕ → List Level
  R s o = rest s base slots w o

  length-step :
      (s : Side) (i : ℕ)
      → i < slots
      → length (R s (some i)) ≡ occupied (w i) + length (R s (next_index s slots i))
  length-step s i h =
      rw (rest_step s base slots w i h) (shown (R s (next_index s slots i)) (is_zero (w i)))
    where
      shown :
          (ls : List Level) (b : Bool)
          → length (if b then ls else record { price = price_at base i; qty = w i } ∷ ls)
            ≡ (if b then 0 else 1) + length ls
      shown ls true = omega arith
      shown ls false = omega arith

  length_up : (d i : ℕ) → suc d + i ≡ slots → length (R ask (some i)) + count i w ≡ count slots w
  unfolding count
  length_up zero i h =
      let last : ltb (suc i) slots ≡ false = ground arith in
      let none_left = ap (λ b. length (R ask (if b then some (suc i) else none))) last in
      let all : slots ≡ suc i = omega arith in
      rw (ap (λ n. count n w) all) (
        omega (
          arith,
          length-step ask i (omega arith),
          none_left,
          ap length (rest_none ask base slots w),
        ))
  length_up (suc d) i h =
      let more : ltb (suc i) slots ≡ true = ground arith in
      let behind = ap (λ b. length (R ask (if b then some (suc i) else none))) more in
      omega (arith, length-step ask i (omega arith), behind, length_up d (suc i) (omega arith))

  length_down : (i : ℕ) → i < slots → length (R bid (some i)) ≡ count (suc i) w
  unfolding count
  length_down zero h = omega (arith, length-step bid 0 h, ap length (rest_none bid base slots w))
  length_down (suc i) h = omega (arith, length-step bid (suc i) h, length_down i (omega arith))

  count_above :
      (n i : ℕ) → i ≤ n → ((k : ℕ) → k < n → i ≤ k → is_zero (w k) ≡ true) → count n w ≡ count i w
  unfolding count
  count_above zero zero l h = refl
  count_above zero (suc i) l h = absurd (omega arith)
  count_above (suc n) i l h = elim (Bool-cases (ltb n i)) [
    | inl e ↦ let same : suc n ≡ i = ground arith in ap (λ n. count n w) same
    | inr e ↦
        rw (h n (omega arith) (ground arith))
          (omega (arith, count_above n i (ground arith) (λ k m a. h k (omega arith) a)))
  ]

  -- From the slot nearest the touch on, the walk has every occupied slot.
  pub length-rest :
      (s : Side) (i : ℕ)
      → i < slots
      → ((k : ℕ) → k < slots → Closer s k i → is_zero (w k) ≡ true)
      → length (R s (some i)) ≡ count slots w
  length-rest ask i l h = omega (
    arith,
    length_up (slots - suc i) i (omega arith),
    count_none i w (λ k m. h k (omega arith) m),
  )
  length-rest bid i l h = length_down i l ∙ sym (count_above slots (suc i) l (λ k m n. h k m n))
