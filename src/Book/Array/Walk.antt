-- ===== src/Book/Array/Walk.antt =====
-- The occupied slots of a window from a cursor on, in the order of the book.
use crossbook.Common.{ℕ, zero, suc, ◌≤◌, ◌<◌, ◌≡◌, ◌⊎◌, inl, inr, refl, sym, ap, ◌∙◌, subst, arith}
use crossbook.Common.{
  false, List, [], ◌∷◌, Option, none, some, if◌then◌else◌, All, Bool-cases, if_cases,
}
use crossbook.Common.Int.{ℤ, pos}
use crossbook.Types.{Side, bid, ask, Price, Qty, Level, Before, is_zero}
use crossbook.Book.Ladder.{qty_at, IsLadder, eq_ℤ-refl}
use crossbook.Book.Ladder.Laws.{Before-irrefl, qty_at-after, is_zero-eq}
use crossbook.Book.Array.{price_at, next_index}
use crossbook.Book.Array.Order.{Closer, Closer-trans, ahead, Steps, next_index-Steps, IsWindow}
use crossbook.Book.Array.Order.{price_at-Before}

-- A slot at the cursor or behind it.
abbrev pub From : Side → Option ℕ → ℕ → Type 0
From s none k = ⊥
From s (some i) k = (k ≡ i) ⊎ Closer s i k

abbrev pub IsCursor : ℕ → Option ℕ → Type 0
IsCursor slots none = Unit {0}
IsCursor slots (some i) = i < slots

module _ (s : Side) (base : ℤ) (slots : ℕ) (w : ℕ → Qty) where
  abbrev level : ℕ → Level
  level i = record { price = price_at base i; qty = w i }

  pub walk : ℕ → Option ℕ → List Level
  walk zero o = []
  walk (suc n) none = []
  walk (suc n) (some i) =
      if is_zero (w i)
      then walk n (next_index s slots i)
      else record { price = price_at base i; qty = w i } ∷ walk n (next_index s slots i)

  pub rest : Option ℕ → List Level
  unfolding walk
  rest o = walk (ahead s slots o) o

  abbrev pub behind : ℕ → List Level
  behind i = rest (next_index s slots i)

  pub rest_none : rest none ≡ []
  unfolding rest walk
  rest_none = refl

  rest_cons :
      (i : ℕ) (o : Option ℕ)
      → next_index s slots i ≡ o
      → Steps s slots i o
      → rest (some i) ≡ (if is_zero (w i) then rest o else level i ∷ rest o)
  unfolding rest walk
  rest_cons i none e (a, _) =
      ap (λ n. walk n (some i)) a
      ∙ ap (λ o. if is_zero (w i) then walk 0 o else level i ∷ walk 0 o) e
  rest_cons i (some j) e (a, _, _, _) =
      ap (λ n. walk n (some i)) a
      ∙ ap
          (λ o.
            if is_zero (w i)
            then walk (ahead s slots (some j)) o
            else level i ∷ walk (ahead s slots (some j)) o)
          e

  pub rest_step :
      (i : ℕ) → i < slots → rest (some i) ≡ (if is_zero (w i) then behind i else level i ∷ behind i)
  rest_step i h = rest_cons i (next_index s slots i) refl (next_index-Steps s slots i h)

  -- Induction along the window: a predicate that holds where nothing is left, and of a slot if it
  -- holds of the cursor behind it, holds of every cursor.
  pub along {κ} :
      (P : Option ℕ → Type κ)
      → P none
      → ((i : ℕ)
          → i < slots
          → Steps s slots i (next_index s slots i)
          → P (next_index s slots i)
          → P (some i))
      → (o : Option ℕ) → IsCursor slots o
      → P o
  along P z f o h = go (ahead s slots o) o h (omega arith)
    where
      stepped :
          (n i : ℕ) (o : Option ℕ)
          → Steps s slots i o
          → ahead s slots (some i) ≤ suc n
          → IsCursor slots o × (ahead s slots o ≤ n)
      stepped n i none t h = (tt, omega arith)
      stepped n i (some j) (a, l, _, _) h = (l, omega arith)

      go : (n : ℕ) (o : Option ℕ) → IsCursor slots o → ahead s slots o ≤ n → P o
      go n none h l = z
      go zero (some i) h l = absurd (positive s h l)
        where
          positive : (s : Side) → i < slots → ahead s slots (some i) ≤ 0 → ⊥
          positive ask h l = omega arith
          positive bid h l = omega arith
      go (suc n) (some i) h l =
          let t = next_index-Steps s slots i h in
          let (c, m) = stepped n i (next_index s slots i) t l in
          f i h t (go n (next_index s slots i) c m)

pub From-next :
    (s : Side) (slots i : ℕ) (o : Option ℕ) (k : ℕ) → Steps s slots i o → From s o k → Closer s i k
From-next s slots i none k t f = absurd f
From-next s slots i (some j) k (_, _, c, _) (inl e) = subst (Closer s i) (sym e) c
From-next s slots i (some j) k (_, _, c, _) (inr d) = Closer-trans s i j k c d

pub next-From :
    (s : Side) (slots i : ℕ) (o : Option ℕ) (k : ℕ)
    → Steps s slots i o
    → k < slots
    → Closer s i k
    → From s o k
next-From s slots i none k (_, n) l c = absurd (n k l c)
next-From s slots i (some j) k (_, _, _, n) l c = n k c

module _ (s : Side) (base : ℤ) (slots : ℕ) (w : ℕ → Qty) (h : IsWindow base slots) where
  abbrev price : ℕ → Price
  price i = price_at base i

  abbrev R : Option ℕ → List Level
  R o = rest s base slots w o

  -- The walk from a slot, one step opened.
  abbrev shown : ℕ → List Level
  shown i =
      if is_zero (w i)
      then R (next_index s slots i)
      else record { price = price i; qty = w i } ∷ R (next_index s slots i)

  -- What holds behind a slot, and of the slot if it is occupied, holds from it on.
  All-step {κ} :
      (P : Level → Type κ) (i : ℕ)
      → i < slots
      → (is_zero (w i) ≡ false → P (record { price = price i; qty = w i }))
      → All P (R (next_index s slots i))
      → All P (R (some i))
  All-step P i l p a = rw (rest_step s base slots w i l) (
      if_cases (All P) (is_zero (w i)) (R (next_index s slots i))
        (record { price = price i; qty = w i } ∷ R (next_index s slots i)) (λ _. a) (λ e. (p e, a)))

  -- The level stands in a slot of the window.
  abbrev pub IsInside : Level → Type 0
  IsInside m = (k : ℕ) × (k < slots) × (m.price ≡ price k)

  pub rest-IsInside : (o : Option ℕ) → IsCursor slots o → All IsInside (R o)
  rest-IsInside =
      along s base slots w (λ o. All IsInside (R o)) (unfold rest walk in tt)
        λ i l t a. All-step IsInside i l (λ _. (i, l, refl)) a

  pub rest-Before :
      (o : Option ℕ)
      → IsCursor slots o
      → (i : ℕ) → i < slots
      → ((k : ℕ) → From s o k → Closer s i k)
      → All (λ (m : Level). Before s (price i) m.price) (R o)
  rest-Before =
      along s base slots w
        (λ o.
          (i : ℕ)
          → i < slots
          → ((k : ℕ) → From s o k → Closer s i k)
          → All (λ (m : Level). Before s (price i) m.price) (R o))
        (λ i l c. unfold rest walk in tt)
        λ j l t a i k c.
          All-step (λ m. Before s (price i) m.price) j l
            (λ _. price_at-Before s base slots i j h k l (c j (inl refl)))
            (a i k (λ m f. c m (inr (From-next s slots j (next_index s slots j) m t f))))

  pub behind-Before :
      (i : ℕ)
      → i < slots
      → All (λ (m : Level). Before s (price i) m.price) (R (next_index s slots i))
  behind-Before i l =
      let t = next_index-Steps s slots i l in
      rest-Before (next_index s slots i) (cursor (next_index s slots i) t) i l
        (λ k f. From-next s slots i (next_index s slots i) k t f)
    where
      cursor : (o : Option ℕ) → Steps s slots i o → IsCursor slots o
      cursor none t = tt
      cursor (some j) t = t.1

  pub rest-IsLadder : (o : Option ℕ) → IsCursor slots o → IsLadder s (R o)
  rest-IsLadder =
      along s base slots w (λ o. IsLadder s (R o)) (unfold rest walk in tt)
        λ i l t a. rw (rest_step s base slots w i l) (
          if_cases (IsLadder s) (is_zero (w i)) (R (next_index s slots i))
            (record { price = price i; qty = w i } ∷ R (next_index s slots i)) (λ _. a)
            (λ e. (e, behind-Before i l, a)))

  -- From the cursor on, the walk holds what the window holds.
  pub qty_at-rest :
      (o : Option ℕ)
      → IsCursor slots o
      → (k : ℕ) → k < slots
      → From s o k
      → qty_at (price k) (R o) ≡ w k
  unfolding qty_at
  qty_at-rest =
      along s base slots w (λ o. (k : ℕ) → k < slots → From s o k → qty_at (price k) (R o) ≡ w k)
        (λ k l f. absurd f)
        λ i l t a k m f. rw (rest_step s base slots w i l) (elim f [
          | inl e ↦ subst (λ k. qty_at (price k) (shown i) ≡ w k) (sym e) (here i l)
          | inr c ↦ there i k l m c (a k m (next-From s slots i (next_index s slots i) k t m c))
        ])
    where
      here : (i : ℕ) → i < slots → qty_at (price i) (shown i) ≡ w i
      here i l = elim (Bool-cases (is_zero (w i))) [
        | inl e ↦ rw e (
            qty_at-after s (price i) (R (next_index s slots i)) (behind-Before i l)
            ∙ sym (is_zero-eq (w i) e))
        | inr e ↦ rw (e, eq_ℤ-refl (price i))
      ]

      there :
          (i k : ℕ)
          → i < slots
          → k < slots
          → Closer s i k
          → qty_at (price k) (R (next_index s slots i)) ≡ w k
          → qty_at (price k) (shown i) ≡ w k
      there i k l m c q = elim (Bool-cases (is_zero (w i))) [
        | inl e ↦ rw e q
        | inr e ↦
            rw (e, Before-irrefl s (price i) (price k) (price_at-Before s base slots i k h l m c)) q
      ]

  -- Before the cursor the walk holds nothing.
  pub qty_at-rest_before :
      (o : Option ℕ) (k : ℕ)
      → IsCursor slots o
      → k < slots
      → ((j : ℕ) → From s o j → Closer s k j)
      → qty_at (price k) (R o) ≡ pos 0
  qty_at-rest_before o k c l f = qty_at-after s (price k) (R o) (rest-Before o c k l f)
