-- ===== src/Book/Array/Seek.antt =====
-- What `seek_occupied` and `advance_best_after_removal` find.
use crossbook.Common.{ℕ, zero, suc, ◌≤◌, ◌<◌, ◌≡◌, inl, inr, refl, sym, ◌∙◌, subst, arith}
use crossbook.Common.{true, false, List, [], ◌∷◌, Option, none, some, if_cases}
use crossbook.Common.Int.{ℤ}
use crossbook.Types.{Side, bid, ask, Qty, Level, is_zero}
use crossbook.Book.Array.{price_at, next_index, seek}
use crossbook.Book.Array.Order.{Closer, Closer-trans, Closer-irrefl, ahead, Steps, next_index-Steps}
use crossbook.Book.Array.Walk.{From, IsCursor, From-next, next-From, rest, rest_none, rest_step}

module _ (s : Side) (base : ℤ) (slots : ℕ) (w : ℕ → Qty) where
  abbrev R : Option ℕ → List Level
  R o = rest s base slots w o

  -- The first occupied slot from the cursor on, if there is one.
  abbrev pub Sought : Option ℕ → Option ℕ → Type 0
  Sought o none = (R o ≡ []) × ((k : ℕ) → k < slots → From s o k → is_zero (w k) ≡ true)
  Sought o (some j) =
      (j < slots)
      × (is_zero (w j) ≡ false)
      × (R o ≡ record { price = price_at base j; qty = w j } ∷ R (next_index s slots j))
      × From s o j
      × ((k : ℕ) → k < slots → From s o k → Closer s k j → is_zero (w k) ≡ true)

  skip :
      (i : ℕ) (o : Option ℕ)
      → i < slots
      → is_zero (w i) ≡ true
      → Steps s slots i (next_index s slots i)
      → Sought (next_index s slots i) o
      → Sought (some i) o
  skip i none l z t (e, f) = (
    rest_step s base slots w i l ∙ rw z e,
    λ k m c. elim c [
      | inl q ↦ subst (λ k. is_zero (w k) ≡ true) (sym q) z
      | inr d ↦ f k m (next-From s slots i (next_index s slots i) k t m d)
    ],
  )
  skip i (some j) l z t (m, n, e, c, f) = (
    m,
    n,
    rest_step s base slots w i l ∙ rw z e,
    inr (From-next s slots i (next_index s slots i) j t c),
    λ k a b d. elim b [
      | inl q ↦ subst (λ k. is_zero (w k) ≡ true) (sym q) z
      | inr r ↦ f k a (next-From s slots i (next_index s slots i) k t a r) d
    ],
  )

  found : (i : ℕ) → i < slots → is_zero (w i) ≡ false → Sought (some i) (some i)
  found i l n = (
    l,
    n,
    rest_step s base slots w i l ∙ rw n,
    inl refl,
    λ k m c d. elim c [
      | inl q ↦ absurd (Closer-irrefl s i (subst (λ k. Closer s k i) q d))
      | inr r ↦ absurd (Closer-irrefl s i (Closer-trans s i k i r d))
    ],
  )

  nothing_left : (o : Option ℕ) → ahead s slots o ≤ 0 → IsCursor slots o → Sought o none
  nothing_left none l h = (rest_none s base slots w, λ k m f. absurd f)
  nothing_left (some i) l h = absurd (positive s h l)
    where
      positive : (s : Side) → i < slots → ahead s slots (some i) ≤ 0 → ⊥
      positive ask h l = omega arith
      positive bid h l = omega arith

  pub seek-Sought :
      (n : ℕ) (o : Option ℕ)
      → ahead s slots o ≤ n
      → IsCursor slots o
      → Sought o (seek n s slots w o)
  unfolding seek
  seek-Sought zero o l h = nothing_left o l h
  seek-Sought (suc n) none l h = nothing_left none (omega arith) tt
  seek-Sought (suc n) (some i) l h =
      let t = next_index-Steps s slots i h in
      let (c, m) = stepped (next_index s slots i) t in
      let more = seek-Sought n (next_index s slots i) m c in
      if_cases (Sought (some i)) (is_zero (w i)) (seek n s slots w (next_index s slots i)) (some i)
        (λ z. skip i (seek n s slots w (next_index s slots i)) h z t more) (λ z. found i h z)
    where
      stepped : (o : Option ℕ) → Steps s slots i o → IsCursor slots o × (ahead s slots o ≤ n)
      stepped none t = (tt, omega arith)
      stepped (some j) (a, l', _, _) = (l', omega arith)
