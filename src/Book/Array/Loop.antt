-- ===== src/Book/Array/Loop.antt =====
-- `for_each` visits the ladder that the side stands for, and `best` is its first level.
use crossbook.Common.{ℕ, zero, suc, ◌+◌, ◌≤◌, ◌<◌, ◌≡◌, inl, inr, refl, sym, ap, ◌∙◌, subst, arith}
use crossbook.Common.{
  Bool, true, false, List, [], ◌∷◌, Option, none, some, if◌then◌else◌, Bool-cases, length, ltb, leb,
  ◌&&◌, if_cases,
}
use crossbook.Types.{Level, is_zero, precedes}
use crossbook.Book.Visit.{visit, resume, head?}
use crossbook.Book.Array.{
  ArraySide, price_at, spill, level_at, next_index, seek, seek_occupied, merge_loop, window_start,
  for_each, best, first, touch_of, size,
}
use crossbook.Book.Array.Order.{ahead, ahead-le, Steps, next_index-Steps}
use crossbook.Book.Array.Walk.{IsCursor, rest, rest_none, rest_step}
use crossbook.Book.Array.Seek.{Sought, seek-Sought}
use crossbook.Book.Array.Merge.{merge, merge_nil}
use crossbook.Book.Array.Spill.{length-spill}
use crossbook.Book.Array.Valid.{
  IsValid, cursor, cursor_cases, cursor-IsCursor, window_levels, levels, length-window_levels,
}

resume_cong :
    {A : Type 0} (r : A × Bool) (k k' : A → A) → ((b : A) → k b ≡ k' b) → resume r k ≡ resume r k'
resume_cong (a, true) k k' h = h a
resume_cong (a, false) k k' h = refl

module _ (x : ArraySide) (v : IsValid x) where
  abbrev R : Option ℕ → List Level
  R o = rest x.side x.base x.slots x.window o

  abbrev next : ℕ → Option ℕ
  next i = next_index x.side x.slots i

  -- The cursor stands on an occupied slot, or nowhere.
  abbrev IsReady : Option ℕ → Type 0
  IsReady none = Unit {0}
  IsReady (some i) = (i < x.slots) × (is_zero (x.window i) ≡ false)

  R_ready : (i : ℕ) → IsReady (some i) → R (some i) ≡ level_at x i ∷ R (next i)
  R_ready i (l, n) = rest_step x.side x.base x.slots x.window i l ∙ rw n

  nil_of_length : (ls : List Level) → length ls ≡ 0 → ls ≡ []
  nil_of_length [] h = refl
  nil_of_length (l ∷ ls) h = absurd (omega arith)

  sought : (o p : Option ℕ) → Sought x.side x.base x.slots x.window o p → (R p ≡ R o) × IsReady p
  sought o none (e, _) = (rest_none x.side x.base x.slots x.window ∙ sym e, tt)
  sought o (some j) (l, n, e, _, _) = (R_ready j (l, n) ∙ sym e, (l, n))

  cursor-ahead : (o : Option ℕ) → IsCursor x.slots o → ahead x.side x.slots o ≤ x.slots
  cursor-ahead none c = omega arith
  cursor-ahead (some i) c = ahead-le x.side x.slots i c

  seek_occupied_lem :
      (e : ℕ) (o : Option ℕ)
      → IsCursor x.slots o
      → e + length (R o) ≡ x.window_count
      → (R (seek_occupied x e o) ≡ R o) × IsReady (seek_occupied x e o)
  seek_occupied_lem e o c h =
      if_cases (λ p. (R p ≡ R o) × IsReady p) (leb x.window_count e) none
        (seek x.slots x.side x.slots x.window o)
        (λ q.
          (rest_none x.side x.base x.slots x.window ∙ sym (nil_of_length (R o) (ground arith)), tt))
        (λ q.
          sought o (seek x.slots x.side x.slots x.window o)
            (seek-Sought x.side x.base x.slots x.window x.slots o (cursor-ahead o c) c))

  next-IsCursor : (i : ℕ) → i < x.slots → IsCursor x.slots (next i)
  next-IsCursor i l = go (next i) (next_index-Steps x.side x.slots i l)
    where
      go : (o : Option ℕ) → Steps x.side x.slots i o → IsCursor x.slots o
      go none t = tt
      go (some j) t = t.1

  module _ {A : Type 0} (f : A → Level → A × Bool) where
    none_left : R none ≡ []
    none_left = rest_none x.side x.base x.slots x.window

    -- The loop from a state that has emitted `e` levels.
    abbrev Runs : ℕ → Type 0
    Runs fuel =
        (e : ℕ) (o : Option ℕ) (ov : List Level) (a : A)
        → length (R o) + length ov < fuel
        → e + length (R o) ≡ x.window_count
        → IsReady o
        → merge_loop f x fuel e o ov a ≡ visit f (merge x.side (R o) ov) a

    -- A level of the window, and the loop behind it.
    take_window :
        (fuel e i : ℕ) (ov : List Level) (a : A)
        → Runs fuel
        → length (R (some i)) + length ov < suc fuel
        → e + length (R (some i)) ≡ x.window_count
        → IsReady (some i)
        → resume
            (f a (level_at x i))
            (merge_loop f x fuel (e + 1) (seek_occupied x (e + 1) (next i)) ov)
          ≡ resume (f a (level_at x i)) (visit f (merge x.side (R (next i)) ov))
    take_window fuel e i ov a run l c r =
        let size : length (R (some i)) ≡ suc (length (R (next i))) = ap length (R_ready i r) in
        let (same, ready) =
          seek_occupied_lem (e + 1) (next i) (next-IsCursor i r.0) (omega (arith, size)) in
        resume_cong (f a (level_at x i)) _ _ (λ b.
          run (e + 1) (seek_occupied x (e + 1) (next i)) ov b (omega (arith, size, ap length same))
            (omega (arith, size, ap length same)) ready
          ∙ ap (λ ls. visit f (merge x.side ls ov) b) same)

    -- The choice between the next level of the window and that of the spill list.
    choose :
        (fuel e i : ℕ) (m : Level) (ov : List Level) (a : A)
        → Runs fuel
        → length (R (some i)) + length (m ∷ ov) < suc fuel
        → e + length (R (some i)) ≡ x.window_count
        → IsReady (some i)
        → (if precedes x.side (price_at x.base i) m.price
            then resume
                (f a (level_at x i))
                (merge_loop f x fuel (e + 1) (seek_occupied x (e + 1) (next i)) (m ∷ ov))
            else resume (f a m) (merge_loop f x fuel e (some i) ov))
          ≡ visit f (merge x.side (level_at x i ∷ R (next i)) (m ∷ ov)) a
    unfolding merge visit
    choose fuel e i m ov a run l c r =
        elim (Bool-cases (precedes x.side (price_at x.base i) m.price)) [
          | inl q ↦ rw q (take_window fuel e i (m ∷ ov) a run l c r)
          | inr q ↦ rw q (
              resume_cong (f a m) (merge_loop f x fuel e (some i) ov)
                (visit f (merge x.side (level_at x i ∷ R (next i)) ov))
                (λ b.
                  run e (some i) ov b (omega arith) c r
                  ∙ ap (λ ls. visit f (merge x.side ls ov) b) (R_ready i r)))
        ]

    -- The loop is the visit of the merged ladder.
    loop_visit : (fuel : ℕ) → Runs fuel
    unfolding merge_loop merge visit
    loop_visit zero e o ov a l c r = absurd (omega arith)
    loop_visit (suc fuel) e none [] a l c r =
        sym (ap (λ ls. visit f (merge x.side ls []) a) none_left)
    loop_visit (suc fuel) e none (m ∷ ov) a l c r =
        resume_cong (f a m) (merge_loop f x fuel e none ov) (visit f ov) (λ b.
          loop_visit fuel e none ov b (omega arith) c tt
          ∙ ap (λ ls. visit f (merge x.side ls ov) b) none_left)
        ∙ sym (ap (λ ls. visit f (merge x.side ls (m ∷ ov)) a) none_left)
    loop_visit (suc fuel) e (some i) [] a l c r =
        take_window fuel e i [] a (loop_visit fuel) l c r
        ∙ ap (λ ls. resume (f a (level_at x i)) (visit f ls)) (merge_nil x.side (R (next i)))
        ∙ sym (ap (λ ls. visit f (merge x.side ls []) a) (R_ready i r))
    loop_visit (suc fuel) e (some i) (m ∷ ov) a l c r =
        choose fuel e i m ov a (loop_visit fuel) l c r
        ∙ sym (ap (λ ls. visit f (merge x.side ls (m ∷ ov)) a) (R_ready i r))

  -- `for_each` is the visit of the ladder.
  pub for_each-levels :
      (A : Type 0) (f : A → Level → A × Bool) (a : A) → for_each A f x a ≡ visit f (levels x) a
  unfolding for_each levels window_levels
  for_each-levels A f a =
      let (same, ready) = start in
      loop_visit f (suc (size x)) 0 (window_start x) (spill x.side x.overflow) a
        (omega (arith, ap length same, length-spill x.side x.overflow, full))
        (omega (arith, ap length same, full)) ready
      ∙ ap (λ ls. visit f (merge x.side ls (spill x.side x.overflow)) a) same
    where
      full : length (R (cursor x)) ≡ x.window_count
      full = length-window_levels x v

      from :
          (b : Bool)
          → IsCursor x.slots (if b then some x.best_index else none)
          → length (R (if b then some x.best_index else none)) ≡ x.window_count
          → (R (if b then seek_occupied x 0 (some x.best_index) else none)
              ≡ R (if b then some x.best_index else none))
            × IsReady (if b then seek_occupied x 0 (some x.best_index) else none)
      from true c h = seek_occupied_lem 0 (some x.best_index) c (omega (arith, h))
      from false c h = (refl, tt)

      start : (R (window_start x) ≡ R (cursor x)) × IsReady (window_start x)
      start = from (x.anchored && ltb 0 x.window_count) (cursor-IsCursor x v) full

  cursor-IsReady : IsReady (cursor x)
  cursor-IsReady = elim (cursor_cases x v) [
    | inl (e, _) ↦ subst IsReady (sym e) tt
    | inr (e, (l, n, _)) ↦ subst IsReady (sym e) (l, n)
  ]

  touched :
      (b : Bool) (ov : List Level)
      → IsReady (if b then some x.best_index else none)
      → touch_of x.side (if b then some (level_at x x.best_index) else none) (first ov)
        ≡ head? (merge x.side (R (if b then some x.best_index else none)) ov)
  unfolding merge
  touched false ov r =
      sym (ap (λ ls. head? (merge x.side ls ov)) (rest_none x.side x.base x.slots x.window))
  touched true [] r = sym (ap (λ ls. head? (merge x.side ls [])) (R_ready x.best_index r))
  touched true (m ∷ ov) r =
      two (precedes x.side (price_at x.base x.best_index) m.price)
        (merge x.side (R (next x.best_index)) (m ∷ ov))
        (merge x.side (level_at x x.best_index ∷ R (next x.best_index)) ov)
      ∙ sym (ap (λ ls. head? (merge x.side ls (m ∷ ov))) (R_ready x.best_index r))
    where
      two :
          (b : Bool) (ls ms : List Level)
          → (if b then some (level_at x x.best_index) else some m)
            ≡ head? (if b then level_at x x.best_index ∷ ls else m ∷ ms)
      two true ls ms = refl
      two false ls ms = refl

  -- `best` is the first level of the ladder.
  pub best-levels : best x ≡ head? (levels x)
  unfolding best levels window_levels
  best-levels =
      touched (x.anchored && ltb 0 x.window_count) (spill x.side x.overflow) cursor-IsReady
