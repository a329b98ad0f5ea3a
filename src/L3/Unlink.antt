-- ===== src/L3/Unlink.antt =====
-- `unlink` of l3.hpp takes an order out of its queue, wherever it stands.
use crossbook.Common.{ℕ, ◌≡◌, refl, ap, ◌∙◌, arith, All, subst}
use crossbook.Common.{Bool, true, false, not, ◌&&◌, inl, inr, Bool-cases, if◌then◌else◌, ◌==◌}
use crossbook.Common.{List, [], ◌∷◌, ◌++◌, none, some}
use crossbook.Types.{Side, Price}
use crossbook.L3.Table.{no_order}
use crossbook.L3.{Order, L3Level, L3Book, find_level, set_level, put_level, unlink, detach, removed}
use crossbook.L3.Links.{
  first, last, Linked, IsFresh, IsDistinct, All-imp, All-and, All-split, eq_sym, Linked-split,
  Linked-join, Linked-retarget, Linked-reroot,
}
use crossbook.L3.Entries.{is_at, find_level-set_level, find_level-erase_entry}
use crossbook.L3.LinkBack.{SameButLinks, SameButQueues, last_cases}

module _ (b : L3Book) (r : ℕ) where
  abbrev here : Order
  here = b.orders r

  pub detach_rest : (j : ℕ) → SameButLinks ((detach b r).orders j) (b.orders j)
  unfolding detach
  detach_rest j = ground arith

  detach_next :
      (j : ℕ)
      → ((detach b r).orders j).next ≡ (
          if r == j
          then no_order
          else if not (here.prev == no_order) && here.prev == j
          then here.next
          else (b.orders j).next)
  unfolding detach
  detach_next j = ground arith

  detach_prev :
      (j : ℕ)
      → ((detach b r).orders j).prev ≡ (
          if r == j
          then no_order
          else if not (here.next == no_order) && here.next == j
          then here.prev
          else (b.orders j).prev)
  unfolding detach
  detach_prev j = ground arith

  pub detach_levels : (s : Side) (p : Price) → find_level (detach b r) s p ≡ find_level b s p
  unfolding detach find_level
  detach_levels s p = elim (Bool-cases (here.prev == no_order)) [
    | inl e ↦ rw e (elim (Bool-cases (here.next == no_order)) [ inl f ↦ rw f | inr f ↦ rw f ])
    | inr e ↦ rw e (elim (Bool-cases (here.next == no_order)) [ inl f ↦ rw f | inr f ↦ rw f ])
  ]

  pub detach_kept : SameButQueues (detach b r) b
  unfolding detach
  detach_kept = elim (Bool-cases (here.prev == no_order)) [
    | inl e ↦ rw e (elim (Bool-cases (here.next == no_order)) [
      | inl f ↦ rw f (refl, refl, refl, refl)
      | inr f ↦ rw f (refl, refl, refl, refl)
    ])
    | inr e ↦ rw e (elim (Bool-cases (here.next == no_order)) [
      | inl f ↦ rw f (refl, refl, refl, refl)
      | inr f ↦ rw f (refl, refl, refl, refl)
    ])
  ]

  pub put_level_kept :
      (c : L3Book) (s : Side) (p : Price) (l : L3Level) → SameButQueues (put_level c s p l) c
  unfolding put_level set_level
  put_level_kept c s p l = elim (Bool-cases (l.orders == 0)) [
    | inl e ↦ rw e (refl, refl, refl, refl)
    | inr e ↦ rw e (refl, refl, refl, refl)
  ]

  pub put_levels :
      (c : L3Book) (l : L3Level) (s : Side) (p : Price) (s' : Side) (t : Price)
      → find_level (put_level c s p l) s' t
        ≡ (if is_at s p s' t then (if l.orders == 0 then none else some l) else find_level c s' t)
  unfolding put_level
  put_levels c l s p s' t = elim (Bool-cases (l.orders == 0)) [
    | inl e ↦ rw e (find_level-erase_entry c s p s' t)
    | inr e ↦ rw e (find_level-set_level c s p l s' t)
  ]

  pub unlink_found :
      (l : L3Level)
      → find_level b here.side here.price ≡ some l
      → unlink b r ≡ put_level (detach b r) here.side here.price (removed l here)
  unfolding unlink
  unlink_found l e = rw (e, unlink)

  pub put_level-orders :
      (c : L3Book) (s : Side) (p : Price) (l : L3Level) → (put_level c s p l).orders ≡ c.orders
  unfolding put_level set_level
  put_level-orders c s p l = elim (Bool-cases (l.orders == 0)) [ inl e ↦ rw e | inr e ↦ rw e ]

pub IsDistinct-split :
    (xs ys : List ℕ)
    → IsDistinct (xs ++ ys)
    → IsDistinct xs × IsDistinct ys × All (λ x. IsFresh x ys) xs
IsDistinct-split [] ys d = (tt, d, tt)
IsDistinct-split (x ∷ xs) ys (f, d) =
    let (dx, dy, a) = IsDistinct-split xs ys d in
    let (fx, fy) = All-split (λ y. (x == y) ≡ false) xs ys f in ((fx, dx), dy, (fy, a))

-- Whether a link that may be null leads to `x`.
abbrev pub leads : ℕ → ℕ → Bool
leads l x = not (l == no_order) && l == x

pub leads-last :
    (xs : List ℕ) (x : ℕ) → All (λ y. (y == x) ≡ false) xs → leads (last no_order xs) x ≡ false
leads-last xs x h = elim (last_cases (λ y. (y == x) ≡ false) no_order xs h) [
  | inl e ↦ rw e
  | inr e ↦ ground (arith, e)
]

pub leads-first :
    (ys : List ℕ) (x : ℕ) → All (λ y. (y == x) ≡ false) ys → leads (first ys no_order) x ≡ false
leads-first [] x h = refl
leads-first (y ∷ ys) x h = ground (arith, h.0)

All-flip : (x : ℕ) (ys : List ℕ) → IsFresh x ys → All (λ y. (y == x) ≡ false) ys
All-flip x ys h = All-imp (λ y. (x == y) ≡ false) _ ys (λ y e. eq_sym x y e) h

-- What is fresh for each of a list, seen from the other side.
All-swap :
    (xs ys : List ℕ) → All (λ x. IsFresh x ys) xs → All (λ y. All (λ x. (x == y) ≡ false) xs) ys
All-swap xs [] h = tt
All-swap xs (y ∷ ys) h = (
  All-imp (λ x. IsFresh x (y ∷ ys)) _ xs (λ x f. f.0) h,
  All-swap xs ys (All-imp (λ x. IsFresh x (y ∷ ys)) _ xs (λ x f. f.1) h),
)

-- The links of one queue, `front ++ r ∷ back`, around the order that leaves it.
module _ (b : L3Book) (r : ℕ) (front back : List ℕ)
    (linked : Linked
      (λ j. (b.orders j).prev)
      (λ j. (b.orders j).next)
      no_order
      (front ++ r ∷ back)
      no_order)
    (distinct : IsDistinct (front ++ r ∷ back)) (nulls : IsFresh no_order (front ++ r ∷ back)) where
  abbrev prev_of : ℕ → ℕ
  prev_of j = (b.orders j).prev

  abbrev next_of : ℕ → ℕ
  next_of j = (b.orders j).next

  abbrev prev_left : ℕ → ℕ
  prev_left j = ((detach b r).orders j).prev

  abbrev next_left : ℕ → ℕ
  next_left j = ((detach b r).orders j).next

  pub prev_r : prev_of r ≡ last no_order front
  prev_r = (Linked-split prev_of next_of no_order front (r ∷ back) no_order linked).1.0

  pub next_r : next_of r ≡ first back no_order
  next_r = (Linked-split prev_of next_of no_order front (r ∷ back) no_order linked).1.1

  -- Where neither neighbour is `x`, its links stay.
  pub links_kept :
      (x : ℕ)
      → (r == x) ≡ false
      → leads (last no_order front) x ≡ false
      → leads (first back no_order) x ≡ false
      → (prev_left x ≡ prev_of x) × (next_left x ≡ next_of x)
  links_kept x f l n =
      (rw (f, next_r, n) at (detach_prev b r x), rw (f, prev_r, l) at (detach_next b r x))

  parts : IsDistinct front × IsDistinct (r ∷ back) × All (λ x. IsFresh x (r ∷ back)) front
  parts = IsDistinct-split front (r ∷ back) distinct

  null_parts : IsFresh no_order front × IsFresh no_order (r ∷ back)
  null_parts = All-split (λ x. (no_order == x) ≡ false) front (r ∷ back) nulls

  front_law :
      (x : ℕ)
      → IsFresh x (r ∷ back) × ((no_order == x) ≡ false)
      → (prev_left x ≡ prev_of x)
        × (next_left x ≡ (if last no_order front == x then first back no_order else next_of x))
  front_law x ((f, fs), n) =
      let f' = eq_sym x r f in
      (
        rw (f', next_r, leads-first back x (All-flip x back fs)) at (detach_prev b r x),
        rw (f', prev_r, next_r) at (detach_next b r x)
            ∙ ap (λ c. if c then first back no_order else next_of x) (tested (last no_order front)),
      )
    where
      tested : (t : ℕ) → (not (t == no_order) && t == x) ≡ (t == x)
      tested t = ground (arith, n)

  front-Linked : Linked prev_left next_left no_order front (first back no_order)
  front-Linked =
      let (d, _, apart_back) = parts in
      Linked-retarget prev_of next_of prev_left next_left no_order front r (first back no_order) d
        (All-imp (λ x. IsFresh x (r ∷ back) × ((no_order == x) ≡ false)) _ front front_law
          (All-and _ (λ x. (no_order == x) ≡ false) front apart_back null_parts.0))
        (Linked-split prev_of next_of no_order front (r ∷ back) no_order linked).0

  back_law :
      (x : ℕ)
      → ((r == x) ≡ false) × All (λ y. (y == x) ≡ false) front
      → (leads (first back no_order) x ≡ false)
      → (prev_left x ≡ prev_of x) × (next_left x ≡ next_of x)
  back_law x (f, fs) n = links_kept x f (leads-last front x fs) n

  pub detached : Linked prev_left next_left no_order (front ++ back) no_order
  detached = Linked-join prev_left next_left no_order front back no_order front-Linked (
      relinked back refl
        (Linked-split prev_of next_of no_order front (r ∷ back) no_order linked).1.2)
    where
      relinked :
          (ys : List ℕ)
          → back ≡ ys
          → Linked prev_of next_of r ys no_order
          → Linked prev_left next_left (last no_order front) ys no_order
      relinked [] e h = tt
      relinked (y ∷ ys) e h =
          let (_, (fr, (fy, dy)), apart_back) =
            subst
              (λ zs. IsDistinct front × IsDistinct (r ∷ zs) × All (λ x. IsFresh x (r ∷ zs)) front) e
              parts in
          let (_, (_, (null_y, _))) =
            subst (λ zs. IsFresh no_order front × IsFresh no_order (r ∷ zs)) e null_parts in
          let swapped = (All-swap front (r ∷ y ∷ ys) apart_back).1 in
          let leads_y : leads (first back no_order) y ≡ true = rw e (ground (arith, null_y)) in
          Linked-reroot prev_of next_of prev_left next_left r (last no_order front) y ys no_order
            (rw (fr.0, next_r, leads_y) at (detach_prev b r y) ∙ prev_r)
            (rw (fr.0, prev_r, leads-last front y swapped.0) at (detach_next b r y))
            (All-imp
              (λ x. (((r == x) ≡ false) × All (λ z. (z == x) ≡ false) front) × ((y == x) ≡ false)) _
              ys (λ x k. back_law x k.0 (rw e (ground (arith, k.1))))
              (All-and _ (λ x. (y == x) ≡ false) ys
                (All-and (λ x. (r == x) ≡ false) (λ x. All (λ z. (z == x) ≡ false) front) ys fr.1
                  swapped.1)
                fy))
            h
