-- ===== src/L3/LinkBack.antt =====
-- `link_back` of l3.hpp, order by order and level by level.
use crossbook.Common.{
  ℕ, ◌≡◌, refl, sym, ap, ap₂, ◌∙◌, arith, All, true, false, not, ◌&&◌, ◌⊎◌, inl, inr, Bool-cases,
  if◌then◌else◌, ◌==◌, ==_iff, List, [], ◌∷◌, some,
}
use crossbook.Types.{Side, Price}
use crossbook.L3.Table.{no_order}
use crossbook.L3.{
  Order, L3Level, L3Book, find_level, level_for, link_back, set_next, write_order, appended,
}
use crossbook.L3.Links.{last, All-imp}
use crossbook.L3.Entries.{is_at, find_level-set_level}
use crossbook.L3.Queues.{queue, in_queue, select-same, is_at_refl, is_at-eq}

-- What an operation on links leaves of an order.
abbrev pub SameButLinks : Order → Order → Type 0
SameButLinks a o =
    (a.id ≡ o.id) × (a.price ≡ o.price) × (a.qty ≡ o.qty) × (a.side ≡ o.side) × (a.live ≡ o.live)

abbrev pub SameButQueues : L3Book → L3Book → Type 0
SameButQueues c b =
    (c.table ≡ b.table)
    × (c.arena_size ≡ b.arena_size)
    × (c.free_list ≡ b.free_list)
    × (c.live_orders ≡ b.live_orders)

module _ (b : L3Book) (r : ℕ) where
  abbrev here : Order
  here = b.orders r

  abbrev level : L3Level
  level = level_for b here.side here.price

  -- Links and levels apart, the book stays.
  pub link_back_kept : SameButQueues (link_back b r) b
  unfolding link_back
  link_back_kept = elim (Bool-cases (level.tail == no_order)) [
    | inl e ↦ rw e (refl, refl, refl, refl)
    | inr e ↦ rw e (refl, refl, refl, refl)
  ]

  pub link_back_rest : (j : ℕ) → SameButLinks ((link_back b r).orders j) (b.orders j)
  unfolding link_back
  link_back_rest j = ground arith

  pub link_back_prev :
      (j : ℕ) → ((link_back b r).orders j).prev ≡ (if r == j then level.tail else (b.orders j).prev)
  unfolding link_back
  link_back_prev j = ground arith

  pub link_back_next :
      (j : ℕ)
      → ((link_back b r).orders j).next ≡ (
          if not (level.tail == no_order) && level.tail == j
          then r
          else if r == j
          then no_order
          else (b.orders j).next)
  unfolding link_back
  link_back_next j = ground arith

  pub link_back_level :
      (s : Side) (p : Price)
      → find_level (link_back b r) s p ≡ (
          if is_at here.side here.price s p
          then some (appended level r here.qty)
          else find_level b s p)
  unfolding link_back find_level
  link_back_level s p = elim (Bool-cases (level.tail == no_order)) [
    | inl e ↦ rw e (
        find_level-set_level (write_order b r (record here { prev = level.tail; next = no_order }))
          here.side here.price (appended level r here.qty) s p)
    | inr e ↦ rw e (
        find_level-set_level
          (set_next (write_order b r (record here { prev = level.tail; next = no_order }))
            level.tail r)
          here.side here.price (appended level r here.qty) s p)
  ]

pub everywhere : (P : ℕ → Type 0) (xs : List ℕ) → ((x : ℕ) → P x) → All P xs
everywhere P [] h = tt
everywhere P (x ∷ xs) h = (h x, everywhere P xs h)

pub last_cases : (P : ℕ → Type 0) (p : ℕ) (xs : List ℕ) → All P xs → (xs ≡ []) ⊎ P (last p xs)
last_cases P p [] h = inl refl
last_cases P p (x ∷ []) h = inr h.0
last_cases P p (x ∷ y ∷ ys) (_, h) = elim (last_cases P x (y ∷ ys) h) [
  | inl e ↦ cc e
  | inr k ↦ inr k
]

-- Orders of different queues are different.
pub apart :
    (orders : ℕ → Order) (s : Side) (p : Price) (s' : Side) (p' : Price) (y x : ℕ)
    → is_at s p s' p' ≡ false
    → in_queue orders s p y ≡ true
    → in_queue orders s' p' x ≡ true
    → (y == x) ≡ false
apart orders s p s' p' y x other hy hx = elim (Bool-cases (y == x)) [
  | inr e ↦ e
  | inl e ↦
      let (sy, py) = is_at-eq (orders y).side (orders y).price s p hy in
      let (sx, px) = is_at-eq (orders x).side (orders x).price s' p' hx in
      let same = (==_iff y x).0 e in
      cc (
        other,
        is_at_refl s p,
        ap₂ (λ a c. is_at s p a c) (sym sy ∙ ap (λ k. (orders k).side) same ∙ sx)
            (sym py ∙ ap (λ k. (orders k).price) same ∙ px),
      )
]

pub queue-same :
    (o o' : ℕ → Order) (s : Side) (p : Price) (rs : List ℕ)
    → All (λ j. ((o' j).side ≡ (o j).side) × ((o' j).price ≡ (o j).price)) rs
    → queue o' s p rs ≡ queue o s p rs
unfolding queue
queue-same o o' s p rs h = select-same (in_queue o s p) (in_queue o' s p) rs (
    All-imp (λ j. ((o' j).side ≡ (o j).side) × ((o' j).price ≡ (o j).price)) _ rs
      (λ j e. ap₂ (λ a c. is_at a c s p) e.0 e.1) h)
