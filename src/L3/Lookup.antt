-- ===== src/L3/Lookup.antt =====
-- Where the hash table of l3.hpp leads: to the order of an id in the abstract book, or to none.
use crossbook.Common.{ℕ, ◌≡◌, ◌≢◌, refl, sym, ap, ap₂, ◌∙◌, All, subst}
use crossbook.Common.{true, false, inl, inr, Bool-cases, ◌==◌, ==_iff}
use crossbook.Common.{List, [], ◌∷◌, ◌++◌, none, some, map}
use crossbook.Types.{Qty}
use crossbook.L3.Table.{no_order, find_ref}
use crossbook.L3.{Order, L3Book}
use crossbook.L3.Links.{IsFresh, All-imp, All-and, All-split, IsDistinct, IsDistinct-without}
use crossbook.L3.Spec.{lookup, without, with_qty}
use crossbook.L3.Valid.{IsBook, resting, Listed-split}

-- None of the orders has the id.
abbrev pub Lacks : (ℕ → Order) → ℕ → List ℕ → Type 0
Lacks orders id rs = All (λ x. ((orders x).id == id) ≡ false) rs

module _ (o : ℕ → Order) (id : ℕ) where
  pub lookup-Lacks : (rs : List ℕ) → Lacks o id rs → lookup id (map (resting o) rs) ≡ none
  unfolding lookup
  lookup-Lacks [] h = refl
  lookup-Lacks (x ∷ xs) (e, h) = rw e (lookup-Lacks xs h)

  pub without-Lacks :
      (rs : List ℕ) → Lacks o id rs → without id (map (resting o) rs) ≡ map (resting o) rs
  unfolding without
  without-Lacks [] h = refl
  without-Lacks (x ∷ xs) (e, h) = rw e (ap (◌∷◌ (resting o x)) (without-Lacks xs h))

  module _ (r : ℕ) (own : ((o r).id == id) ≡ true) where
    pub lookup-middle :
        (xs ys : List ℕ)
        → Lacks o id xs
        → lookup id (map (resting o) (xs ++ r ∷ ys)) ≡ some (resting o r)
    unfolding lookup
    lookup-middle [] ys h = rw own
    lookup-middle (x ∷ xs) ys (e, h) = rw e (lookup-middle xs ys h)

    pub without-middle :
        (xs ys : List ℕ)
        → Lacks o id xs
        → Lacks o id ys
        → without id (map (resting o) (xs ++ r ∷ ys)) ≡ map (resting o) (xs ++ ys)
    unfolding without
    without-middle [] ys h k = rw own (without-Lacks ys k)
    without-middle (x ∷ xs) ys (e, h) k = rw e (ap (◌∷◌ (resting o x)) (without-middle xs ys h k))

    module _ (o' : ℕ → Order) (q : Qty)
        (at_r : resting o' r ≡ record (resting o r) { qty = q }) where
      with_qty-Lacks :
          (ys : List ℕ)
          → Lacks o id ys
          → All (λ x. resting o' x ≡ resting o x) ys
          → with_qty id q (map (resting o) ys) ≡ map (resting o') ys
      unfolding with_qty
      with_qty-Lacks [] h s = refl
      with_qty-Lacks (y ∷ ys) (e, h) (c, s) = rw e (ap₂ ◌∷◌ (sym c) (with_qty-Lacks ys h s))

      pub with_qty-middle :
          (xs ys : List ℕ)
          → Lacks o id xs
          → Lacks o id ys
          → All (λ x. resting o' x ≡ resting o x) xs
          → All (λ x. resting o' x ≡ resting o x) ys
          → with_qty id q (map (resting o) (xs ++ r ∷ ys)) ≡ map (resting o') (xs ++ r ∷ ys)
      unfolding with_qty
      with_qty-middle [] ys h k s t = rw own (ap₂ ◌∷◌ (sym at_r) (with_qty-Lacks ys k t))
      with_qty-middle (x ∷ xs) ys (e, h) k (c, s) t =
          rw e (ap₂ ◌∷◌ (sym c) (with_qty-middle xs ys h k s t))

pub map-same :
    (o o' : ℕ → Order) (rs : List ℕ)
    → All (λ x. resting o' x ≡ resting o x) rs
    → map (resting o') rs ≡ map (resting o) rs
map-same o o' [] h = refl
map-same o o' (x ∷ xs) (e, h) = ap₂ ◌∷◌ e (map-same o o' xs h)

module _ {b : L3Book} {rs : List ℕ} (k : IsBook b rs) (id : ℕ) where
  -- An id that leads nowhere is the id of no order.
  pub missing_id : find_ref b.table id ≡ no_order → Lacks b.orders id rs
  missing_id e =
      All-imp (λ x. (find_ref b.table (b.orders x).id ≡ x) × ((no_order == x) ≡ false)) _ rs lacks
        (All-and _ (λ x. (no_order == x) ≡ false) rs k.on_file.filed k.queued.nulls)
    where
      lacks :
          (x : ℕ)
          → (find_ref b.table (b.orders x).id ≡ x) × ((no_order == x) ≡ false)
          → ((b.orders x).id == id) ≡ false
      lacks x (f, n) = elim (Bool-cases ((b.orders x).id == id)) [
        | inr other ↦ other
        | inl same ↦
            let e' = ap (find_ref b.table) ((==_iff (b.orders x).id id).0 same) in
            cc (n, (==_iff no_order x).1 (sym e ∙ sym e' ∙ f))
      ]

  -- An id that leads to an order is that order's, and no other order has it.
  pub hit_id :
      find_ref b.table id ≢ no_order
      → (xs : List ℕ) × (ys : List ℕ) × (rs ≡ xs ++ find_ref b.table id ∷ ys)
        × (((b.orders (find_ref b.table id)).id == id) ≡ true)
        × Lacks b.orders id xs
        × Lacks b.orders id ys
  hit_id ne =
      let (listed, own) = k.on_file.indexed id ne in
      let (xs, ys, e) = Listed-split (find_ref b.table id) rs listed in
      let (_, fresh) =
        IsDistinct-without xs (find_ref b.table id) ys (subst IsDistinct e k.queued.distinct) in
      let (fx, fy) = All-split _ xs ys fresh in
      let (gx, gy) =
        All-split _ xs (find_ref b.table id ∷ ys)
          (subst (All (λ x. find_ref b.table (b.orders x).id ≡ x)) e k.on_file.filed) in
      (
        xs,
        ys,
        e,
        (==_iff (b.orders (find_ref b.table id)).id id).1 own,
        lacks xs gx fx,
        lacks ys gy.1 fy,
      )
    where
      lacks_one :
          (x : ℕ)
          → (find_ref b.table (b.orders x).id ≡ x) × ((find_ref b.table id == x) ≡ false)
          → ((b.orders x).id == id) ≡ false
      lacks_one x (f, n) = elim (Bool-cases ((b.orders x).id == id)) [
        | inr other ↦ other
        | inl same ↦
            let e' = ap (find_ref b.table) ((==_iff (b.orders x).id id).0 same) in
            cc (n, (==_iff (find_ref b.table id) x).1 (sym e' ∙ f))
      ]

      lacks :
          (xs : List ℕ)
          → All (λ x. find_ref b.table (b.orders x).id ≡ x) xs
          → IsFresh (find_ref b.table id) xs
          → Lacks b.orders id xs
      lacks xs g f =
          All-imp
            (λ x. (find_ref b.table (b.orders x).id ≡ x) × ((find_ref b.table id == x) ≡ false)) _
            xs lacks_one (All-and _ (λ x. (find_ref b.table id == x) ≡ false) xs g f)
