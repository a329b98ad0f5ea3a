-- ===== src/Book/Array/Merge.antt =====
-- Two ladders merged by price, as `for_each` reads the window and the spill list.
use crossbook.Common.{◌+◌, ◌≡◌, inl, inr, refl, arith}
use crossbook.Common.{true, false, List, [], ◌∷◌, if◌then◌else◌, All, length, if_cases}
use crossbook.Common.Int.{pos}
use crossbook.Types.{Side, Price, Level, precedes, Before, eq_ℤ}
use crossbook.Book.Ladder.Laws.{Before-asym}
use crossbook.Book.Ladder.{qty_at, IsLadder, price_cases, All-Before}

unfoldable pub merge : Side → List Level → List Level → List Level
merge s [] ys = ys
merge s (x ∷ xs) [] = x ∷ xs
merge s (x ∷ xs) (y ∷ ys) =
    if precedes s x.price y.price then x ∷ merge s xs (y ∷ ys) else y ∷ merge s (x ∷ xs) ys

pub merge_nil : (s : Side) (xs : List Level) → merge s xs [] ≡ xs
unfolding merge
merge_nil s [] = refl
merge_nil s (x ∷ xs) = refl

pub All-map {ℓ κ ι} :
    {A : Type ℓ} (P : A → Type κ) (Q : A → Type ι) (f : (x : A) → P x → Q x) (xs : List A)
    → All P xs
    → All Q xs
All-map P Q f [] h = tt
All-map P Q f (x ∷ xs) (p, h) = (f x p, All-map P Q f xs h)

pub All-merge {κ} :
    (P : Level → Type κ) (s : Side) (xs ys : List Level)
    → All P xs
    → All P ys
    → All P (merge s xs ys)
unfolding merge
All-merge P s [] ys h k = k
All-merge P s (x ∷ xs) [] h k = h
All-merge P s (x ∷ xs) (y ∷ ys) (p, h) (q, k) =
    if_cases (All P) (precedes s x.price y.price) (x ∷ merge s xs (y ∷ ys))
      (y ∷ merge s (x ∷ xs) ys) (λ _. (p, All-merge P s xs (y ∷ ys) h (q, k)))
      (λ _. (q, All-merge P s (x ∷ xs) ys (p, h) k))

-- No level of the list stands at the price.
abbrev pub Misses : Price → List Level → Type 0
Misses t ls = All (λ (l : Level). eq_ℤ l.price t ≡ false) ls

pub qty_at-Misses : (t : Price) (ls : List Level) → Misses t ls → qty_at t ls ≡ pos 0
unfolding qty_at
qty_at-Misses t [] h = refl
qty_at-Misses t (l ∷ ls) (e, h) = rw e (qty_at-Misses t ls h)

pub qty_at-merge_left :
    (t : Price) (s : Side) (xs ys : List Level)
    → Misses t ys
    → qty_at t (merge s xs ys) ≡ qty_at t xs
unfolding merge qty_at
qty_at-merge_left t s [] ys h = qty_at-Misses t ys h
qty_at-merge_left t s (x ∷ xs) [] h = refl
qty_at-merge_left t s (x ∷ xs) (y ∷ ys) (e, h) =
    if_cases (λ ls. qty_at t ls ≡ qty_at t (x ∷ xs)) (precedes s x.price y.price)
      (x ∷ merge s xs (y ∷ ys)) (y ∷ merge s (x ∷ xs) ys)
      (λ _. rw (qty_at-merge_left t s xs (y ∷ ys) (e, h)))
      (λ _. rw e (qty_at-merge_left t s (x ∷ xs) ys h))

pub qty_at-merge_right :
    (t : Price) (s : Side) (xs ys : List Level)
    → Misses t xs
    → qty_at t (merge s xs ys) ≡ qty_at t ys
unfolding merge qty_at
qty_at-merge_right t s [] ys h = refl
qty_at-merge_right t s (x ∷ xs) [] h = qty_at-Misses t (x ∷ xs) h
qty_at-merge_right t s (x ∷ xs) (y ∷ ys) (e, h) =
    if_cases (λ ls. qty_at t ls ≡ qty_at t (y ∷ ys)) (precedes s x.price y.price)
      (x ∷ merge s xs (y ∷ ys)) (y ∷ merge s (x ∷ xs) ys)
      (λ _. rw e (qty_at-merge_right t s xs (y ∷ ys) h))
      (λ _. rw (qty_at-merge_right t s (x ∷ xs) ys (e, h)))

pub length-merge : (s : Side) (xs ys : List Level) → length (merge s xs ys) ≡ length xs + length ys
unfolding merge
length-merge s [] ys = omega arith
length-merge s (x ∷ xs) [] = omega arith
length-merge s (x ∷ xs) (y ∷ ys) =
    if_cases (λ ls. length ls ≡ length (x ∷ xs) + length (y ∷ ys)) (precedes s x.price y.price)
      (x ∷ merge s xs (y ∷ ys)) (y ∷ merge s (x ∷ xs) ys)
      (λ _. omega (arith, length-merge s xs (y ∷ ys)))
      (λ _. omega (arith, length-merge s (x ∷ xs) ys))

pub Before-precedes : (s : Side) (a b : Price) → Before s a b → precedes s a b ≡ true
Before-precedes Side.bid a b h = ground arith
Before-precedes Side.ask a b h = ground arith

-- No price stands in both lists.
abbrev pub Apart : List Level → List Level → Type 0
Apart xs ys = All (λ (x : Level). All (λ (y : Level). eq_ℤ x.price y.price ≡ false) ys) xs

pub merge-IsLadder :
    (s : Side) (xs ys : List Level)
    → IsLadder s xs
    → IsLadder s ys
    → Apart xs ys
    → IsLadder s (merge s xs ys)
unfolding merge
merge-IsLadder s [] ys g h a = h
merge-IsLadder s (x ∷ xs) [] g h a = g
merge-IsLadder s (x ∷ xs) (y ∷ ys) (zx, bx, g) (zy, byy, h) ((e, es), a) =
    elim (price_cases s x.price y.price) [
      | inl (q, _) ↦ absurd (clash q)
      | inr (inl (_, c, before)) ↦ rw (Before-asym s y.price x.price before) (
        zy,
        All-merge (λ (m : Level). Before s y.price m.price) s (x ∷ xs) ys
            (before, All-Before s y.price x.price xs before bx) byy,
        merge-IsLadder s (x ∷ xs) ys (zx, bx, g) h
            (
              es,
              All-map (λ (k : Level). All (λ (m : Level). eq_ℤ k.price m.price ≡ false) (y ∷ ys))
                  (λ (k : Level). All (λ (m : Level). eq_ℤ k.price m.price ≡ false) ys) (λ k r. r.1)
                  xs a,
            ),
      )
      | inr (inr (_, c, before)) ↦ rw (Before-precedes s x.price y.price before) (
        zx,
        All-merge (λ (m : Level). Before s x.price m.price) s xs (y ∷ ys) bx
            (before, All-Before s x.price y.price ys before byy),
        merge-IsLadder s xs (y ∷ ys) g (zy, byy, h) a,
      )
    ]
  where
    clash : eq_ℤ x.price y.price ≡ true → ⊥
    clash q = cc
