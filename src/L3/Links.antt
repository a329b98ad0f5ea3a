-- ===== src/L3/Links.antt =====
-- A queue of l3.hpp as its links: the references of its orders, front first, and what each says of
-- its neighbours.
use crossbook.Common.{ℕ, ◌≡◌, refl, sym, ap, ◌∙◌, arith, All, All-append}
use crossbook.Common.{false, if◌then◌else◌, ◌==◌, ==_iff}
use crossbook.Common.{List, [], ◌∷◌, ◌++◌}

abbrev pub first : List ℕ → ℕ → ℕ
first [] n = n
first (r ∷ rs) n = r

abbrev pub last : ℕ → List ℕ → ℕ
last p [] = p
last p (r ∷ rs) = last r rs

-- `rs` is linked from `p` before it to `n` behind it.
abbrev pub Linked : (ℕ → ℕ) → (ℕ → ℕ) → ℕ → List ℕ → ℕ → Type 0
Linked prev next p [] n = Unit {0}
Linked prev next p (r ∷ rs) n = (prev r ≡ p) × (next r ≡ first rs n) × Linked prev next r rs n

abbrev pub IsFresh : ℕ → List ℕ → Type 0
IsFresh r rs = All (λ x. (r == x) ≡ false) rs

abbrev pub IsDistinct : List ℕ → Type 0
IsDistinct [] = Unit {0}
IsDistinct (r ∷ rs) = IsFresh r rs × IsDistinct rs

pub All-imp {ℓ κ} :
    {A : Type ℓ} (P : A → Type κ) (Q : A → Type κ) (xs : List A)
    → ((x : A) → P x → Q x)
    → All P xs
    → All Q xs
All-imp P Q [] f h = tt
All-imp P Q (x ∷ xs) f (p, h) = (f x p, All-imp P Q xs f h)

pub All-and {ℓ} :
    {A : Type ℓ} (P : A → Type 0) (Q : A → Type 0) (xs : List A)
    → All P xs
    → All Q xs
    → All (λ x. P x × Q x) xs
All-and P Q [] h k = tt
All-and P Q (x ∷ xs) (p, h) (q, k) = ((p, q), All-and P Q xs h k)

pub All-split {ℓ} :
    {A : Type ℓ} (P : A → Type 0) (xs ys : List A) → All P (xs ++ ys) → All P xs × All P ys
All-split P [] ys h = (tt, h)
All-split P (x ∷ xs) ys (p, h) = let (l, r) = All-split P xs ys h in ((p, l), r)

pub eq_sym : (a b : ℕ) → (a == b) ≡ false → (b == a) ≡ false
eq_sym a b h = ground arith

-- A distinct list stays so without one element, which is none of the others.
pub IsDistinct-without :
    (xs : List ℕ) (r : ℕ) (ys : List ℕ)
    → IsDistinct (xs ++ r ∷ ys)
    → IsDistinct (xs ++ ys) × IsFresh r (xs ++ ys)
IsDistinct-without [] r ys (f, d) = (d, f)
IsDistinct-without (x ∷ xs) r ys (f, d) =
    let (d', f') = IsDistinct-without xs r ys d in
    let (fx, fy) = All-split (λ y. (x == y) ≡ false) xs (r ∷ ys) f in
    ((All-append (λ y. (x == y) ≡ false) xs ys fx fy.1, d'), (eq_sym x r fy.0, f'))

pub IsDistinct-snoc :
    (xs : List ℕ) (r : ℕ) → IsDistinct xs → IsFresh r xs → IsDistinct (xs ++ r ∷ [])
IsDistinct-snoc [] r d f = (tt, tt)
IsDistinct-snoc (x ∷ xs) r (fx, d) (e, f) =
    (All-append (λ y. (x == y) ≡ false) xs (r ∷ []) fx (eq_sym r x e, tt), IsDistinct-snoc xs r d f)

pub first-append : (xs ys : List ℕ) (n : ℕ) → first (xs ++ ys) n ≡ first xs (first ys n)
first-append [] ys n = refl
first-append (x ∷ xs) ys n = refl

pub last-append : (p : ℕ) (xs ys : List ℕ) → last p (xs ++ ys) ≡ last (last p xs) ys
last-append p [] ys = refl
last-append p (x ∷ xs) ys = last-append x xs ys

module _ (prev next : ℕ → ℕ) where
  pub Linked-split :
      (p : ℕ) (xs ys : List ℕ) (n : ℕ)
      → Linked prev next p (xs ++ ys) n
      → Linked prev next p xs (first ys n) × Linked prev next (last p xs) ys n
  Linked-split p [] ys n h = (tt, h)
  Linked-split p (x ∷ xs) ys n (hp, hn, h) =
      let (l, r) = Linked-split x xs ys n h in ((hp, hn ∙ first-append xs ys n, l), r)

  pub Linked-join :
      (p : ℕ) (xs ys : List ℕ) (n : ℕ)
      → Linked prev next p xs (first ys n)
      → Linked prev next (last p xs) ys n
      → Linked prev next p (xs ++ ys) n
  Linked-join p [] ys n l r = r
  Linked-join p (x ∷ xs) ys n (hp, hn, l) r =
      (hp, hn ∙ sym (first-append xs ys n), Linked-join x xs ys n l r)

  module _ (prev' next' : ℕ → ℕ) where
    pub Linked-frame :
        (p : ℕ) (xs : List ℕ) (n : ℕ)
        → All (λ x. (prev' x ≡ prev x) × (next' x ≡ next x)) xs
        → Linked prev next p xs n
        → Linked prev' next' p xs n
    Linked-frame p [] n s h = tt
    Linked-frame p (x ∷ xs) n ((sp, sn), s) (hp, hn, h) =
        (sp ∙ hp, sn ∙ hn, Linked-frame x xs n s h)

    -- The last order is linked on to `m`.
    pub Linked-retarget :
        (p : ℕ) (xs : List ℕ) (n m : ℕ)
        → IsDistinct xs
        → All (λ x. (prev' x ≡ prev x) × (next' x ≡ (if last p xs == x then m else next x))) xs
        → Linked prev next p xs n
        → Linked prev' next' p xs m
    Linked-retarget p [] n m d s h = tt
    Linked-retarget p (x ∷ []) n m d ((sp, sn), s) (hp, hn, h) =
        (sp ∙ hp, sn ∙ ap (λ b. if b then m else next x) ((==_iff x x).1 refl), tt)
    Linked-retarget p (x ∷ y ∷ ys) n m (f, d) ((sp, sn), s) (hp, hn, h) = (
      sp ∙ hp,
      sn ∙ ap (λ b. if b then m else next x) (last-IsFresh x y ys f) ∙ hn,
      Linked-retarget x (y ∷ ys) n m d s h,
    )
      where
        last-IsFresh : (x y : ℕ) (ys : List ℕ) → IsFresh x (y ∷ ys) → (last y ys == x) ≡ false
        last-IsFresh x y [] (e, f) = eq_sym x y e
        last-IsFresh x y (z ∷ zs) (e, f) = last-IsFresh x z zs f

    -- The first order is linked back to `q`.
    pub Linked-reroot :
        (p q : ℕ) (x : ℕ) (xs : List ℕ) (n : ℕ)
        → prev' x ≡ q
        → next' x ≡ next x
        → All (λ y. (prev' y ≡ prev y) × (next' y ≡ next y)) xs
        → Linked prev next p (x ∷ xs) n
        → Linked prev' next' q (x ∷ xs) n
    Linked-reroot p q x xs n e f s (hp, hn, h) = (e, f ∙ hn, Linked-frame x xs n s h)
