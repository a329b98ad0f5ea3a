-- ===== src/Book/Ladder.antt =====
-- The abstract view of one side of a book: its levels in book order, each price once, and what one
-- absolute update does to them. Both containers of book.hpp are meant to implement it.
pub mod Laws
pub mod Reverse
pub mod Remove
use crossbook.Common.{◌≡◌, ◌⊎◌, inl, inr, arith}
use crossbook.Common.{true, false, List, [], ◌∷◌, if◌then◌else◌, All, Bool-cases}
use crossbook.Common.Int.{ℤ, pos, eq_of_parts}
use crossbook.Types.{Side, bid, ask, Price, Qty, eq_ℤ, is_zero, Level, precedes, Before}

-- The quantity resting at a price, 0 for none.
unfoldable pub qty_at : Price → List Level → Qty
qty_at p [] = pos 0
qty_at p (l ∷ ls) = if eq_ℤ l.price p then l.qty else qty_at p ls

unfoldable pub update : Side → Price → Qty → List Level → List Level
update s p q [] = if is_zero q then [] else record { price = p; qty = q } ∷ []
update s p q (l ∷ ls) =
    if eq_ℤ l.price p
    then if is_zero q then ls else record { price = p; qty = q } ∷ ls
    else if precedes s p l.price
    then if is_zero q then l ∷ ls else record { price = p; qty = q } ∷ l ∷ ls
    else l ∷ update s p q ls

-- Every level comes before all that follow it, and no level is empty.
abbrev pub IsLadder : Side → List Level → Type 0
IsLadder s [] = Unit {0}
IsLadder s (l ∷ ls) =
    (is_zero l.qty ≡ false) × All (λ (m : Level). Before s l.price m.price) ls × IsLadder s ls

pub eq_ℤ-refl : (a : ℤ) → eq_ℤ a a ≡ true
eq_ℤ-refl a = ground arith

pub eq_of_eq_ℤ : (a b : ℤ) → eq_ℤ a b ≡ true → a ≡ b
eq_of_eq_ℤ a b h = eq_of_parts a b (ground arith)

pub Before-trans : (s : Side) (a b c : ℤ) → Before s a b → Before s b c → Before s a c
Before-trans bid a b c h k = omega arith
Before-trans ask a b c h k = omega arith

pub All-Before :
    (s : Side) (a b : ℤ) (ls : List Level)
    → Before s a b
    → All (λ (m : Level). Before s b m.price) ls
    → All (λ (m : Level). Before s a m.price) ls
All-Before s a b [] h k = tt
All-Before s a b (l ∷ ls) h k = (Before-trans s a b l.price h k.0, All-Before s a b ls h k.1)

-- What holds of the new price and of the old ones holds of all.
pub All-update :
    (P : Price → Type 0) (s : Side) (p : Price) (q : Qty) (ls : List Level)
    → P p
    → All (λ (m : Level). P m.price) ls
    → All (λ (m : Level). P m.price) (update s p q ls)
unfolding update
All-update P s p q [] h k = elim (Bool-cases (is_zero q)) [ inl z ↦ rw z tt | inr z ↦ rw z (h, tt) ]
All-update P s p q (l ∷ ls) h (b, k) = elim (Bool-cases (eq_ℤ l.price p)) [
  | inl e ↦ rw e (elim (Bool-cases (is_zero q)) [ inl z ↦ rw z k | inr z ↦ rw z (h, k) ])
  | inr e ↦ rw e (elim (Bool-cases (precedes s p l.price)) [
    | inl c ↦
        rw c (elim (Bool-cases (is_zero q)) [ inl z ↦ rw z (b, k) | inr z ↦ rw z (h, (b, k)) ])
    | inr c ↦ rw c (b, All-update P s p q ls h k)
  ])
]

-- The three ways in which two prices stand to one another.
pub price_cases :
    (s : Side) (a b : ℤ)
    → ((eq_ℤ a b ≡ true) × (a ≡ b))
      ⊎ ((eq_ℤ a b ≡ false) × (precedes s b a ≡ true) × Before s b a)
      ⊎ ((eq_ℤ a b ≡ false) × (precedes s b a ≡ false) × Before s a b)
price_cases bid a b = ground (arith, eq_of_eq_ℤ a b)
price_cases ask a b = ground (arith, eq_of_eq_ℤ a b)
