-- ===== src/Book/Array/Outside.antt =====
-- The levels of a ladder that have no slot in a window.
use crossbook.Common.{
  ℕ, ◌≡◌, refl, ap, ◌∙◌, subst, List, [], ◌∷◌, Option, none, some, All, if◌then◌else◌, false,
}
use crossbook.Common.Int.{ℤ}
use crossbook.Types.{Side, Price, Level, eq_ℤ, Before}
use crossbook.Book.Ladder.{qty_at, IsLadder}
use crossbook.Book.Array.Order.{IsWindow, slot_of, IsSlot, slot_of-IsSlot}
use crossbook.Book.Array.Valid.{IsOutside}
use crossbook.Book.Array.Refill.{outside_of, keep}

All-keep {κ} :
    (P : Level → Type κ) (o : Option ℕ) (l : Level) (ls : List Level)
    → (o ≡ none → P l)
    → All P ls
    → All P (keep o l ls)
All-keep P none l ls h k = (h refl, k)
All-keep P (some i) l ls h k = k

pub All-outside_of {κ} :
    (P : Level → Type κ) (base : ℤ) (slots : ℕ) (ls : List Level)
    → All P ls
    → All P (outside_of base slots ls)
unfolding outside_of
All-outside_of P base slots [] h = tt
All-outside_of P base slots (l ∷ ls) (p, h) =
    All-keep P (slot_of base slots l.price) l (outside_of base slots ls) (λ e. p)
      (All-outside_of P base slots ls h)

pub outside_of-IsOutside :
    (base : ℤ) (slots : ℕ) (ls : List Level)
    → IsWindow base slots
    → All (IsOutside base slots) (outside_of base slots ls)
unfolding outside_of
outside_of-IsOutside base slots [] w = tt
outside_of-IsOutside base slots (l ∷ ls) w =
    All-keep (IsOutside base slots) (slot_of base slots l.price) l (outside_of base slots ls)
      (λ e. subst (IsSlot base slots l.price) e (slot_of-IsSlot base slots l.price w))
      (outside_of-IsOutside base slots ls w)

pub outside_of-IsLadder :
    (s : Side) (base : ℤ) (slots : ℕ) (ls : List Level)
    → IsLadder s ls
    → IsLadder s (outside_of base slots ls)
unfolding outside_of
outside_of-IsLadder s base slots [] h = tt
outside_of-IsLadder s base slots (l ∷ ls) (nz, b, h) =
    kept (slot_of base slots l.price)
      (All-outside_of (λ (m : Level). Before s l.price m.price) base slots ls b)
      (outside_of-IsLadder s base slots ls h)
  where
    kept :
        (o : Option ℕ)
        → All (λ (m : Level). Before s l.price m.price) (outside_of base slots ls)
        → IsLadder s (outside_of base slots ls)
        → IsLadder s (keep o l (outside_of base slots ls))
    kept none a k = (nz, a, k)
    kept (some i) a k = k

-- At a price without a slot nothing is lost.
pub qty_at-outside_of :
    (base : ℤ) (slots : ℕ) (t : Price) (ls : List Level)
    → IsWindow base slots
    → IsSlot base slots t none
    → qty_at t (outside_of base slots ls) ≡ qty_at t ls
unfolding outside_of qty_at
qty_at-outside_of base slots t [] w h = refl
qty_at-outside_of base slots t (l ∷ ls) w h =
    kept (slot_of base slots l.price) (slot_of-IsSlot base slots l.price w)
    ∙ ap (λ q. if eq_ℤ l.price t then l.qty else q) (qty_at-outside_of base slots t ls w h)
  where
    kept :
        (o : Option ℕ)
        → IsSlot base slots l.price o
        → qty_at t (keep o l (outside_of base slots ls))
          ≡ (if eq_ℤ l.price t then l.qty else qty_at t (outside_of base slots ls))
    kept none g = refl
    kept (some i) (k, e) = rw (subst (λ p. eq_ℤ p t ≡ false) e (h i k)) refl
