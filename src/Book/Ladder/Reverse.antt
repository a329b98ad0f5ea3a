-- ===== src/Book/Ladder/Reverse.antt =====
-- A ladder read backwards is the ladder of the opposite side, with the same quantities.
use crossbook.Common.{◌≡◌, refl, arith}
use crossbook.Common.{false, List, [], ◌∷◌, ◌++◌, if◌then◌else◌, All, All-append, reverse}
use crossbook.Common.Int.{ℤ}
use crossbook.Types.{Side, bid, ask, opposite, Price, eq_ℤ, is_zero, Level, Before}
use crossbook.Book.Ladder.{qty_at, IsLadder, eq_of_eq_ℤ}
use mathlib.Core.List.{reverse-cons}

Before-opposite : (s : Side) (a b : ℤ) → Before s a b → Before (opposite s) b a
Before-opposite bid a b h = h
Before-opposite ask a b h = h

All-opposite :
    (s : Side) (a : ℤ) (ls : List Level)
    → All (λ (m : Level). Before s a m.price) ls
    → All (λ (m : Level). Before (opposite s) m.price a) ls
All-opposite s a [] h = tt
All-opposite s a (l ∷ ls) (b, h) = (Before-opposite s a l.price b, All-opposite s a ls h)

pub All-reverse {κ} : (P : Level → Type κ) (ls : List Level) → All P ls → All P (reverse ls)
All-reverse P [] h = tt
All-reverse P (l ∷ ls) (p, h) =
    rw (reverse-cons l ls) (All-append P (reverse ls) (l ∷ []) (All-reverse P ls h) (p, tt))

IsLadder-snoc :
    (s : Side) (ls : List Level) (l : Level)
    → IsLadder s ls
    → is_zero l.qty ≡ false
    → All (λ (m : Level). Before s m.price l.price) ls
    → IsLadder s (ls ++ l ∷ [])
IsLadder-snoc s [] l h z b = (z, tt, tt)
IsLadder-snoc s (k ∷ ls) l (zk, bk, h) z (b, bs) = (
  zk,
  All-append (λ (m : Level). Before s k.price m.price) ls (l ∷ []) bk (b, tt),
  IsLadder-snoc s ls l h z bs,
)

pub reverse-IsLadder :
    (s : Side) (ls : List Level) → IsLadder s ls → IsLadder (opposite s) (reverse ls)
reverse-IsLadder s [] h = tt
reverse-IsLadder s (l ∷ ls) (z, b, h) = rw (reverse-cons l ls) (
    IsLadder-snoc (opposite s) (reverse ls) l (reverse-IsLadder s ls h) z
      (All-reverse (λ m. Before (opposite s) m.price l.price) ls (All-opposite s l.price ls b)))

qty_at-snoc :
    (s : Side) (t : Price) (ls : List Level) (l : Level)
    → All (λ (m : Level). Before s m.price l.price) ls
    → qty_at t (ls ++ l ∷ []) ≡ (if eq_ℤ l.price t then l.qty else qty_at t ls)
unfolding qty_at
qty_at-snoc s t [] l h = refl
qty_at-snoc s t (k ∷ ls) l (b, h) = rw (qty_at-snoc s t ls l h) (unequal s b)
  where
    unequal :
        (s' : Side)
        → Before s' k.price l.price
        → (if eq_ℤ k.price t then k.qty else if eq_ℤ l.price t then l.qty else qty_at t ls)
          ≡ (if eq_ℤ l.price t then l.qty else if eq_ℤ k.price t then k.qty else qty_at t ls)
    unequal bid c = ground (arith, eq_of_eq_ℤ k.price t, eq_of_eq_ℤ l.price t)
    unequal ask c = ground (arith, eq_of_eq_ℤ k.price t, eq_of_eq_ℤ l.price t)

pub qty_at-reverse :
    (s : Side) (t : Price) (ls : List Level) → IsLadder s ls → qty_at t (reverse ls) ≡ qty_at t ls
qty_at-reverse s t [] h = refl
qty_at-reverse s t (l ∷ ls) (z, b, h) =
    rw
      (
        reverse-cons l ls,
        qty_at-snoc (opposite s) t (reverse ls) l (
            All-reverse (λ m. Before (opposite s) m.price l.price) ls
              (All-opposite s l.price ls b)),
        qty_at-reverse s t ls h,
      )
      (unfold qty_at in refl)
