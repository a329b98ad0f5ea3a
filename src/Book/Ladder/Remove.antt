-- ===== src/Book/Ladder/Remove.antt =====
-- Removing levels from the inside of a ladder.
use crossbook.Common.{◌≡◌, refl, ap, ◌∙◌}
use crossbook.Common.{List, [], ◌∷◌, ◌++◌, All}
use crossbook.Common.Int.{pos}
use crossbook.Types.{Side, Price, Level, Before}
use crossbook.Book.Ladder.{update, IsLadder, eq_ℤ-refl}
use crossbook.Book.Ladder.Laws.{Before-irrefl, Before-asym}

abbrev pub prices : List Level → List Price
prices [] = []
prices (l ∷ ls) = l.price ∷ prices ls

unfoldable pub remove_prices : Side → List Price → List Level → List Level
remove_prices s [] ls = ls
remove_prices s (p ∷ ps) ls = remove_prices s ps (update s p (pos 0) ls)

All-middle :
    (P : Level → Type 0) (xs : List Level) (l : Level) (ys : List Level)
    → All P (xs ++ l ∷ ys)
    → P l
All-middle P [] l ys h = h.0
All-middle P (x ∷ xs) l ys h = All-middle P xs l ys h.1

All-drop_middle :
    (P : Level → Type 0) (xs : List Level) (l : Level) (ys : List Level)
    → All P (xs ++ l ∷ ys)
    → All P (xs ++ ys)
All-drop_middle P [] l ys h = h.1
All-drop_middle P (x ∷ xs) l ys h = (h.0, All-drop_middle P xs l ys h.1)

IsLadder-drop_middle :
    (s : Side) (xs : List Level) (l : Level) (ys : List Level)
    → IsLadder s (xs ++ l ∷ ys)
    → IsLadder s (xs ++ ys)
IsLadder-drop_middle s [] l ys h = h.2
IsLadder-drop_middle s (x ∷ xs) l ys (z, b, h) = (
  z,
  All-drop_middle (λ (m : Level). Before s x.price m.price) xs l ys b,
  IsLadder-drop_middle s xs l ys h,
)

update-remove :
    (s : Side) (xs : List Level) (l : Level) (ys : List Level)
    → IsLadder s (xs ++ l ∷ ys)
    → update s l.price (pos 0) (xs ++ l ∷ ys) ≡ xs ++ ys
unfolding update
update-remove s [] l ys h = rw (eq_ℤ-refl l.price)
update-remove s (x ∷ xs) l ys (z, b, h) =
    let c : Before s x.price l.price = All-middle (λ m. Before s x.price m.price) xs l ys b in
    rw (Before-irrefl s x.price l.price c, Before-asym s x.price l.price c)
      (ap (◌∷◌ x) (update-remove s xs l ys h))

-- Removing the prices of an inner stretch, one by one, leaves what stands around it.
pub remove_prices-stretch :
    (s : Side) (xs ds ys : List Level)
    → IsLadder s (xs ++ (ds ++ ys))
    → remove_prices s (prices ds) (xs ++ (ds ++ ys)) ≡ xs ++ ys
unfolding remove_prices
remove_prices-stretch s xs [] ys h = refl
remove_prices-stretch s xs (d ∷ ds) ys h =
    ap (remove_prices s (prices ds)) (update-remove s xs d (ds ++ ys) h)
    ∙ remove_prices-stretch s xs ds ys (IsLadder-drop_middle s xs d (ds ++ ys) h)
